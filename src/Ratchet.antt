-- ===== src/Ratchet.antt =====
-- pkg/crypto/ratchet.go: the Double Ratchet of one peer. A method runs on the ratchet together with
-- the random source, and what it wrote before an error stays written.
pub mod Steps
pub mod Sync
pub mod Conversation
mod Tests
use pelagos.Base.{
  ℕ, zero, suc, ◌+◌, ◌-◌, ◌%◌, ◌^◌, ◌<◌, List, [], ◌∷◌, ◌++◌, Bool, true, false, Option, none, some,
  Result, Error, ok, err, length, ◌==◌, ltb, if◌then◌else◌, or_fail, take, drop, replicate,
  overwrite, ◌||◌, not,
}
use pelagos.Base.State.{Act, ◌>>=◌, ◌>>◌, pure, lift, get_state, modify, continue}
use pelagos.Crypto.Library.{GoCrypto}
use pelagos.Crypto.Random.{secure_random, generate_ecdh_key_pair, compute_ecdh_shared_secret}
use pelagos.Crypto.Keys.{
  derive_ratcheted_keys, derive_root_step, encrypt_aead, decrypt_aead, nonce_size_x,
}

-- `DHsLocal` is set by every successful `NewRatchet`, so it is no option; the counters are uint32.
pub record Ratchet (c : GoCrypto) : Type 0 where
  pub dhs_local : GoCrypto.PrivateKey c
  pub dhr_peer : Option (GoCrypto.PublicKey c)
  pub rk : List ℕ
  pub cks : List ℕ
  pub ckr : List ℕ
  pub ns : ℕ
  pub nr : ℕ
  pub pn : ℕ
  -- The key of the map, `"%x-%d"`, is the pair of the public key's bytes and the number.
  pub skipped_keys : List ((List ℕ × ℕ) × List ℕ)

module _ (c : GoCrypto) where
  open c use {Rng, PrivateKey, PublicKey, public_key, public_bytes, public_equal, new_public_key}

  abbrev pub RatchetAct : Type 0 → Type 0
  RatchetAct A = Act (Ratchet c × Rng) A

  abbrev pub on_rng : {A : Type 0} → Act Rng A → RatchetAct A
  on_rng f (r, g) = ((f g).0, (r, (f g).1))

  abbrev pub get_ratchet : RatchetAct (Ratchet c)
  get_ratchet (r, g) = (ok r, (r, g))

  abbrev pub set_ratchet : Ratchet c → RatchetAct (Unit {0})
  set_ratchet r (_, g) = (ok tt, (r, g))

  -- `r.RK, r.CKs, err = DeriveRootStep(r.RK, dh)`: an error leaves both keys nil.
  unfoldable pub send_root_step : List ℕ → RatchetAct (Unit {0})
  send_root_step dh (r, g) = elim (derive_root_step c r.rk dh) [
    | ok (rk, ck) ↦ (ok tt, (record r { rk = rk; cks = ck }, g))
    | err e ↦ (err e, (record r { rk = []; cks = [] }, g))
    | Result.panic ↦ (Result.panic, (r, g))
  ]

  -- `r.RK, r.CKr, err = DeriveRootStep(r.RK, dh)`.
  unfoldable pub receive_root_step : List ℕ → RatchetAct (Unit {0})
  receive_root_step dh (r, g) = elim (derive_root_step c r.rk dh) [
    | ok (rk, ck) ↦ (ok tt, (record r { rk = rk; ckr = ck }, g))
    | err e ↦ (err e, (record r { rk = []; ckr = [] }, g))
    | Result.panic ↦ (Result.panic, (r, g))
  ]

  -- The value that the constructor fills, before either role's part.
  blank : PrivateKey → List ℕ → Ratchet c
  blank local rk = record {
    dhs_local = local;
    dhr_peer = none;
    rk = rk;
    cks = [];
    ckr = [];
    ns = 1;
    nr = 1;
    pn = 0;
    skipped_keys = [];
  }

  unfoldable pub initiator_ratchet : List ℕ → Option PublicKey → Act Rng (Ratchet c)
  unfolding blank
  initiator_ratchet rk none = lift (err Error.ratchet_no_remote)
  initiator_ratchet rk (some peer) = do
    (local, _) ← generate_ecdh_key_pair c
    dh ← lift (compute_ecdh_shared_secret c (some local) (some peer))
    (rk', ck) ← lift (derive_root_step c rk dh)
    pure (record (blank local rk') { dhr_peer = some peer; cks = ck })

  unfoldable pub responder_ratchet : List ℕ → Option PrivateKey → Act Rng (Ratchet c)
  unfolding blank
  responder_ratchet rk none = lift (err Error.ratchet_no_local)
  responder_ratchet rk (some local) = pure (blank local rk)

  unfoldable pub new_ratchet :
      List ℕ → Bool → Option PrivateKey → Option PublicKey → Act Rng (Ratchet c)
  new_ratchet secret is_initiator local remote =
      let rk = overwrite (replicate 32 0) secret in
      if not (length secret == 32)
      then lift (err Error.ratchet_secret_size)
      else if is_initiator
      then initiator_ratchet rk remote
      else responder_ratchet rk local

  -- The DH step of a sender whose sending chain key is not set.
  unfoldable pub start_sending_chain : Option PublicKey → RatchetAct (Unit {0})
  start_sending_chain none = lift (err Error.ratchet_cannot_send)
  start_sending_chain (some peer) = do
    (local, _) ← on_rng (generate_ecdh_key_pair c)
    r ← get_ratchet
    set_ratchet (record r { dhs_local = local })
    dh ← lift (compute_ecdh_shared_secret c (some local) (some peer))
    send_root_step dh
    r ← get_ratchet
    set_ratchet (record r { pn = r.ns; ns = 1 })

  -- The associated data: from the callback, if one is given.
  abbrev pub choose_aad : Option (List ℕ → List ℕ) → List ℕ → List ℕ → List ℕ
  choose_aad none static_aad epub = static_aad
  choose_aad (some get_aad) static_aad epub = get_aad epub

  -- One step of the sending chain, and the message sealed under its key.
  unfoldable pub seal_next :
      List ℕ → List ℕ → Option (List ℕ → List ℕ) → RatchetAct (List ℕ × List ℕ × ℕ)
  seal_next plaintext static_aad get_aad = do
    r ← get_ratchet
    let epub = public_bytes (public_key r.dhs_local)
    (next, mk) ← lift (derive_ratcheted_keys c r.cks)
    set_ratchet (record r { cks = next; ns = (r.ns + 1) % 2 ^ 32 })
    nonce ← on_rng (secure_random c nonce_size_x)
    sealed ← lift (encrypt_aead c mk nonce plaintext (choose_aad get_aad static_aad epub))
    pure (epub, nonce ++ sealed, r.ns)

  unfoldable pub ratchet_encrypt :
      List ℕ → List ℕ → Option (List ℕ → List ℕ) → RatchetAct (List ℕ × List ℕ × ℕ)
  ratchet_encrypt plaintext static_aad get_aad = do
    r ← get_ratchet
    (if length r.cks == 0 then start_sending_chain r.dhr_peer else pure tt)
    seal_next plaintext static_aad get_aad

  -- Whether the peer's key is not the one on record.
  abbrev pub is_new_peer : Option PublicKey → PublicKey → Bool
  is_new_peer none peer = true
  is_new_peer (some old) peer = not (public_equal old peer)

  -- The DH ratchet step on a new key of the peer: a receiving chain, then a sending chain.
  unfoldable pub dh_ratchet_step : PublicKey → RatchetAct (Unit {0})
  dh_ratchet_step peer = do
    r ← get_ratchet
    set_ratchet (record r { dhr_peer = some peer })
    dh ← lift (compute_ecdh_shared_secret c (some r.dhs_local) (some peer))
    receive_root_step dh
    (local, _) ← on_rng (generate_ecdh_key_pair c)
    r ← get_ratchet
    set_ratchet (record r { dhs_local = local })
    dh ← lift (compute_ecdh_shared_secret c (some local) (some peer))
    send_root_step dh
    r ← get_ratchet
    set_ratchet (record r { pn = r.ns; ns = 1; nr = 1 })

  -- The loop `for r.Nr < sequence`, by the number of its rounds.
  unfoldable pub skip_message_keys : ℕ → PublicKey → RatchetAct (Unit {0})
  skip_message_keys zero peer = pure tt
  skip_message_keys (suc rounds) peer = do
    r ← get_ratchet
    (next, skipped) ← lift (derive_ratcheted_keys c r.ckr)
    set_ratchet (record r {
      ckr = next;
      skipped_keys = ((public_bytes peer, r.nr), skipped) ∷ r.skipped_keys;
      nr = (r.nr + 1) % 2 ^ 32;
    })
    skip_message_keys rounds peer

  -- One step of the receiving chain, and the message opened under its key.
  unfoldable pub open_next : List ℕ → List ℕ → List ℕ → RatchetAct (List ℕ)
  open_next nonce ciphertext aad = do
    r ← get_ratchet
    (next, mk) ← lift (derive_ratcheted_keys c r.ckr)
    set_ratchet (record r { ckr = next; nr = (r.nr + 1) % 2 ^ 32 })
    lift (decrypt_aead c mk nonce ciphertext aad)

  unfoldable pub ratchet_decrypt : List ℕ → List ℕ → List ℕ → ℕ → RatchetAct (List ℕ)
  ratchet_decrypt epub full_ciphertext aad sequence =
      if ltb (length full_ciphertext) nonce_size_x
      then lift (err Error.ratchet_short_ciphertext)
      else do
        peer ← lift (or_fail (new_public_key epub) Error.ratchet_bad_public_key)
        r ← get_ratchet
        (if is_new_peer r.dhr_peer peer then dh_ratchet_step peer else pure tt)
        r ← get_ratchet
        skip_message_keys (sequence - r.nr) peer
        open_next (take nonce_size_x full_ciphertext) (drop nonce_size_x full_ciphertext) aad
