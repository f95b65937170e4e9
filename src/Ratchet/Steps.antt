-- ===== src/Ratchet/Steps.antt =====
-- One run of each part of ratchet.go, from the outcomes of the calls that it makes.
use pelagos.Base.{
  ℕ, ◌+◌, ◌-◌, ◌%◌, ◌^◌, ◌≡◌, List, ◌++◌, true, false, Option, some, ok, arith, length,
  length-append, take-append, drop-append, le→ltb,
}
use pelagos.Crypto.Library.{GoCrypto}
use pelagos.Crypto.Random.{secure_random, generate_ecdh_key_pair, compute_ecdh_shared_secret}
use pelagos.Crypto.Keys.{
  derive_ratcheted_keys, derive_root_step, encrypt_aead, decrypt_aead, nonce_size_x,
}
use pelagos.Ratchet.{
  Ratchet, send_root_step, receive_root_step, seal_next, ratchet_encrypt, is_new_peer,
  dh_ratchet_step, skip_message_keys, open_next, ratchet_decrypt, choose_aad,
}

module _ (c : GoCrypto) (r : Ratchet c) (g : GoCrypto.Rng c) (dh rk ck : List ℕ)
    (e : derive_root_step c r.rk dh ≡ ok (rk, ck)) where
  send_root_step_lem : send_root_step c dh (r, g) ≡ (ok tt, (record r { rk = rk; cks = ck }, g))
  unfolding send_root_step
  send_root_step_lem = rw (e, send_root_step)

  receive_root_step_lem :
      receive_root_step c dh (r, g) ≡ (ok tt, (record r { rk = rk; ckr = ck }, g))
  unfolding receive_root_step
  receive_root_step_lem = rw (e, receive_root_step)

zero_rounds : (n : ℕ) → 0 - n ≡ 0
zero_rounds n = omega arith

module _ (c : GoCrypto) (r : Ratchet c) (g : GoCrypto.Rng c) where
  -- The ratchet after the DH step on `peer`, with the keys that it derived.
  abbrev pub stepped :
      GoCrypto.PublicKey c → GoCrypto.PrivateKey c → List ℕ → List ℕ → List ℕ → Ratchet c
  stepped peer local rk ckr cks = record r {
    dhr_peer = some peer;
    dhs_local = local;
    rk = rk;
    ckr = ckr;
    cks = cks;
    pn = r.ns;
    ns = 1;
    nr = 1;
  }

  pub dh_ratchet_step_lem :
      (peer : GoCrypto.PublicKey c) (local : GoCrypto.PrivateKey c) (dh dh' rk ckr rk' cks : List ℕ)
      {p : GoCrypto.PublicKey c} {g' : GoCrypto.Rng c}
      → c.ecdh r.dhs_local peer ≡ some dh
      → derive_root_step c r.rk dh ≡ ok (rk, ckr)
      → generate_ecdh_key_pair c g ≡ (ok (local, p), g')
      → c.ecdh local peer ≡ some dh'
      → derive_root_step c rk dh' ≡ ok (rk', cks)
      → dh_ratchet_step c peer (r, g) ≡ (ok tt, (stepped peer local rk' ckr cks, g'))
  unfolding dh_ratchet_step compute_ecdh_shared_secret
  dh_ratchet_step_lem peer local dh dh' rk ckr rk' cks {g' = g'} e1 e2 e3 e4 e5 =
      let known : Ratchet c = record r { dhr_peer = some peer } in
      let fresh : Ratchet c = record known { rk = rk; ckr = ckr; dhs_local = local } in
      rw (
        e1,
        receive_root_step_lem c known g dh rk ckr e2,
        e3,
        e4,
        send_root_step_lem c fresh g' dh' rk' cks e5,
      )

  pub open_next_lem :
      (nonce ciphertext aad next mk m : List ℕ)
      → derive_ratcheted_keys c r.ckr ≡ ok (next, mk)
      → decrypt_aead c mk nonce ciphertext aad ≡ ok m
      → open_next c nonce ciphertext aad (r, g)
        ≡ (ok m, (record r { ckr = next; nr = (r.nr + 1) % 2 ^ 32 }, g))
  unfolding open_next
  open_next_lem nonce ciphertext aad next mk m e f = rw (e, f)

  pub ratchet_encrypt_lem :
      (m aad : List ℕ) (get_aad : Option (List ℕ → List ℕ)) (next mk nonce sealed : List ℕ)
      {g' : GoCrypto.Rng c}
      → length r.cks ≡ 32
      → derive_ratcheted_keys c r.cks ≡ ok (next, mk)
      → secure_random c nonce_size_x g ≡ (ok nonce, g')
      → encrypt_aead c mk nonce m
          (choose_aad c get_aad aad (c.public_bytes (c.public_key r.dhs_local)))
        ≡ ok sealed
      → ratchet_encrypt c m aad get_aad (r, g) ≡ (
        ok (c.public_bytes (c.public_key r.dhs_local), nonce ++ sealed, r.ns),
        (record r { cks = next; ns = (r.ns + 1) % 2 ^ 32 }, g'),
      )
  unfolding ratchet_encrypt seal_next
  ratchet_encrypt_lem m aad get_aad next mk nonce sealed h e f k = rw (h, e, f, k)

module _ (c : GoCrypto) (r : Ratchet c) (g : GoCrypto.Rng c) where
  -- A message of the peer on record: no DH step, and no key is skipped.
  pub ratchet_decrypt_known :
      (epub nonce sealed aad next mk m : List ℕ) (peer : GoCrypto.PublicKey c)
      → c.new_public_key epub ≡ some peer
      → is_new_peer c r.dhr_peer peer ≡ false
      → length nonce ≡ 24
      → derive_ratcheted_keys c r.ckr ≡ ok (next, mk)
      → decrypt_aead c mk nonce sealed aad ≡ ok m
      → ratchet_decrypt c epub (nonce ++ sealed) aad 0 (r, g)
        ≡ (ok m, (record r { ckr = next; nr = (r.nr + 1) % 2 ^ 32 }, g))
  unfolding ratchet_decrypt skip_message_keys
  ratchet_decrypt_known epub nonce sealed aad next mk m peer e n l k d =
      rw
        (
          le→ltb (length (nonce ++ sealed)) 24 (omega (arith, length-append nonce sealed)),
          e,
          n,
          zero_rounds r.nr,
          take-append nonce sealed 24 l,
          drop-append nonce sealed 24 l,
        )
        (open_next_lem c r g nonce sealed aad next mk m k d)

  -- A message under a new key of the peer: the DH step comes first.
  pub ratchet_decrypt_new :
      (epub nonce sealed aad next mk m : List ℕ) (peer : GoCrypto.PublicKey c) (r' : Ratchet c)
      (g' : GoCrypto.Rng c)
      → c.new_public_key epub ≡ some peer
      → is_new_peer c r.dhr_peer peer ≡ true
      → dh_ratchet_step c peer (r, g) ≡ (ok tt, (r', g'))
      → length nonce ≡ 24
      → derive_ratcheted_keys c r'.ckr ≡ ok (next, mk)
      → decrypt_aead c mk nonce sealed aad ≡ ok m
      → ratchet_decrypt c epub (nonce ++ sealed) aad 0 (r, g)
        ≡ (ok m, (record r' { ckr = next; nr = (r'.nr + 1) % 2 ^ 32 }, g'))
  unfolding ratchet_decrypt skip_message_keys
  ratchet_decrypt_new epub nonce sealed aad next mk m peer r' g' e n step l k d =
      rw
        (
          le→ltb (length (nonce ++ sealed)) 24 (omega (arith, length-append nonce sealed)),
          e,
          n,
          step,
          zero_rounds r'.nr,
          take-append nonce sealed 24 l,
          drop-append nonce sealed 24 l,
        )
        (open_next_lem c r' g' nonce sealed aad next mk m k d)
