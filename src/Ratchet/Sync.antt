-- ===== src/Ratchet/Sync.antt =====
-- Two ratchets of ratchet.go in step, and what one message does to them.
use pelagos.Base.{
  ◌+◌, ◌%◌, ◌^◌, length-append, arith, some, ℕ, ◌≡◌, refl, ◌∙◌, List, [], ◌++◌, err, panic, true,
  false, Result, ok, length, inl, inr, Bool-cases, subst,
}
use pelagos.Crypto.Library.{GoCrypto}
use pelagos.Crypto.Random.{rand_reader}
use pelagos.Crypto.Keys.{derive_root_step, nonce_size_x}
use pelagos.Crypto.Laws.{
  GoCryptoLaws, generate_lem, nonce_lem, derive_ratcheted_keys_lem, derive_root_step_lem,
  decrypt-encrypt,
}
use pelagos.Ratchet.{Ratchet, is_new_peer, ratchet_encrypt, ratchet_decrypt}
use pelagos.Ratchet.Steps.{
  stepped, dh_ratchet_step_lem, ratchet_encrypt_lem, ratchet_decrypt_known, ratchet_decrypt_new,
}

-- The DH key of `a` is newer than what `b` knows of it. The next message of `a` makes `b` step, to
-- the root key and the chain key that `a` has; the sending chain of `b`, if it has one yet, is the
-- receiving chain of `a`.
pub record Leads (c : GoCrypto) (a b : Ratchet c) : Type 0 where
  pub peer : a.dhr_peer ≡ some (c.public_key b.dhs_local)
  pub unknown : is_new_peer c b.dhr_peer (c.public_key a.dhs_local) ≡ true
  pub secret : List ℕ
  pub shared : c.ecdh b.dhs_local (c.public_key a.dhs_local) ≡ some secret
  pub root : derive_root_step c b.rk secret ≡ ok (a.rk, a.cks)
  pub chain_size : length a.cks ≡ 32
  pub reply : b.cks ≡ a.ckr

-- The keys that both ratchets hold have been drawn before, so the next one drawn is new.
pub record Known (c : GoCrypto) (L : GoCryptoLaws c) (a b : Ratchet c) (g : GoCrypto.Rng c)
    : Type 0 where
  pub drawn_a : L.Drawn g (c.public_key a.dhs_local)
  pub drawn_b : L.Drawn g (c.public_key b.dhs_local)

-- The public key of a newly drawn private key is not one that was drawn before.
drawn_apart :
    (c : GoCrypto) (L : GoCryptoLaws c) (g : GoCrypto.Rng c) (k : GoCrypto.PrivateKey c)
    → (c.generate_key (rand_reader c) g).0 ≡ some k
    → (p : GoCrypto.PublicKey c) → L.Drawn g p
    → is_new_peer c (some p) (c.public_key k) ≡ true
drawn_apart c L g k e p d = elim (Bool-cases (c.public_equal p (c.public_key k))) [
  | inl same ↦ absurd (L.generate_new g k e (subst (L.Drawn g) ((L.public_equal_iff _ _).0 same) d))
  | inr other ↦ rw other
]

same_peer :
    (c : GoCrypto) (L : GoCryptoLaws c) (p : GoCrypto.PublicKey c)
    → is_new_peer c (some p) p ≡ false
same_peer c L p = rw ((L.public_equal_iff p p).1 refl)

-- The receiver's half of an exchange: the message as the sender's call returned it.
receive :
    (c : GoCrypto)
    → (List ℕ → List ℕ)
    → Ratchet c
    → Result (List ℕ × List ℕ × ℕ) × (Ratchet c × GoCrypto.Rng c)
    → Result (List ℕ) × Ratchet c × Ratchet c × GoCrypto.Rng c
receive c aad to (ok (epub, sealed, _), (from, g)) =
    let (opened, (to', g')) = ratchet_decrypt c epub sealed (aad epub) 0 (to, g) in
    (opened, from, to', g')
receive c aad to (err e, (from, g)) = (err e, from, to, g)
receive c aad to (panic, (from, g)) = (panic, from, to, g)

-- A message `m` from the one ratchet to the other, with nothing else under way: what the receiver
-- makes of it, and both ratchets and the random source afterwards.
unfoldable pub exchange :
    (c : GoCrypto)
    → (List ℕ → List ℕ)
    → List ℕ
    → Ratchet c
    → Ratchet c
    → GoCrypto.Rng c
    → Result (List ℕ) × Ratchet c × Ratchet c × GoCrypto.Rng c
unfolding receive
exchange c aad m from to g = receive c aad to (ratchet_encrypt c m [] (some aad) (from, g))

-- One message on its way: the sender's call and the receiver's call both succeed, and the receiver
-- has what the sender wrote. The sealed bytes begin with the nonce.
pub record Delivery (c : GoCrypto) (aad : List ℕ → List ℕ) (m : List ℕ) (from to : Ratchet c)
    (g : GoCrypto.Rng c) (from' to' : Ratchet c) (g' : GoCrypto.Rng c) : Type 0 where
  pub epub : List ℕ
  pub sealed : List ℕ
  pub number : ℕ
  pub between : GoCrypto.Rng c
  pub sent :
      ratchet_encrypt c m [] (some aad) (from, g) ≡ (ok (epub, sealed, number), (from', between))
  pub opened : ratchet_decrypt c epub sealed (aad epub) 0 (to, between) ≡ (ok m, (to', g'))
  pub key_size : length epub ≡ 32
  pub sealed_size : length sealed ≡ 40 + length m

exchange_lem :
    (c : GoCrypto) (aad : List ℕ → List ℕ) (m : List ℕ) (a b : Ratchet c) (g : GoCrypto.Rng c)
    (a' b' : Ratchet c) (g' : GoCrypto.Rng c)
    → Delivery c aad m a b g a' b' g'
    → exchange c aad m a b g ≡ (ok m, a', b', g')
unfolding exchange
exchange_lem c aad m a b g a' b' g' d = rw (d.sent, d.opened)

-- The outcome of an exchange: `m` has arrived, and the two are in the given relation.
abbrev pub Arrives :
    (c : GoCrypto)
    → List ℕ
    → Result (List ℕ) × Ratchet c × Ratchet c × GoCrypto.Rng c
    → (Ratchet c → Ratchet c → GoCrypto.Rng c → Type 0)
    → Type 0
Arrives c m r P = (r.0 ≡ ok m) × P r.1 r.2 r.3

module _ (c : GoCrypto) (L : GoCryptoLaws c) (aad : List ℕ → List ℕ) (m : List ℕ) (a b : Ratchet c)
    (g : GoCrypto.Rng c) (h : Leads c a b) (k : Known c L a b g) where
  -- The one in the lead sends: the other opens the message, and now leads.
  pub leader-Delivery :
      (a' b' : Ratchet c) × (g' : GoCrypto.Rng c) × Delivery c aad m a b g a' b' g'
      × Leads c b' a'
      × Known c L b' a' g'
      × (length a'.cks ≡ 32)
  leader-Delivery =
      let (next, mk, e1, n1, m1) = derive_ratcheted_keys_lem c L a.cks h.chain_size in
      let (nonce, e2, l2) = nonce_lem c L g in
      let g1 = (c.rand_read nonce_size_x g).1 in
      let peer = c.public_key a.dhs_local in
      let epub = c.public_bytes peer in
      let (sealed, e3, d3, z3) = decrypt-encrypt c L mk nonce m (aad epub) m1 l2 in
      let (local, e4, e4') = generate_lem c L g1 in
      let g2 = (c.generate_key (rand_reader c) g1).1 in
      let (dh', e5, l5) = L.ecdh_total local a.dhs_local in
      let (rk', cks', e6, _, l6) = derive_root_step_lem c L a.rk dh' l5 in
      let step =
        dh_ratchet_step_lem c b g1 peer local h.secret dh' a.rk a.cks rk' cks' h.shared h.root e4 e5
          e6 in
      let b' = stepped c b g1 peer local rk' a.cks cks' in
      (
        record a { cks = next; ns = (a.ns + 1) % 2 ^ 32 },
        record b' { ckr = next; nr = (b'.nr + 1) % 2 ^ 32 },
        g2,
        record {
          epub = epub;
          sealed = nonce ++ sealed;
          number = a.ns;
          between = g1;
          sent =
              ratchet_encrypt_lem c a g m [] (some aad) next mk nonce sealed h.chain_size e1 e2 e3;
          opened =
              ratchet_decrypt_new c b g1 epub nonce sealed (aad epub) next mk m peer b' g2
                (L.new_public_key_bytes peer) h.unknown step l2 e1 d3;
          key_size = L.public_bytes_size peer;
          sealed_size = omega (arith, l2, z3, length-append nonce sealed);
        },
        record {
          peer = refl;
          unknown =
              rw h.peer (drawn_apart c L g1 local e4' _ (L.rand_keeps nonce_size_x g _ k.drawn_b));
          secret = dh';
          shared = L.ecdh_comm a.dhs_local local ∙ e5;
          root = e6;
          chain_size = l6;
          reply = refl;
        },
        record {
          drawn_a = L.generate_drawn g1 local e4';
          drawn_b = L.generate_keeps g1 _ (L.rand_keeps nonce_size_x g _ k.drawn_a);
        },
        n1,
      )

  -- The other one sends: the message is opened with no DH step, and the lead stays.
  pub follower-Delivery :
      length b.cks ≡ 32
      → (b' a' : Ratchet c) × (g' : GoCrypto.Rng c) × Delivery c aad m b a g b' a' g'
        × Leads c a' b'
        × Known c L a' b' g'
        × (length b'.cks ≡ 32)
  follower-Delivery size =
      let (next, mk, e1, n1, m1) = derive_ratcheted_keys_lem c L b.cks size in
      let (nonce, e2, l2) = nonce_lem c L g in
      let g1 = (c.rand_read nonce_size_x g).1 in
      let peer = c.public_key b.dhs_local in
      let epub = c.public_bytes peer in
      let (sealed, e3, d3, z3) = decrypt-encrypt c L mk nonce m (aad epub) m1 l2 in
      (
        record b { cks = next; ns = (b.ns + 1) % 2 ^ 32 },
        record a { ckr = next; nr = (a.nr + 1) % 2 ^ 32 },
        g1,
        record {
          epub = epub;
          sealed = nonce ++ sealed;
          number = b.ns;
          between = g1;
          sent = ratchet_encrypt_lem c b g m [] (some aad) next mk nonce sealed size e1 e2 e3;
          opened =
              ratchet_decrypt_known c a g1 epub nonce sealed (aad epub) next mk m peer
                (L.new_public_key_bytes peer) (rw h.peer (same_peer c L peer)) l2
                (rw (← h.reply) e1) d3;
          key_size = L.public_bytes_size peer;
          sealed_size = omega (arith, l2, z3, length-append nonce sealed);
        },
        record {
          peer = h.peer;
          unknown = h.unknown;
          secret = h.secret;
          shared = h.shared;
          root = h.root;
          chain_size = h.chain_size;
          reply = refl;
        },
        record {
          drawn_a = L.rand_keeps nonce_size_x g _ k.drawn_a;
          drawn_b = L.rand_keeps nonce_size_x g _ k.drawn_b;
        },
        n1,
      )

  pub leader-exchange :
      Arrives c m
        (exchange c aad m a b g)
        λ a' b' g'. Leads c b' a' × Known c L b' a' g' × (length a'.cks ≡ 32)
  leader-exchange =
      let (a', b', g', d, h', k', n) = leader-Delivery in
      rw (exchange_lem c aad m a b g a' b' g' d) (refl, (h', k', n))

  pub follower-exchange :
      length b.cks ≡ 32
      → Arrives c m
          (exchange c aad m b a g)
          λ b' a' g'. Leads c a' b' × Known c L a' b' g' × (length b'.cks ≡ 32)
  follower-exchange size =
      let (b', a', g', d, h', k', n) = follower-Delivery size in
      rw (exchange_lem c aad m b a g b' a' g' d) (refl, (h', k', n))
