-- ===== src/Identity/Pairing/Agreement.antt =====
-- A pairing of pairing.go from end to end: what one device offers, the other opens under the PIN.
use pelagos.Base.{
  ℕ, ap, Result, All, All-append, ◌%◌, ◌≤◌, ◌≡◌, sym, List, ◌∷◌, ◌++◌, some, ok, length, take, drop,
  take-append, drop-append, overwrite_all, replicate, le→ltb, length-append, arith,
}
use pelagos.Base.Bytes.{IsByte}
use pelagos.Crypto.Library.{GoCrypto}
use pelagos.Crypto.Keys.{decrypt_aead}
use pelagos.Crypto.Laws.{GoCryptoLaws, random_lem, random_bytes, decrypt-encrypt_short}
use pelagos.Identity.{Identity, new_peer_identity}
use pelagos.Identity.Pairing.{
  PairingPayload, marshal_payload, create_pairing_payload, open_pairing_payload, payload_sas,
  derive_pairing_key, generate_sas, pairing_domain_info, sas_domain_info, ordered_keys, six_digits,
  digest_value,
}
use pelagos.Identity.Pairing.Codec.{IsPayload}
use pelagos.Identity.Pairing.Sas.{generate_sas_comm}

module _ (c : GoCrypto) (L : GoCryptoLaws c) where
  derived :
      (pin salt : List ℕ)
      → (key : List ℕ) × (derive_pairing_key c pin salt ≡ ok key) × (length key ≡ 32)
  unfolding derive_pairing_key
  derived pin salt =
      let (key, e, l) = L.hkdf_total pin salt pairing_domain_info 32 (omega arith) in (key, rw e, l)

  sas_total : (key a b salt : List ℕ) → (code : List ℕ) × (generate_sas c key a b salt ≡ ok code)
  unfolding generate_sas
  sas_total key a b salt =
      let (d, e, _) = L.hkdf_total (key ++ ordered_keys a b) salt sas_domain_info 4 (omega arith) in
      let shown = six_digits (digest_value d % 1000000) in
      (take 3 shown ++ (b'-' ∷ drop 3 shown), rw e)

  -- The opener's side, from the key and the ciphertext.
  opened :
      (bob : Identity) (pin owner alias salt nonce key sealed code : List ℕ)
      → length owner ≡ 32
      → derive_pairing_key c pin salt ≡ ok key
      → decrypt_aead c key nonce sealed salt ≡ ok (owner ++ alias)
      → generate_sas c key bob.public_key owner salt ≡ ok code
      → open_pairing_payload c
          (some (record { salt = salt; nonce = nonce; ciphertext = sealed }))
          bob
          pin
        ≡ ok (record { public_key = owner; alias = alias }, code)
  unfolding open_pairing_payload new_peer_identity
  opened bob pin owner alias salt nonce key sealed code size e d s = rw (
    e,
    d,
    le→ltb (length (owner ++ alias)) 32 (omega (arith, length-append owner alias)),
    take-append owner alias 32 size,
    drop-append owner alias 32 size,
    size,
    overwrite_all (replicate 32 0) owner (sym size),
    s,
  )

  module _ (alice bob : Identity) (alias pin : List ℕ) (g : GoCrypto.Rng c)
      (size : length alice.public_key ≡ 32) (long : 4 ≤ length pin) where
    -- The offer, the opener's view of it, and the code of the offerer.
    pub record Offered : Type 0 where
      pub payload : PairingPayload
      pub rng : GoCrypto.Rng c
      pub code : List ℕ
      pub created : create_pairing_payload c alice alias pin g ≡ (ok payload, rng)
      pub opens :
          open_pairing_payload c (some payload) bob pin
          ≡ ok (record { public_key = alice.public_key; alias = alias }, code)
      pub agrees : payload_sas c payload alice bob.public_key pin ≡ ok code
      pub payload_valid : IsPayload payload
      pub payload_bytes :
          All IsByte alice.public_key → All IsByte alias → All IsByte (marshal_payload payload)

    pub offered : Offered
    unfolding create_pairing_payload payload_sas marshal_payload
    offered =
        let (salt, e1, l1) = random_lem c L 16 g (omega arith) in
        let g1 = (c.rand_read 16 g).1 in
        let (nonce, e2, l2) = random_lem c L 12 g1 (omega arith) in
        let (key, e3, l3) = derived pin salt in
        let (sealed, e4, d4, b4) =
          decrypt-encrypt_short c L key nonce (alice.public_key ++ alias) salt l3 l2 in
        let (code, e5) = sas_total key bob.public_key alice.public_key salt in
        let same = generate_sas_comm c key alice.public_key bob.public_key salt in
        let salt_bytes =
          random_bytes c L 16 g salt (omega arith)
            (ap (λ (r : Result (List ℕ) × GoCrypto.Rng c). r.0) e1) in
        let nonce_bytes =
          random_bytes c L 12 g1 nonce (omega arith)
            (ap (λ (r : Result (List ℕ) × GoCrypto.Rng c). r.0) e2) in
        record {
          payload = record { salt = salt; nonce = nonce; ciphertext = sealed };
          rng = (c.rand_read 12 g1).1;
          code = code;
          created = rw (
            le→ltb (length pin) 4 long,
            e1,
            e2,
            e3,
            e4,
            overwrite_all (replicate 16 0) salt (sym l1),
            overwrite_all (replicate 12 0) nonce (sym l2),
          );
          opens = opened bob pin alice.public_key alias salt nonce key sealed code size e3 d4 e5;
          agrees = rw (e3, same, e5);
          payload_valid = record { salt_size = l1; nonce_size = l2 };
          payload_bytes = λ hk ha. All-append IsByte salt (nonce ++ sealed) salt_bytes (
              All-append IsByte nonce sealed nonce_bytes
                (b4 (All-append IsByte alice.public_key alias hk ha)));
        }

    -- With a working random source a device can make an offer under a PIN of at least four
    -- characters. Another device that opens it under the same PIN gets the offerer's public key and
    -- alias, and its code is the one that the offerer computes from the opener's public key.
    pub pairing_agrees :
        (p : PairingPayload) × (g' : GoCrypto.Rng c) × (code : List ℕ) × (create_pairing_payload c
            alice alias pin g
          ≡ (ok p, g'))
        × (open_pairing_payload c (some p) bob pin
            ≡ ok (record { public_key = alice.public_key; alias = alias }, code))
        × (payload_sas c p alice bob.public_key pin ≡ ok code)
    pairing_agrees = let o = offered in (o.payload, o.rng, o.code, o.created, o.opens, o.agrees)
