-- ===== src/Crypto/Laws.antt =====
-- What the code relies on of the Go libraries, as a record of laws; each is the documented
-- behaviour of the call, with a random source that works and draws no key twice.
use pelagos.Base.{
  ℕ, ap, ◌∙◌, ◌+◌, ◌*◌, ◌<◌, ◌==◌, false, ◌≤◌, ◌≡◌, List, some, true, length, ◌↔◌, ok, arith, slice,
  overwrite_all, length-slice, sym, replicate, [], All, Option-cases, inl, inr,
}
use pelagos.Base.Bytes.{IsByte}
use pelagos.Crypto.Library.{GoCrypto}
use pelagos.Crypto.Random.{rand_reader, secure_random, generate_ecdh_key_pair}
use pelagos.Crypto.Keys.{
  hkdf_extract_expand, derive_ratcheted_keys, derive_root_step, create_aead, encrypt_aead,
  decrypt_aead, nonce_size_x, domain_root_key, domain_chain_key, domain_message_key,
}

pub record GoCryptoLaws (c : GoCrypto) : Type 1 where
  -- `Bytes` has 32 bytes, from which `NewPublicKey` makes the key again; `Equal` decides equality.
  pub public_bytes_size : (k : GoCrypto.PublicKey c) → length (c.public_bytes k) ≡ 32
  pub new_public_key_bytes :
      (k : GoCrypto.PublicKey c) → c.new_public_key (c.public_bytes k) ≡ some k
  pub public_equal_iff : (k l : GoCrypto.PublicKey c) → (c.public_equal k l ≡ true) ↔ (k ≡ l)
  -- X25519 with the public key of a private key gives 32 bytes, the same ones from both sides.
  pub ecdh_total :
      (a b : GoCrypto.PrivateKey c)
      → (s : List ℕ) × (c.ecdh a (c.public_key b) ≡ some s) × (length s ≡ 32)
  pub ecdh_comm :
      (a b : GoCrypto.PrivateKey c) → c.ecdh a (c.public_key b) ≡ c.ecdh b (c.public_key a)
  -- HKDF-SHA256 yields up to 255 blocks of 32 bytes.
  pub hkdf_total :
      (secret salt info : List ℕ) (n : ℕ)
      → n ≤ 255 * 32
      → (key : List ℕ) × (c.hkdf_read secret salt info n ≡ some key) × (length key ≡ n)
  -- A key of 32 bytes makes an AEAD of either kind, and `Open` undoes `Seal` under a nonce of the
  -- size that goes with the kind.
  pub new_x_total :
      (key : List ℕ) → length key ≡ 32 → (a : GoCrypto.Aead c) × (c.new_x key ≡ some a)
  pub new_aead_total :
      (key : List ℕ) → length key ≡ 32 → (a : GoCrypto.Aead c) × (c.new_aead key ≡ some a)
  pub open-seal_x :
      (key : List ℕ) (a : GoCrypto.Aead c) (nonce m ad : List ℕ)
      → c.new_x key ≡ some a
      → length nonce ≡ 24
      → c.open_sealed a nonce (c.seal a nonce m ad) ad ≡ some m
  pub open-seal :
      (key : List ℕ) (a : GoCrypto.Aead c) (nonce m ad : List ℕ)
      → c.new_aead key ≡ some a
      → length nonce ≡ 12
      → c.open_sealed a nonce (c.seal a nonce m ad) ad ≡ some m
  -- The tag has 16 bytes.
  pub seal_size :
      (a : GoCrypto.Aead c) (nonce m ad : List ℕ) → length (c.seal a nonce m ad) ≡ 16 + length m
  -- The tag and the ciphertext are bytes, and so is what the random source yields.
  pub seal_bytes :
      (a : GoCrypto.Aead c) (nonce m ad : List ℕ) → All IsByte m → All IsByte (c.seal a nonce m ad)
  pub rand_bytes :
      (n : ℕ) (g : GoCrypto.Rng c) (b : List ℕ) → (c.rand_read n g).0 ≡ some b → All IsByte b
  -- The random source works, and so does key generation from it.
  pub rand_total :
      (n : ℕ) (g : GoCrypto.Rng c) → (b : List ℕ) × ((c.rand_read n g).0 ≡ some b) × (length b ≡ n)
  pub generate_total :
      (g : GoCrypto.Rng c)
      → (k : GoCrypto.PrivateKey c) × ((c.generate_key (rand_reader c) g).0 ≡ some k)
  -- The keys drawn before a state of the source: a new one is none of them.
  pub Drawn : GoCrypto.Rng c → GoCrypto.PublicKey c → Type 0
  pub generate_new :
      (g : GoCrypto.Rng c) (k : GoCrypto.PrivateKey c)
      → (c.generate_key (rand_reader c) g).0 ≡ some k
      → ¬ Drawn g (c.public_key k)
  pub generate_drawn :
      (g : GoCrypto.Rng c) (k : GoCrypto.PrivateKey c)
      → (c.generate_key (rand_reader c) g).0 ≡ some k
      → Drawn (c.generate_key (rand_reader c) g).1 (c.public_key k)
  pub generate_keeps :
      (g : GoCrypto.Rng c) (p : GoCrypto.PublicKey c)
      → Drawn g p
      → Drawn (c.generate_key (rand_reader c) g).1 p
  pub rand_keeps :
      (n : ℕ) (g : GoCrypto.Rng c) (p : GoCrypto.PublicKey c)
      → Drawn g p
      → Drawn (c.rand_read n g).1 p

module _ (c : GoCrypto) (L : GoCryptoLaws c) where
  pub generate_lem :
      (g : GoCrypto.Rng c)
      → (k : GoCrypto.PrivateKey c) × (generate_ecdh_key_pair c g
          ≡ (ok (k, c.public_key k), (c.generate_key (rand_reader c) g).1))
        × ((c.generate_key (rand_reader c) g).0 ≡ some k)
  unfolding generate_ecdh_key_pair
  generate_lem g = let (k, e) = L.generate_total g in (k, rw e, e)

  pub nonce_lem :
      (g : GoCrypto.Rng c)
      → (nonce : List ℕ) × (secure_random c nonce_size_x g
          ≡ (ok nonce, (c.rand_read nonce_size_x g).1))
        × (length nonce ≡ 24)
  unfolding secure_random
  nonce_lem g = let (b, e, l) = L.rand_total 24 g in (b, rw e, l)

  pub hkdf_lem :
      (secret salt info : List ℕ) (n : ℕ)
      → length secret ≡ 32
      → n ≤ 255 * 32
      → (key : List ℕ) × (hkdf_extract_expand c secret salt info n ≡ ok key) × (length key ≡ n)
  unfolding hkdf_extract_expand
  hkdf_lem secret salt info n h l =
      let (key, e, k) = L.hkdf_total secret salt info n l in (key, rw (h, e), k)

  chain_step :
      (ck next mk : List ℕ)
      → length ck ≡ 32
      → hkdf_extract_expand c ck [] domain_chain_key 32 ≡ ok next
      → hkdf_extract_expand c ck [] domain_message_key 32 ≡ ok mk
      → derive_ratcheted_keys c ck ≡ ok (next, mk)
  unfolding derive_ratcheted_keys
  chain_step ck next mk h e f = rw (h, e, f)

  -- A chain step on a chain key of 32 bytes yields two keys of 32 bytes.
  pub derive_ratcheted_keys_lem :
      (ck : List ℕ)
      → length ck ≡ 32
      → (next mk : List ℕ) × (derive_ratcheted_keys c ck ≡ ok (next, mk))
        × (length next ≡ 32)
        × (length mk ≡ 32)
  derive_ratcheted_keys_lem ck h =
      let (next, e, l) = hkdf_lem ck [] domain_chain_key 32 h (omega arith) in
      let (mk, f, m) = hkdf_lem ck [] domain_message_key 32 h (omega arith) in
      (next, mk, chain_step ck next mk h e f, l, m)

  pub derive_root_step_lem :
      (rk dh : List ℕ)
      → length dh ≡ 32
      → (next ck : List ℕ) × (derive_root_step c rk dh ≡ ok (next, ck))
        × (length next ≡ 32)
        × (length ck ≡ 32)
  unfolding derive_root_step
  derive_root_step_lem rk dh h =
      let (d, e, l) = hkdf_lem dh rk domain_root_key 64 h (omega arith) in
      (
        slice 0 32 d,
        slice 32 64 d,
        rw (
          e,
          overwrite_all (replicate 32 0) (slice 0 32 d)
              (sym (length-slice 0 32 d (omega arith) (omega arith))),
          overwrite_all (replicate 32 0) (slice 32 64 d)
              (sym (length-slice 32 64 d (omega arith) (omega arith))),
        ),
        length-slice 0 32 d (omega arith) (omega arith),
        length-slice 32 64 d (omega arith) (omega arith),
      )

  -- What is sealed under a key of 32 bytes opens under it.
  pub decrypt-encrypt :
      (key nonce m ad : List ℕ)
      → length key ≡ 32
      → length nonce ≡ 24
      → (sealed : List ℕ) × (encrypt_aead c key nonce m ad ≡ ok sealed)
        × (decrypt_aead c key nonce sealed ad ≡ ok m)
        × (length sealed ≡ 16 + length m)
  unfolding encrypt_aead decrypt_aead create_aead
  decrypt-encrypt key nonce m ad h l =
      let (a, e) = L.new_x_total key h in
      (
        c.seal a nonce m ad,
        rw (h, l, e),
        rw (h, l, e, L.open-seal_x key a nonce m ad e l),
        L.seal_size a nonce m ad,
      )

  -- The same under a nonce of 12 bytes.
  pub decrypt-encrypt_short :
      (key nonce m ad : List ℕ)
      → length key ≡ 32
      → length nonce ≡ 12
      → (sealed : List ℕ) × (encrypt_aead c key nonce m ad ≡ ok sealed)
        × (decrypt_aead c key nonce sealed ad ≡ ok m)
        × (All IsByte m → All IsByte sealed)
  unfolding encrypt_aead decrypt_aead create_aead
  decrypt-encrypt_short key nonce m ad h l =
      let (a, e) = L.new_aead_total key h in
      (
        c.seal a nonce m ad,
        rw (h, l, e),
        rw (h, l, e, L.open-seal key a nonce m ad e l),
        L.seal_bytes a nonce m ad,
      )

  pub random_lem :
      (n : ℕ) (g : GoCrypto.Rng c)
      → 0 < n
      → (b : List ℕ) × (secure_random c n g ≡ (ok b, (c.rand_read n g).1)) × (length b ≡ n)
  unfolding secure_random
  random_lem n g h =
      let (b, e, l) = L.rand_total n g in
      let positive : (n == 0) ≡ false = ground arith in (b, rw (positive, e), l)

  pub random_bytes :
      (n : ℕ) (g : GoCrypto.Rng c) (b : List ℕ)
      → 0 < n
      → (secure_random c n g).0 ≡ ok b
      → All IsByte b
  unfolding secure_random
  random_bytes n g b h e =
      let positive : (n == 0) ≡ false = ground arith in
      elim (Option-cases (c.rand_read n g).0) [
        | inl failed ↦ cc (rw (positive, failed) at e)
        | inr (d, read) ↦ L.rand_bytes n g b (read ∙ ap some (cc (rw (positive, read) at e)))
      ]
