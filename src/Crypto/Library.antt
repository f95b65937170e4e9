-- ===== src/Crypto/Library.antt =====
-- The calls of pkg/crypto into crypto/rand, crypto/ecdh, crypto/ed25519, crypto/sha256 and
-- golang.org/x/crypto. They are no part of the repository, so they are parameters.
use pelagos.Base.{ℕ, List, Option, Bool}

pub record GoCrypto : Type 1 where
  -- The state of the system's random source, and the types of crypto/ecdh and of an AEAD.
  pub Rng : Type 0
  pub PrivateKey : Type 0
  pub PublicKey : Type 0
  pub Aead : Type 0
  -- `rand.Read(b)` for a slice of `n` bytes; `none` is an error.
  pub rand_read : ℕ → Rng → Option (List ℕ) × Rng
  -- `ecdh.X25519().GenerateKey(reader)`.
  pub generate_key : (ℕ → Rng → Option (List ℕ) × Rng) → Rng → Option PrivateKey × Rng
  pub public_key : PrivateKey → PublicKey
  pub public_bytes : PublicKey → List ℕ
  -- `ecdh.X25519().NewPublicKey(b)`, `PublicKey.Equal` and `PrivateKey.ECDH`.
  pub new_public_key : List ℕ → Option PublicKey
  pub public_equal : PublicKey → PublicKey → Bool
  pub ecdh : PrivateKey → PublicKey → Option (List ℕ)
  -- `io.ReadFull(hkdf.New(sha256.New, secret, salt, info), make([]byte, length))`.
  pub hkdf_read : List ℕ → List ℕ → List ℕ → ℕ → Option (List ℕ)
  -- `chacha20poly1305.NewX`, `chacha20poly1305.New`, `Seal` and `Open`.
  pub new_x : List ℕ → Option Aead
  pub new_aead : List ℕ → Option Aead
  pub seal : Aead → List ℕ → List ℕ → List ℕ → List ℕ
  pub open_sealed : Aead → List ℕ → List ℕ → List ℕ → Option (List ℕ)
  -- `ed25519.GenerateKey(nil)` (the public key, then the private one), `Sign` and `Verify`.
  pub ed25519_generate : Rng → Option (List ℕ × List ℕ) × Rng
  pub ed25519_sign : List ℕ → List ℕ → List ℕ
  pub ed25519_verify : List ℕ → List ℕ → List ℕ → Bool
  pub sha256 : List ℕ → List ℕ
