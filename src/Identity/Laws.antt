-- ===== src/Identity/Laws.antt =====
-- What identity.go relies on of crypto/ed25519 and crypto/sha256.
use pelagos.Base.{ℕ, ◌≡◌, List, drop, length, true, some, ok, All}
use pelagos.Base.Bytes.{IsByte}
use pelagos.Crypto.Library.{GoCrypto}
use pelagos.Crypto.Random
use pelagos.Crypto.Random.{sign_message}
use pelagos.Identity.{Identity, PeerIdentity, sign, verify_signature}

-- A key pair as ed25519 generates it; a signature under it verifies, and has 64 bytes.
pub record SigningLaws (c : GoCrypto) : Type 1 where
  pub IsPair : List ℕ → List ℕ → Type 0
  pub generated_pair :
      (g : GoCrypto.Rng c) (pub_key priv : List ℕ)
      → (c.ed25519_generate g).0 ≡ some (pub_key, priv)
      → IsPair pub_key priv
  pub pair_sizes :
      (pub_key priv : List ℕ) → IsPair pub_key priv → (length pub_key ≡ 32) × (length priv ≡ 64)
  pub signature_size : (priv m : List ℕ) → length (c.ed25519_sign priv m) ≡ 64
  pub verify-sign :
      (pub_key priv m : List ℕ)
      → IsPair pub_key priv
      → c.ed25519_verify pub_key m (c.ed25519_sign priv m) ≡ true
  -- The keys are slices of bytes.
  pub generated_bytes :
      (g : GoCrypto.Rng c) (pub_key priv : List ℕ)
      → (c.ed25519_generate g).0 ≡ some (pub_key, priv)
      → All IsByte pub_key × All IsByte priv
  -- A private key ends in the public key.
  pub holds_public :
      (g : GoCrypto.Rng c) (pub_key priv : List ℕ)
      → (c.ed25519_generate g).0 ≡ some (pub_key, priv)
      → drop 32 priv ≡ pub_key
  pub digest_size : (b : List ℕ) → length (c.sha256 b) ≡ 32

module _ (c : GoCrypto) (S : SigningLaws c) (id : Identity)
    (k : S.IsPair id.public_key id.private_key) where
  -- Signing with a generated identity succeeds.
  pub sign_lem : (m : List ℕ) → sign c id m ≡ ok (c.ed25519_sign id.private_key m)
  unfolding sign sign_message
  sign_lem m = rw ((S.pair_sizes _ _ k).1)

  -- What an identity signs, its peer record verifies.
  pub verify-sign_lem :
      (p : PeerIdentity) (m : List ℕ)
      → p.public_key ≡ id.public_key
      → verify_signature c p m (c.ed25519_sign id.private_key m) ≡ true
  unfolding verify_signature Random.verify_signature
  verify-sign_lem p m e = rw (
    e,
    (S.pair_sizes _ _ k).0,
    S.signature_size id.private_key m,
    S.verify-sign id.public_key id.private_key m k,
  )
