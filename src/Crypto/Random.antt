-- ===== src/Crypto/Random.antt =====
-- rand.go, ecdh.go and signature.go of pkg/crypto.
use pelagos.Base.{
  ℕ, List, [], ◌∷◌, Bool, false, Option, none, some, Result, Error, ok, err, panic, length, ◌==◌,
  if◌then◌else◌, or_fail, not, ◌||◌,
}
use pelagos.Base.State.{Act, ◌>>=◌, pure}
use pelagos.Crypto.Library.{GoCrypto}

abbrev pub ed25519_public_key_size : ℕ
ed25519_public_key_size = 32

abbrev pub ed25519_private_key_size : ℕ
ed25519_private_key_size = 64

abbrev pub ed25519_signature_size : ℕ
ed25519_signature_size = 64

-- The loop overwrites each byte.
unfoldable pub zeroize : List ℕ → List ℕ
zeroize [] = []
zeroize (x ∷ b) = 0 ∷ zeroize b

-- A library call on the random source, with the error that is made of its failure.
abbrev pub drawn : {S A : Type 0} → (S → Option A × S) → Error → Act S A
drawn f e g = (or_fail (f g).0 e, (f g).1)

-- The other way round: a `Read` that reports an error.
abbrev pub as_read : {S A : Type 0} → Result A × S → Option A × S
as_read (ok a, g) = (some a, g)
as_read (err e, g) = (none, g)
as_read (panic, g) = (none, g)

module _ (c : GoCrypto) where
  open c use {
    Rng, PrivateKey, PublicKey, rand_read, generate_key, public_key, ecdh, ed25519_generate,
    ed25519_sign, ed25519_verify,
  }

  unfoldable pub secure_random : ℕ → Act Rng (List ℕ)
  secure_random n g =
      if n == 0
      then (err Error.nonpositive_count, g)
      else drawn (rand_read n) Error.entropy_failure g

  -- `cryptoRandReader.Read`, on a slice of `n` bytes.
  unfoldable pub rand_reader : ℕ → Rng → Option (List ℕ) × Rng
  rand_reader n g = as_read (secure_random n g)

  unfoldable pub generate_ecdh_key_pair : Act Rng (PrivateKey × PublicKey)
  generate_ecdh_key_pair = do
    priv ← drawn (generate_key rand_reader) Error.ecdh_generate
    pure (priv, public_key priv)

  -- A pointer that may be nil is an option.
  unfoldable pub compute_ecdh_shared_secret : Option PrivateKey → Option PublicKey → Result (List ℕ)
  compute_ecdh_shared_secret none peer = err Error.ecdh_nil
  compute_ecdh_shared_secret (some priv) none = err Error.ecdh_nil
  compute_ecdh_shared_secret (some priv) (some peer) = or_fail (ecdh priv peer) Error.ecdh_scalar

  unfoldable pub generate_ed25519_key_pair : Act Rng (List ℕ × List ℕ)
  generate_ed25519_key_pair = drawn ed25519_generate Error.entropy_failure

  unfoldable pub sign_message : List ℕ → List ℕ → Result (List ℕ)
  sign_message priv message =
      if length priv == ed25519_private_key_size
      then ok (ed25519_sign priv message)
      else err Error.signing_key_size

  unfoldable pub verify_signature : List ℕ → List ℕ → List ℕ → Bool
  verify_signature pub_key message signature =
      if not (length pub_key == ed25519_public_key_size)
        || not (length signature == ed25519_signature_size)
      then false
      else ed25519_verify pub_key message signature
