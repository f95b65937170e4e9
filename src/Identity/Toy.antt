-- ===== src/Identity/Toy.antt =====
-- The signing laws hold of the concrete functions of Crypto/Toy.
use pelagos.Base.{
  ℕ, ◌+◌, ◌≡◌, refl, List, ◌++◌, drop, length, replicate, some, ==_iff, true, arith, All,
}
use pelagos.Base.Bytes.{IsByte}
use pelagos.Crypto.Toy.{toy, sum}
use pelagos.Identity.{Identity, PeerIdentity}
use pelagos.Identity.Laws.{SigningLaws}

-- The two keys have their sizes and the same sum.
abbrev pub ToyPair : List ℕ → List ℕ → Type 0
ToyPair pub_key priv = (length pub_key ≡ 32) × (length priv ≡ 64) × (sum pub_key ≡ sum priv)

pub toy_verifies :
    (pub_key priv m : List ℕ)
    → ToyPair pub_key priv
    → toy.ed25519_verify pub_key m (toy.ed25519_sign priv m) ≡ true
toy_verifies pub_key priv m h =
    (==_iff (sum priv + sum m) (sum pub_key + sum m)).1 (omega (arith, h.2))

pub toy_generated :
    (g : ℕ) (pub_key priv : List ℕ)
    → (toy.ed25519_generate g).0 ≡ some (pub_key, priv)
    → ToyPair pub_key priv
toy_generated g pub_key priv e = rw (← p, ← q) (refl, refl, refl)
  where
    p : replicate 32 2 ≡ pub_key
    p = cc e

    q : replicate 32 0 ++ replicate 32 2 ≡ priv
    q = cc e

pub toy_holds_public :
    (g : ℕ) (pub_key priv : List ℕ)
    → (toy.ed25519_generate g).0 ≡ some (pub_key, priv)
    → drop 32 priv ≡ pub_key
toy_holds_public g pub_key priv e = rw (← p, ← q) refl
  where
    p : replicate 32 2 ≡ pub_key
    p = cc e

    q : replicate 32 0 ++ replicate 32 2 ≡ priv
    q = cc e

pub toy_generated_bytes :
    (g : ℕ) (pub_key priv : List ℕ)
    → (toy.ed25519_generate g).0 ≡ some (pub_key, priv)
    → All IsByte pub_key × All IsByte priv
toy_generated_bytes g pub_key priv e = rw (← p, ← q) (omega arith)
  where
    p : replicate 32 2 ≡ pub_key
    p = cc e

    q : replicate 32 0 ++ replicate 32 2 ≡ priv
    q = cc e

abbrev pub toy_signing : SigningLaws toy
toy_signing = record {
  IsPair = ToyPair;
  generated_pair = toy_generated;
  pair_sizes = λ pub_key priv h. (h.0, h.1);
  signature_size = λ priv m. refl;
  verify-sign = toy_verifies;
  digest_size = λ b. refl;
  holds_public = toy_holds_public;
  generated_bytes = toy_generated_bytes;
}

abbrev pub alice : Identity
alice = record { public_key = replicate 32 2; private_key = replicate 32 0 ++ replicate 32 2 }

abbrev pub bob : Identity
bob = record { public_key = replicate 32 4; private_key = replicate 32 0 ++ replicate 32 4 }

abbrev pub of_alice : PeerIdentity
of_alice = record { public_key = replicate 32 2; alias = replicate 3 97 }

abbrev pub of_bob : PeerIdentity
of_bob = record { public_key = replicate 32 4; alias = replicate 3 98 }
