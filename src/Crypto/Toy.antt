-- ===== src/Crypto/Toy.antt =====
-- Concrete functions in place of the Go libraries, which meet the laws. They are no cryptography:
-- they serve to run the model.
use pelagos.Base.{
  ℕ, zero, suc, ◌%◌, All, All-append, subst, ◌+◌, ◌*◌, ◌<◌, ◌≡◌, refl, ap, List, [], ◌∷◌, ◌++◌,
  drop, Option, none, some, Bool, false, length, replicate, length-replicate, ◌==◌, ==_iff, ==_refl,
  if◌then◌else◌, arith,
}
use native.Mathlib.Nat.{mul_comm}
use pelagos.Base.Bytes.{IsByte}
use pelagos.Crypto.Library.{GoCrypto}
use pelagos.Crypto.Laws.{GoCryptoLaws}

abbrev pub sum : List ℕ → ℕ
sum [] = 0
sum (x ∷ xs) = x + sum xs

abbrev first : List ℕ → Option ℕ
first [] = none
first (x ∷ xs) = some x

abbrev open_tagged : ℕ → List ℕ → Option (List ℕ)
open_tagged tag [] = none
open_tagged tag (t ∷ m) = if t == tag then some (drop 15 m) else none

abbrev verify_tagged : ℕ → List ℕ → Bool
verify_tagged tag [] = false
verify_tagged tag (t ∷ _) = t == tag

-- Keys are numbers, and the random source is the next of them.
abbrev pub toy : GoCrypto
toy = record {
  Rng = ℕ;
  PrivateKey = ℕ;
  PublicKey = ℕ;
  Aead = List ℕ;
  rand_read = λ n g. (some (replicate n (g % 256)), g);
  generate_key = λ _ g. (some g, suc g);
  public_key = λ k. k;
  public_bytes = λ k. k ∷ replicate 31 0;
  new_public_key = first;
  public_equal = ◌==◌;
  ecdh = λ a p. some (a * p ∷ replicate 31 0);
  hkdf_read = λ secret salt info n. some (replicate n (sum secret + sum salt + length info));
  new_x = λ key. some key;
  new_aead = λ key. some key;
  seal = λ key nonce m ad. ((sum key + sum nonce + sum ad) % 256) ∷ (replicate 15 0 ++ m);
  open_sealed = λ key nonce sealed ad. open_tagged ((sum key + sum nonce + sum ad) % 256) sealed;
  ed25519_generate = λ g. (some (replicate 32 2, replicate 32 0 ++ replicate 32 2), g);
  ed25519_sign = λ priv m. replicate 64 (sum priv + sum m);
  ed25519_verify = λ pub_key m s. verify_tagged (sum pub_key + sum m) s;
  sha256 = λ b. replicate 32 (sum b);
}

pub toy_ecdh_comm : (a b : ℕ) → toy.ecdh a b ≡ toy.ecdh b a
toy_ecdh_comm a b = ap (λ (s : ℕ). some (s ∷ replicate 31 0)) (mul_comm a b)

pub toy_open-seal :
    (key nonce m ad : List ℕ) → toy.open_sealed key nonce (toy.seal key nonce m ad) ad ≡ some m
toy_open-seal key nonce m ad = rw (==_refl ((sum key + sum nonce + sum ad) % 256))

pub toy_seal_size : (key nonce m ad : List ℕ) → length (toy.seal key nonce m ad) ≡ 16 + length m
toy_seal_size key nonce m ad = omega arith

pub toy_seal_bytes : (key nonce m ad : List ℕ) → All IsByte m → All IsByte (toy.seal key nonce m ad)
toy_seal_bytes key nonce m ad h =
    (omega arith, All-append IsByte (replicate 15 0) m (omega arith) h)

replicate-bytes : (n b : ℕ) → b < 256 → All IsByte (replicate n b)
replicate-bytes zero b h = tt
replicate-bytes (suc n) b h = (h, replicate-bytes n b h)

pub toy_rand_bytes : (n g : ℕ) (b : List ℕ) → (toy.rand_read n g).0 ≡ some b → All IsByte b
toy_rand_bytes n g b e = subst (All IsByte) (cc e) (replicate-bytes n (g % 256) (omega arith))

pub toy_new : (g k : ℕ) → ◌≡◌ {A = Option ℕ} (some g) (some k) → ¬ (k < g)
toy_new g k e h = ground arith

pub toy_drawn : (g k : ℕ) → ◌≡◌ {A = Option ℕ} (some g) (some k) → k < suc g
toy_drawn g k e = ground arith

pub toy_keeps : (g p : ℕ) → p < g → p < suc g
toy_keeps g p h = omega arith

abbrev pub toy_laws : GoCryptoLaws toy
toy_laws = record {
  public_bytes_size = λ k. refl;
  new_public_key_bytes = λ k. refl;
  public_equal_iff = ==_iff;
  ecdh_total = λ a b. (a * b ∷ replicate 31 0, refl, refl);
  ecdh_comm = toy_ecdh_comm;
  hkdf_total = λ secret salt info n h.
      (replicate n (sum secret + sum salt + length info), refl, length-replicate n _);
  new_x_total = λ key h. (key, refl);
  new_aead_total = λ key h. (key, refl);
  open-seal_x = λ key a nonce m ad e h. toy_open-seal a nonce m ad;
  open-seal = λ key a nonce m ad e h. toy_open-seal a nonce m ad;
  seal_size = toy_seal_size;
  seal_bytes = toy_seal_bytes;
  rand_bytes = toy_rand_bytes;
  rand_total = λ n g. (replicate n (g % 256), refl, length-replicate n (g % 256));
  generate_total = λ g. (g, refl);
  Drawn = λ g p. p < g;
  generate_new = toy_new;
  generate_drawn = toy_drawn;
  generate_keeps = toy_keeps;
  rand_keeps = λ n g p h. h;
}
