-- ===== src/Identity/Pairing/Sas.antt =====
-- The short authentication string of pairing.go: both sides compute the same one.
use pelagos.Base.{
  ℕ, ◌%◌, ◌≤◌, ◌≡◌, refl, List, [], ◌∷◌, ◌++◌, true, false, Bool-cases, inl, inr, ok, length, take,
  drop, arith, All, Option-cases,
}
use pelagos.Crypto.Library.{GoCrypto}
use pelagos.Identity.Pairing.{
  bytes_less, ordered_keys, generate_sas, six_digits, digest_value, sas_domain_info,
}

bytes_less-asymm : (xs ys : List ℕ) → bytes_less xs ys ≡ true → bytes_less ys xs ≡ false
unfolding bytes_less
bytes_less-asymm [] [] h = refl
bytes_less-asymm [] (y ∷ ys) h = refl
bytes_less-asymm (x ∷ xs) [] h = cc
bytes_less-asymm (x ∷ xs) (y ∷ ys) h = ground (arith, bytes_less-asymm xs ys)

-- The order is total: two keys that are not below one another are equal.
bytes_less-total : (xs ys : List ℕ) → bytes_less xs ys ≡ false → bytes_less ys xs ≡ false → xs ≡ ys
unfolding bytes_less
bytes_less-total [] [] h k = refl
bytes_less-total [] (y ∷ ys) h k = cc
bytes_less-total (x ∷ xs) [] h k = cc
bytes_less-total (x ∷ xs) (y ∷ ys) h k = ground (arith, bytes_less-total xs ys)

pub ordered_keys_comm : (a b : List ℕ) → ordered_keys a b ≡ ordered_keys b a
unfolding ordered_keys
ordered_keys_comm a b = elim (Bool-cases (bytes_less a b)) [
  | inl less ↦ rw (less, bytes_less-asymm a b less)
  | inr above ↦ elim (Bool-cases (bytes_less b a)) [
    | inl less ↦ rw (above, less)
    | inr same ↦ rw (bytes_less-total a b above same)
  ]
]

-- Whichever of the two keys is the local one, the code is the same.
pub generate_sas_comm :
    (c : GoCrypto) (key a b salt : List ℕ)
    → generate_sas c key a b salt ≡ generate_sas c key b a salt
unfolding generate_sas
generate_sas_comm c key a b salt = rw (ordered_keys_comm a b)

digits_shown : (n : ℕ) → All (λ d. (b'0' ≤ d) × (d ≤ b'9')) (six_digits n)
unfolding six_digits
digits_shown n = omega arith

-- Every code is six decimal digits with a dash in the middle.
generate_sas-shape :
    (c : GoCrypto) (key a b salt : List ℕ) {code : List ℕ}
    → generate_sas c key a b salt ≡ ok code
    → (x y : List ℕ) × (code ≡ x ++ (b'-' ∷ y))
      × (length x ≡ 3)
      × (length y ≡ 3)
      × All (λ d. (b'0' ≤ d) × (d ≤ b'9')) (x ++ y)
unfolding generate_sas six_digits
generate_sas-shape c key a b salt h =
    elim (Option-cases (c.hkdf_read (key ++ ordered_keys a b) salt sas_domain_info 4)) [
      | inl e ↦ cc (rw e at h)
      | inr (d, e) ↦
          let n : ℕ = digest_value d % 1000000 in
          (take 3 (six_digits n), drop 3 (six_digits n), cc (rw e at h), refl, refl, digits_shown n)
    ]
