-- ===== src/Base/Lists.antt =====
-- Lists measured and sliced by native numbers, and Go's `copy` into a slice of a buffer.
use Prim.Native.Nat.{ℕ, zero, suc, ◌+◌, ◌-◌, ◌≤◌, min}
use mathlib.Core.Path.{◌≡◌, refl, ap, ◌∙◌, sym}
use mathlib.Core.List.{List, [], ◌∷◌, ◌++◌, append_assoc}
use native.Mathlib.Omega.{arith}
use mathlib.Core.Bool.{true}
use pelagos.Base.Tests.{◌==◌}

module _ {ℓ} {A : Type ℓ} where
  abbrev pub length : List A → ℕ
  length [] = 0
  length (x ∷ xs) = suc (length xs)

  abbrev pub take : ℕ → List A → List A
  take zero xs = []
  take (suc n) [] = []
  take (suc n) (x ∷ xs) = x ∷ take n xs

  abbrev pub drop : ℕ → List A → List A
  drop zero xs = xs
  drop (suc n) [] = []
  drop (suc n) (x ∷ xs) = drop n xs

  abbrev pub replicate : ℕ → A → List A
  replicate zero a = []
  replicate (suc n) a = a ∷ replicate n a

  abbrev pub All {κ} : (A → Type κ) → List A → Type κ
  All P [] = Unit {κ}
  All P (x ∷ xs) = P x × All P xs

  pub All-append {κ} : (P : A → Type κ) (xs ys : List A) → All P xs → All P ys → All P (xs ++ ys)
  All-append P [] ys h k = k
  All-append P (x ∷ xs) ys (h, hs) k = (h, All-append P xs ys hs k)

  pub length-append : (xs ys : List A) → length (xs ++ ys) ≡ length xs + length ys
  length-append [] ys = omega arith
  length-append (x ∷ xs) ys = omega (arith, length-append xs ys)

module _ {ℓ} {A : Type ℓ} where
  pub length-take : (n : ℕ) (xs : List A) → length (take n xs) ≡ min n (length xs)
  length-take zero xs = omega arith
  length-take (suc n) [] = omega arith
  length-take (suc n) (x ∷ xs) = omega (arith, length-take n xs)

  pub length-drop : (n : ℕ) (xs : List A) → length (drop n xs) ≡ length xs - n
  length-drop zero xs = omega arith
  length-drop (suc n) [] = omega arith
  length-drop (suc n) (x ∷ xs) = omega (arith, length-drop n xs)

  pub length-replicate : (n : ℕ) (a : A) → length (replicate n a) ≡ n
  length-replicate zero a = refl
  length-replicate (suc n) a = ap suc (length-replicate n a)

  pub take-append-drop : (n : ℕ) (xs : List A) → take n xs ++ drop n xs ≡ xs
  take-append-drop zero xs = refl
  take-append-drop (suc n) [] = refl
  take-append-drop (suc n) (x ∷ xs) = ap (◌∷◌ x) (take-append-drop n xs)

  -- Cutting a concatenation at the seam.
  pub take-append : (xs ys : List A) (n : ℕ) → length xs ≡ n → take n (xs ++ ys) ≡ xs
  take-append [] ys zero h = refl
  take-append [] ys (suc n) h = absurd (omega arith)
  take-append (x ∷ xs) ys zero h = absurd (omega arith)
  take-append (x ∷ xs) ys (suc n) h = ap (◌∷◌ x) (take-append xs ys n (omega arith))

  pub drop-append : (xs ys : List A) (n : ℕ) → length xs ≡ n → drop n (xs ++ ys) ≡ ys
  drop-append [] ys zero h = refl
  drop-append [] ys (suc n) h = absurd (omega arith)
  drop-append (x ∷ xs) ys zero h = absurd (omega arith)
  drop-append (x ∷ xs) ys (suc n) h = drop-append xs ys n (omega arith)

  pub take_all : (xs : List A) (n : ℕ) → length xs ≡ n → take n xs ≡ xs
  take_all [] zero h = refl
  take_all [] (suc n) h = refl
  take_all (x ∷ xs) zero h = absurd (omega arith)
  take_all (x ∷ xs) (suc n) h = ap (◌∷◌ x) (take_all xs n (omega arith))

  drop_nil : (n : ℕ) → drop {A = A} n [] ≡ []
  drop_nil zero = refl
  drop_nil (suc n) = refl

  pub drop-drop : (m n : ℕ) (xs : List A) → drop n (drop m xs) ≡ drop (m + n) xs
  drop-drop zero n xs = ap (λ (k : ℕ). drop k xs) (omega arith)
  drop-drop (suc m) n [] = drop_nil n ∙ sym (drop_nil (suc m + n))
  drop-drop (suc m) n (x ∷ xs) =
      drop-drop m n xs ∙ ap (λ (k : ℕ). drop k (x ∷ xs)) {x = suc (m + n)} (omega arith)

  pub append_split :
      (a b c d : List A) → length a ≡ length c → (a ++ b) ≡ (c ++ d) → (a ≡ c) × (b ≡ d)
  append_split a b c d h e = (
    sym (take-append a b (length a) refl)
        ∙ ap (take (length a)) e
        ∙ take-append c d (length a) (omega arith),
    sym (drop-append a b (length a) refl)
        ∙ ap (drop (length a)) e
        ∙ drop-append c d (length a) (omega arith),
  )

-- `b[lo:hi]`, for `lo ≤ hi ≤ len(b)`.
module _ {ℓ} {A : Type ℓ} where
  abbrev pub slice : ℕ → ℕ → List A → List A
  slice lo hi b = take (hi - lo) (drop lo b)

  pub length-slice :
      (lo hi : ℕ) (b : List A) → lo ≤ hi → hi ≤ length b → length (slice lo hi b) ≡ hi - lo
  length-slice lo hi b h k = omega (arith, length-take (hi - lo) (drop lo b), length-drop lo b)

  -- A slice that starts behind the first part is a slice of the second.
  pub drop-append_behind :
      (xs ys : List A) (lo k : ℕ) → length xs ≡ k → k ≤ lo → drop lo (xs ++ ys) ≡ drop (lo - k) ys
  drop-append_behind xs ys lo k e h =
      ap (λ (n : ℕ). drop n (xs ++ ys)) {y = k + (lo - k)} (omega arith)
      ∙ sym (drop-drop k (lo - k) (xs ++ ys))
      ∙ ap (drop (lo - k)) (drop-append xs ys k e)

  pub slice-append_behind :
      (xs ys : List A) (lo hi k : ℕ)
      → length xs ≡ k
      → k ≤ lo
      → lo ≤ hi
      → slice lo hi (xs ++ ys) ≡ slice (lo - k) (hi - k) ys
  slice-append_behind xs ys lo hi k e h l =
      ap (take (hi - lo)) (drop-append_behind xs ys lo k e h)
      ∙ ap (λ (n : ℕ). take n (drop (lo - k) ys)) (omega arith)

  -- Two neighbouring slices make one.
  pub drop-slice : (lo hi : ℕ) (b : List A) → lo ≤ hi → slice lo hi b ++ drop hi b ≡ drop lo b
  drop-slice lo hi b h =
      ap (◌++◌ (slice lo hi b)) (
        ap (λ (n : ℕ). drop n b) {y = lo + (hi - lo)} (omega arith)
        ∙ sym (drop-drop lo (hi - lo) b))
      ∙ take-append-drop (hi - lo) (drop lo b)

-- Go's `copy(dst, src)`: the first elements of `dst` are overwritten, as many as both have.
module _ {ℓ} {A : Type ℓ} where
  abbrev pub overwrite : List A → List A → List A
  overwrite [] src = []
  overwrite (d ∷ dst) [] = d ∷ dst
  overwrite (d ∷ dst) (s ∷ src) = s ∷ overwrite dst src

  -- `copy(buf[lo:hi], src)`.
  unfoldable pub copy_at : List A → ℕ → ℕ → List A → List A
  copy_at buf lo hi src = take lo buf ++ (overwrite (slice lo hi buf) src ++ drop hi buf)

  pub overwrite_all : (dst src : List A) → length dst ≡ length src → overwrite dst src ≡ src
  overwrite_all [] [] h = refl
  overwrite_all [] (s ∷ src) h = absurd (omega arith)
  overwrite_all (d ∷ dst) [] h = absurd (omega arith)
  overwrite_all (d ∷ dst) (s ∷ src) h = ap (◌∷◌ s) (overwrite_all dst src (omega arith))

  pub length-overwrite : (dst src : List A) → length (overwrite dst src) ≡ length dst
  length-overwrite [] src = refl
  length-overwrite (d ∷ dst) [] = refl
  length-overwrite (d ∷ dst) (s ∷ src) = ap suc (length-overwrite dst src)

  -- Writing the next field of a buffer: what stands before it stays, and so does what stands behind.
  pub copy_at-next :
      (front old behind src : List A) (lo hi : ℕ)
      → length front ≡ lo
      → lo + length old ≡ hi
      → length src ≡ length old
      → copy_at (front ++ (old ++ behind)) lo hi src ≡ front ++ (src ++ behind)
  unfolding copy_at
  copy_at-next front old behind src lo hi f h s =
      let whole = front ++ (old ++ behind) in
      let tail : drop lo whole ≡ old ++ behind = drop-append front (old ++ behind) lo f in
      let cut : slice lo hi whole ≡ old =
        ap (take (hi - lo)) tail ∙ take-append old behind (hi - lo) (omega arith) in
      let rest : drop hi whole ≡ behind =
        drop-append_behind front (old ++ behind) hi lo f (omega arith)
        ∙ drop-append old behind (hi - lo) (omega arith) in
      rw (take-append front (old ++ behind) lo f, cut, rest, overwrite_all old src (sym s)) refl

-- Filling a zeroed buffer from the front: `front` is written, and `m` zeros are left.
pub record Filled (lo m : ℕ) (buf front : List ℕ) : Type 0 where
  pub contents : buf ≡ front ++ replicate m 0
  pub written : length front ≡ lo

replicate-append {ℓ} :
    {A : Type ℓ} (a : A) (k m : ℕ) → replicate (k + m) a ≡ replicate k a ++ replicate m a
replicate-append a zero m = ap (λ (n : ℕ). replicate n a) {x = 0 + m} (omega arith)
replicate-append a (suc k) m =
    ap (λ (n : ℕ). replicate n a) {x = suc k + m} {y = suc (k + m)} (omega arith)
    ∙ ap (◌∷◌ a) (replicate-append a k m)

pub Filled-start : (m : ℕ) → Filled 0 m (replicate m 0) []
Filled-start m = record { contents = refl; written = refl }

pub Filled-next :
    {lo m : ℕ} {buf front : List ℕ} (src : List ℕ) (hi rest : ℕ)
    → Filled lo m buf front
    → lo + length src ≡ hi
    → m ≡ length src + rest
    → Filled hi rest (copy_at buf lo hi src) (front ++ src)
Filled-next {lo} {m} {buf} {front} src hi rest g e l = record {
  contents =
      ap (λ (b : List ℕ). copy_at b lo hi src)
        (g.contents
          ∙ ap (λ (n : ℕ). front ++ replicate n 0) l
          ∙ ap (◌++◌ front) (replicate-append 0 (length src) rest))
      ∙ copy_at-next front (replicate (length src) 0) (replicate rest 0) src lo hi g.written
          (omega (arith, length-replicate {0} {A = ℕ} (length src) 0))
          (sym (length-replicate (length src) 0))
      ∙ sym (append_assoc front src (replicate rest 0));
  written = omega (arith, g.written, length-append front src);
}

-- The field between `front` and `behind`.
pub slice_field {ℓ} :
    {A : Type ℓ} (front src behind : List A) (lo hi : ℕ)
    → length front ≡ lo
    → lo + length src ≡ hi
    → slice lo hi (front ++ (src ++ behind)) ≡ src
slice_field front src behind lo hi f h =
    ap (take (hi - lo)) (drop-append front (src ++ behind) lo f)
    ∙ take-append src behind (hi - lo) (omega arith)

pub length-zero {ℓ} : {A : Type ℓ} (xs : List A) → (length xs == 0) ≡ true → xs ≡ []
length-zero [] h = refl
length-zero (x ∷ xs) h = absurd (ground arith)
