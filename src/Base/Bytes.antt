-- ===== src/Base/Bytes.antt =====
-- Bytes, and the big-endian integers of Go's encoding/binary.
use Prim.Native.Nat.{ℕ, zero, suc, ◌+◌, ◌*◌, ◌/◌, ◌%◌, ◌^◌, ◌<◌}
use mathlib.Core.Path.{◌≡◌, refl, ap, ap₂, sym, ◌∙◌}
use mathlib.Core.List.{List, [], ◌∷◌}
use native.Mathlib.Omega.{arith}
use native.Mathlib.Nat.{pow-suc, mod-eq_of_lt, div-add-mod, add-mul-div_right, div-eq_of_lt}
use native.Mathlib.Nat.{div-div-eq-div-mul, mod-eq-sub-mul-div}
use pelagos.Base.Lists.{length, All}

abbrev pub IsByte : ℕ → Type 0
IsByte b = b < 256

abbrev pub IsBytes : ℕ → List ℕ → Type 0
IsBytes n bs = (length bs ≡ n) × All IsByte bs

-- `binary.BigEndian.PutUint16`, `32` and `64` are `put_be` at 2, 4 and 8.
unfoldable pub put_be : ℕ → ℕ → List ℕ
put_be zero v = []
put_be (suc k) v = (v / 256 ^ k % 256) ∷ put_be k v

-- `binary.BigEndian.Uint16`, `32` and `64`.
unfoldable pub get_be : List ℕ → ℕ
get_be [] = 0
get_be (b ∷ bs) = b * 256 ^ length bs + get_be bs

pub length-put_be : (k v : ℕ) → length (put_be k v) ≡ k
unfolding put_be
length-put_be zero v = refl
length-put_be (suc k) v = ap suc (length-put_be k v)

pub put_be-IsBytes : (k v : ℕ) → All IsByte (put_be k v)
unfolding put_be
put_be-IsBytes zero v = tt
put_be-IsBytes (suc k) v = (omega arith, put_be-IsBytes k v)

pow256-pos : (k : ℕ) → 0 < 256 ^ k
pow256-pos zero = omega arith
pow256-pos (suc k) = omega (arith, pow-suc 256 k, pow256-pos k)

-- The remainder by a product, from the remainders by its factors.
pub mod-mul_split : (c m v : ℕ) → v % (m * c) ≡ v / m % c * m + v % m
mod-mul_split c m v = omega (
  arith,
  mod-eq-sub-mul-div v (m * c),
  ap (λ (t : ℕ). m * c * t) (div-div-eq-div-mul v m c),
  div-add-mod v m,
  ap (λ (t : ℕ). m * t) (div-add-mod (v / m) c),
)

pub get_be-lt : (bs : List ℕ) → All IsByte bs → get_be bs < 256 ^ length bs
unfolding get_be
get_be-lt [] h = omega arith
get_be-lt (b ∷ bs) (hb, hbs) = grind (arith, pow-suc 256 (length bs), get_be-lt bs hbs)

-- The low `k` bytes of `v`, read back.
get_be-put_be_mod : (k v : ℕ) → get_be (put_be k v) ≡ v % 256 ^ k
unfolding get_be put_be
get_be-put_be_mod zero v = omega arith
get_be-put_be_mod (suc k) v =
    rw (length-put_be k v, get_be-put_be_mod k v, pow-suc 256 k)
      (sym (mod-mul_split 256 (256 ^ k) v))

pub get_be-put_be : (k v : ℕ) → v < 256 ^ k → get_be (put_be k v) ≡ v
get_be-put_be k v h = get_be-put_be_mod k v ∙ mod-eq_of_lt h

head_byte : (k b v : ℕ) → (v + b * 256 ^ suc k) / 256 ^ k % 256 ≡ v / 256 ^ k % 256
head_byte k b v = omega (
  arith,
  ap (λ (t : ℕ). (v + t) / 256 ^ k) {x = b * 256 ^ suc k} {y = b * 256 * 256 ^ k}
      (omega (arith, ap (λ (t : ℕ). b * t) (pow-suc 256 k))),
  add-mul-div_right v (b * 256) (pow256-pos k),
)

put_be_add : (k b v : ℕ) → put_be k (v + b * 256 ^ k) ≡ put_be k v
unfolding put_be
put_be_add zero b v = refl
put_be_add (suc k) b v = ap₂ ◌∷◌ (head_byte k b v) (
    ap (λ (t : ℕ). put_be k (v + t)) {y = b * 256 * 256 ^ k}
      (omega (arith, ap (λ (t : ℕ). b * t) (pow-suc 256 k)))
    ∙ put_be_add k (b * 256) v)

pub put_be-get_be : (bs : List ℕ) → All IsByte bs → put_be (length bs) (get_be bs) ≡ bs
unfolding put_be get_be
put_be-get_be [] h = refl
put_be-get_be (b ∷ bs) (hb, hbs) = ap₂ ◌∷◌ first (
    ap (put_be (length bs)) {y = get_be bs + b * 256 ^ length bs} (omega arith)
    ∙ put_be_add (length bs) b (get_be bs)
    ∙ put_be-get_be bs hbs)
  where
    first : (b * 256 ^ length bs + get_be bs) / 256 ^ length bs % 256 ≡ b
    first = omega (
      arith,
      ap (λ (t : ℕ). t / 256 ^ length bs) {x = b * 256 ^ length bs + get_be bs}
          {y = get_be bs + b * 256 ^ length bs} (omega arith),
      add-mul-div_right (get_be bs) b (pow256-pos (length bs)),
      div-eq_of_lt (get_be-lt bs hbs),
    )
