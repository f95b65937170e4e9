-- ===== src/Base/Bits.antt =====
-- The binary digits of a number, and what `&`, `|` and `<<` do to them.
use Prim.Native.Nat.{
  ℕ, zero, suc, ◌+◌, ◌-◌, ◌*◌, ◌/◌, ◌%◌, ◌^◌, ◌≤◌, ◌<◌, min, max, bit_and, bit_or, digits,
  bit_and-bitwise, bit_or-bitwise,
}
use mathlib.Core.Path.{◌≡◌, refl, ap, sym, ◌∙◌}
use mathlib.Core.Logic.{◌≢◌, ◌↔◌}
use native.Mathlib.Omega.{arith}
use native.Mathlib.Nat.{pow-suc, pow-le-pow_right}
use native.Mathlib.Decide.{ℕ_discrete}
use pelagos.Base.Bytes.{mod-mul_split}
use pelagos.Base.Tests.{if◌then◌else◌, ◌==◌}

-- Digit `i` of `n`.
unfoldable pub bit : ℕ → ℕ → ℕ
bit zero n = n % 2
bit (suc i) n = bit i (n / 2)

-- An operation that works digit by digit, by `f`, with `z` for the rest of the second number when
-- the first has ended.
module _ (z : ℕ → ℕ) (f : ℕ → ℕ → ℕ) where
  -- More fuel than the first number changes nothing.
  digits-steady :
      (x y : ℕ) (enough more : ℕ)
      → x ≤ enough
      → x ≤ more
      → digits z f enough x y ≡ digits z f more x y
  digits-steady zero y zero zero h k = refl
  digits-steady zero y zero (suc more) h k = refl
  digits-steady zero y (suc enough) zero h k = refl
  digits-steady zero y (suc enough) (suc more) h k = refl
  digits-steady (suc x) y (suc enough) (suc more) h k =
      ap (λ (t : ℕ). t * 2 + f (suc x % 2) (y % 2))
        (digits-steady (suc x / 2) (y / 2) enough more (omega arith) (omega arith))
  digits-steady (suc x) y zero more h k = absurd (omega arith)
  digits-steady (suc x) y (suc enough) zero h k = absurd (omega arith)

  digits_lem :
      ((y : ℕ) → z y ≡ z (y / 2) * 2 + f 0 (y % 2))
      → (x y : ℕ) → digits z f x x y ≡ digits z f (x / 2) (x / 2) (y / 2) * 2 + f (x % 2) (y % 2)
  digits_lem ended zero y = ended y
  digits_lem ended (suc x) y =
      ap (λ (t : ℕ). t * 2 + f (suc x % 2) (y % 2))
        (digits-steady (suc x / 2) (y / 2) x (suc x / 2) (omega arith) (omega arith))

bit_and_lem : (a b : ℕ) → bit_and a b ≡ bit_and (a / 2) (b / 2) * 2 + min (a % 2) (b % 2)
bit_and_lem a b =
    bit_and-bitwise a b
    ∙ digits_lem (λ _. 0) min (λ y. omega arith) a b
    ∙ ap (λ (t : ℕ). t * 2 + min (a % 2) (b % 2)) (sym (bit_and-bitwise (a / 2) (b / 2)))

bit_or_lem : (a b : ℕ) → bit_or a b ≡ bit_or (a / 2) (b / 2) * 2 + max (a % 2) (b % 2)
bit_or_lem a b =
    bit_or-bitwise a b
    ∙ digits_lem (λ y. y) max (λ y. omega arith) a b
    ∙ ap (λ (t : ℕ). t * 2 + max (a % 2) (b % 2)) (sym (bit_or-bitwise (a / 2) (b / 2)))

pub bit-lt : (i n : ℕ) → bit i n < 2
unfolding bit
bit-lt zero n = omega arith
bit-lt (suc i) n = bit-lt i (n / 2)

pub bit-bit_and : (i a b : ℕ) → bit i (bit_and a b) ≡ min (bit i a) (bit i b)
unfolding bit
bit-bit_and zero a b = omega (arith, bit_and_lem a b)
bit-bit_and (suc i) a b =
    ap (bit i) (omega (arith, bit_and_lem a b)) ∙ bit-bit_and i (a / 2) (b / 2)

pub bit-bit_or : (i a b : ℕ) → bit i (bit_or a b) ≡ max (bit i a) (bit i b)
unfolding bit
bit-bit_or zero a b = omega (arith, bit_or_lem a b)
bit-bit_or (suc i) a b = ap (bit i) (omega (arith, bit_or_lem a b)) ∙ bit-bit_or i (a / 2) (b / 2)

pub bit-zero : (i : ℕ) → bit i 0 ≡ 0
unfolding bit
bit-zero zero = refl
bit-zero (suc i) = bit-zero i

bit-one : (i : ℕ) → bit (suc i) 1 ≡ 0
unfolding bit
bit-one i = bit-zero i

-- The digits of `n << d`.
pub bit-shift_below : (i d n : ℕ) → i < d → bit i (n * 2 ^ d) ≡ 0
unfolding bit
bit-shift_below i zero n h = absurd (omega arith)
bit-shift_below zero (suc d) n h = omega (arith, ap (λ (t : ℕ). n * t) (pow-suc 2 d))
bit-shift_below (suc i) (suc d) n h =
    ap (bit i) (omega (arith, ap (λ (t : ℕ). n * t) (pow-suc 2 d)))
    ∙ bit-shift_below i d n (omega arith)

pub bit-shift : (i d n : ℕ) → d ≤ i → bit i (n * 2 ^ d) ≡ bit (i - d) n
unfolding bit
bit-shift i zero n h =
    ap (bit i) {y = n} (omega arith) ∙ ap (λ (k : ℕ). bit k n) {x = i} {y = i - 0} (omega arith)
bit-shift zero (suc d) n h = absurd (omega arith)
bit-shift (suc i) (suc d) n h =
    ap (bit i) (omega (arith, ap (λ (t : ℕ). n * t) (pow-suc 2 d)))
    ∙ bit-shift i d n (omega arith)
    ∙ ap (λ (k : ℕ). bit k n) {x = i - d} {y = suc i - suc d} (omega arith)

half_mod : (w n : ℕ) → n % 2 ^ suc w ≡ n / 2 % 2 ^ w * 2 + n % 2
half_mod w n = omega (
  arith,
  ap (λ (t : ℕ). n % t) {x = 2 ^ suc w} {y = 2 * 2 ^ w} (omega (arith, pow-suc 2 w)),
  mod-mul_split (2 ^ w) 2 n,
)

-- Keeping the low `w` digits.
pub bit-mod : (i w n : ℕ) → i < w → bit i (n % 2 ^ w) ≡ bit i n
unfolding bit
bit-mod i zero n h = absurd (omega arith)
bit-mod zero (suc w) n h = omega (arith, half_mod w n)
bit-mod (suc i) (suc w) n h =
    ap (bit i) (omega (arith, half_mod w n)) ∙ bit-mod i w (n / 2) (omega arith)

bit-eq_zero_fuel : (k n : ℕ) → n ≤ k → ((i : ℕ) → bit i n ≡ 0) → n ≡ 0
unfolding bit
bit-eq_zero_fuel zero n h all = omega arith
bit-eq_zero_fuel (suc k) n h all =
    omega (arith, all 0, bit-eq_zero_fuel k (n / 2) (omega arith) (λ i. all (suc i)))

-- A number without a digit is zero.
pub eq_zero_of_bit : (n : ℕ) → ((i : ℕ) → bit i n ≡ 0) → n ≡ 0
eq_zero_of_bit n = bit-eq_zero_fuel n n (omega arith)

pub bit-pow_self : (d : ℕ) → bit d (2 ^ d) ≡ 1
unfolding bit
bit-pow_self zero = refl
bit-pow_self (suc d) = ap (bit d) (omega (arith, pow-suc 2 d)) ∙ bit-pow_self d

pub bit-pow_ne : (i d : ℕ) → i ≢ d → bit i (2 ^ d) ≡ 0
unfolding bit
bit-pow_ne zero zero h = absurd (h refl)
bit-pow_ne (suc i) zero h = bit-one i
bit-pow_ne zero (suc d) h = omega (arith, pow-suc 2 d)
bit-pow_ne (suc i) (suc d) h =
    ap (bit i) (omega (arith, pow-suc 2 d)) ∙ bit-pow_ne i d (λ e. h (ap suc e))

-- `n & (1 << d)` is zero exactly when digit `d` of `n` is.
pub bit_and-pow_iff : (n d : ℕ) → (bit_and n (2 ^ d) ≡ 0) ↔ (bit d n ≡ 0)
bit_and-pow_iff n d = (
  λ e. omega (arith, bit-bit_and d n (2 ^ d), bit-pow_self d, bit-lt d n, ap (bit d) e, bit-zero d),
  λ e. eq_zero_of_bit (bit_and n (2 ^ d)) (only e),
)
  where
    only : bit d n ≡ 0 → (i : ℕ) → bit i (bit_and n (2 ^ d)) ≡ 0
    only e i = elim (ℕ_discrete i d) [
      | yes same ↦ rw same (omega (arith, bit-bit_and d n (2 ^ d)))
      | no other ↦ omega (arith, bit-bit_and i n (2 ^ d), bit-pow_ne i d other)
    ]

-- The low digit of `n | 1`, and of `1`.
pub bit-bit_or_one : (i n : ℕ) → bit i (bit_or n 1) ≡ (if i == 0 then 1 else bit i n)
unfolding bit
bit-bit_or_one zero n = omega (arith, bit-bit_or 0 n 1)
bit-bit_or_one (suc i) n = ground (arith, bit-bit_or (suc i) n 1, bit-one i)

pub bit_of_one : (i : ℕ) → bit i 1 ≡ (if i == 0 then 1 else 0)
unfolding bit
bit_of_one zero = refl
bit_of_one (suc i) = ground (arith, bit-one i)

pub bit-bit_or_pow : (i d n : ℕ) → bit i (bit_or n (2 ^ d)) ≡ (if i == d then 1 else bit i n)
bit-bit_or_pow i d n = elim (ℕ_discrete i d) [
  | yes same ↦ ground (
    arith,
    bit-bit_or i n (2 ^ d),
    ap (λ (k : ℕ). bit k (2 ^ d)) same,
    bit-pow_self d,
    bit-lt i n,
  )
  | no other ↦ ground (arith, bit-bit_or i n (2 ^ d), bit-pow_ne i d other)
]

pub bit_or-lt : (w a b : ℕ) → a < 2 ^ w → b < 2 ^ w → bit_or a b < 2 ^ w
bit_or-lt zero a b p q =
    let first : a ≡ 0 = omega arith in
    let second : b ≡ 0 = omega arith in rw (first, second) (omega arith)
bit_or-lt (suc w) a b p q = omega (
  arith,
  pow-suc 2 w,
  bit_or_lem a b,
  bit_or-lt w (a / 2) (b / 2) (omega (arith, pow-suc 2 w)) (omega (arith, pow-suc 2 w)),
)

-- `x << d` on a uint64.
abbrev pub shl64 : ℕ → ℕ → ℕ
shl64 x d = x * 2 ^ d % 2 ^ 64

pub shl64-one : (d : ℕ) → d < 64 → shl64 1 d ≡ 2 ^ d
shl64-one d h = omega (arith, pow-le-pow_right {n = 2} (omega arith) {i = d} {j = 63} (omega arith))
