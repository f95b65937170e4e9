-- ===== src/Replay/Spec.antt =====
-- What the replay window of replay.go promises, in terms of the numbers that it has accepted.
use Prim.Native.Nat.{max}
use pelagos.Base.{
  ℕ, ◌+◌, ◌-◌, ◌<◌, ◌^◌, ◌≡◌, Bool, true, false, not, ◌&&◌, ◌||◌, List, [], ◌∷◌, ltb, ◌==◌,
}
use pelagos.Base.Bits.{bit}
use pelagos.Replay.{ReplayWindow}

abbrev pub has : ℕ → List ℕ → Bool
has s [] = false
has s (a ∷ accepted) = s == a || has s accepted

abbrev pub highest : List ℕ → ℕ
highest [] = 0
highest (a ∷ accepted) = max a (highest accepted)

-- A number is fresh if it is not 0, less than 64 behind the highest, and not accepted before.
abbrev pub is_fresh : List ℕ → ℕ → Bool
is_fresh accepted seq =
    not (seq == 0) && ltb (highest accepted) (seq + 64) && not (has seq accepted)

abbrev pub digit : Bool → ℕ
digit true = 1
digit false = 0

-- The window is the bitmap of the accepted numbers.
pub record Tracks (w : ReplayWindow) (accepted : List ℕ) : Type 0 where
  pub top : w.max_seq ≡ highest accepted
  pub no_zero : has 0 accepted ≡ false
  pub marked : (i : ℕ) → i < 64 → bit i w.bitmap ≡ digit (has (w.max_seq - i) accepted)
  pub word : w.bitmap < 2 ^ 64
