-- ===== src/Replay/Refinement.antt =====
-- `check_and_add` of replay.go against the specification.
use Prim.Native.Nat.{bit_and, bit_or}
use pelagos.Base.{
  ℕ, ◌-◌, ◌*◌, ◌≤◌, ◌<◌, ◌^◌, ◌≡◌, refl, ap, false, not, List, [], ◌∷◌, leb, ◌==◌, if◌then◌else◌,
  arith, ◌≢◌,
}
use pelagos.Base.Bits.{
  bit, bit-bit_or_one, bit_of_one, bit-shift, bit-shift_below, bit-mod, bit-bit_or_pow, bit_or-lt,
  bit_and-pow_iff, shl64, shl64-one,
}
use pelagos.Replay.{ReplayWindow, advance, check_and_add}
use pelagos.Replay.Spec.{has, highest, is_fresh, digit, Tracks}

pub has-above_highest : (s : ℕ) (accepted : List ℕ) → highest accepted < s → has s accepted ≡ false
has-above_highest s [] h = refl
has-above_highest s (a ∷ accepted) h = ground (arith, has-above_highest s accepted)

module _ (w : ReplayWindow) (accepted : List ℕ) (t : Tracks w accepted) (seq : ℕ) where
  -- Digit `i` after the window has moved up to `seq`.
  advance-marked :
      w.max_seq < seq
      → (i : ℕ) → i < 64
      → bit i (advance w seq).bitmap ≡ digit (has (seq - i) (seq ∷ accepted))
  unfolding advance
  advance-marked h i hi =
      let diff : ℕ = seq - w.max_seq in
      ground (
        arith,
        t.top,
        bit-bit_or_one i (shl64 w.bitmap diff),
        bit_of_one i,
        bit-mod i 64 (w.bitmap * 2 ^ diff) hi,
        bit-shift_below i diff w.bitmap,
        bit-shift i diff w.bitmap,
        t.marked (i - diff),
        has-above_highest (seq - i) accepted,
        ap (λ (k : ℕ). has k accepted) (reach i),
      )
    where
      reach :
          (i : ℕ)
          → (if leb (seq - w.max_seq) i then w.max_seq - (i - (seq - w.max_seq)) else seq - i)
            ≡ seq - i
      reach i = ground arith

  advance-Tracks : w.max_seq < seq → Tracks (advance w seq) (seq ∷ accepted)
  unfolding advance
  advance-Tracks h = record {
    top = ground (arith, t.top);
    no_zero = ground (arith, t.no_zero);
    marked = λ i hi. advance-marked h i hi;
    word = ground (arith, bit_or-lt 64 (shl64 w.bitmap (seq - w.max_seq)) 1);
  }

  -- Digit `i` after a late number has been marked.
  mark-marked :
      seq ≤ w.max_seq
      → seq ≢ 0
      → w.max_seq - seq < 64
      → (i : ℕ) → i < 64
      → bit i (bit_or w.bitmap (shl64 1 (w.max_seq - seq)))
        ≡ digit (has (w.max_seq - i) (seq ∷ accepted))
  mark-marked h ne near i hi =
      let diff : ℕ = w.max_seq - seq in
      ground (
        arith,
        ap (λ (k : ℕ). bit i (bit_or w.bitmap k)) (shl64-one diff near),
        bit-bit_or_pow i diff w.bitmap,
        t.marked i hi,
      )

  -- The number is new to the window exactly if its digit is clear.
  clear_iff :
      seq ≤ w.max_seq
      → w.max_seq - seq < 64
      → (bit_and w.bitmap (shl64 1 (w.max_seq - seq)) == 0) ≡ not (has seq accepted)
  clear_iff h near =
      let diff : ℕ = w.max_seq - seq in
      ground (
        arith,
        ap (λ (k : ℕ). bit_and w.bitmap k) (shl64-one diff near),
        bit_and-pow_iff w.bitmap diff,
        t.marked diff near,
        ap (λ (k : ℕ). has k accepted) {x = w.max_seq - diff} {y = seq} (omega arith),
      )

  mark-Tracks :
      seq ≤ w.max_seq
      → seq ≢ 0
      → w.max_seq - seq < 64
      → Tracks (record w { bitmap = bit_or w.bitmap (shl64 1 (w.max_seq - seq)) }) (seq ∷ accepted)
  mark-Tracks h ne near = record {
    top = ground (arith, t.top);
    no_zero = ground (arith, t.no_zero);
    marked = λ i hi. mark-marked h ne near i hi;
    word = bit_or-lt 64 w.bitmap (shl64 1 (w.max_seq - seq)) t.word (omega arith);
  }

  -- On every number the window answers as the specification does, and goes on tracking the accepted
  -- numbers: with the new one if it was accepted, unchanged if it was not.
  pub check_and_add-refines :
      ((check_and_add w seq).0 ≡ is_fresh accepted seq)
      × Tracks (check_and_add w seq).1 (if is_fresh accepted seq then seq ∷ accepted else accepted)
      × ((check_and_add w seq).1 ≡ (if is_fresh accepted seq then (check_and_add w seq).1 else w))
  unfolding check_and_add
  check_and_add-refines = (
    ground (arith, t.top, clear_iff, has-above_highest seq accepted),
    ground
        (arith, t.top, t, clear_iff, has-above_highest seq accepted, advance-Tracks, mark-Tracks),
    ground (arith, t.top, clear_iff, has-above_highest seq accepted),
  )
