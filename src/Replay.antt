-- ===== src/Replay.antt =====
-- pkg/protocol/replay.go: the sliding window of 64 sequence numbers. The mutex is held for the
-- whole of each method, so a method is one step on the record.
pub mod Spec
pub mod Refinement
pub mod History
mod Tests
use Prim.Native.Nat.{bit_and, bit_or}
use pelagos.Base.{
  ℕ, ◌-◌, ◌*◌, ◌%◌, ◌^◌, Bool, true, false, ltb, ◌==◌, if◌then◌else◌, Result, Error, ok, err, not,
}
use pelagos.Base.Bits.{shl64}

pub record ReplayWindow : Type 0 where
  pub max_seq : ℕ
  pub bitmap : ℕ

abbrev pub replay_window_size : ℕ
replay_window_size = 64

unfoldable pub new_replay_window : ReplayWindow
new_replay_window = record { max_seq = 0; bitmap = 0 }

-- The branch for a number above every number seen so far.
advance : ReplayWindow → ℕ → ReplayWindow
advance w seq =
    let diff = seq - w.max_seq in
    record {
      max_seq = seq;
      bitmap = if ltb diff replay_window_size then bit_or (shl64 w.bitmap diff) 1 else 1;
    }

-- The branch for a number at or below the highest one.
mark : ReplayWindow → ℕ → Bool × ReplayWindow
mark w seq =
    let diff = w.max_seq - seq in
    if ltb diff replay_window_size
    then if bit_and w.bitmap (shl64 1 diff) == 0
      then (true, record w { bitmap = bit_or w.bitmap (shl64 1 diff) })
      else (false, w)
    else (false, w)

unfoldable pub check_and_add : ReplayWindow → ℕ → Bool × ReplayWindow
unfolding advance mark
check_and_add w seq =
    if seq == 0 then (false, w) else if ltb w.max_seq seq then (true, advance w seq) else mark w seq

unfoldable pub reset : ReplayWindow → ReplayWindow
reset w = record { max_seq = 0; bitmap = 0 }

unfoldable pub verify_replay_window : ReplayWindow → ℕ → Result (Unit {0}) × ReplayWindow
verify_replay_window w seq =
    let (accepted, w') = check_and_add w seq in
    ((if accepted then ok tt else err Error.replayed), w')
