-- ===== src/Replay/Tests.antt =====
-- Runs of the replay window, and its theorems at concrete inputs.
use pelagos.Base.{true, ℕ, ◌≡◌, refl, List, [], ◌∷◌, arith}
use pelagos.Replay.{new_replay_window, check_and_add}
use pelagos.Replay.Spec.{Tracks}
use pelagos.Replay.Refinement.{check_and_add-refines}
use pelagos.Replay.History.{
  accepted_from, Distinct, no_replay, accepted_from-Near, new_replay_window-Tracks,
}

abbrev stream : List ℕ
stream = 3 ∷ 1 ∷ 3 ∷ 100 ∷ 37 ∷ 36 ∷ 37 ∷ 0 ∷ 101 ∷ []

stream_run : accepted_from new_replay_window stream ≡ 3 ∷ 1 ∷ 100 ∷ 37 ∷ 101 ∷ []
unfolding accepted_from check_and_add new_replay_window
stream_run = refl

check_and_add-refines_example :
    ((check_and_add new_replay_window 5).0 ≡ true)
    × Tracks (check_and_add new_replay_window 5).1 (5 ∷ [])
    × ((check_and_add new_replay_window 5).1 ≡ (check_and_add new_replay_window 5).1)
check_and_add-refines_example =
    check_and_add-refines new_replay_window [] new_replay_window-Tracks 5

no_replay_example : Distinct (accepted_from new_replay_window stream)
no_replay_example = no_replay stream

-- Out of order, and at the edge of the window.
abbrev shuffled : List ℕ
shuffled = 3 ∷ 1 ∷ 70 ∷ 7 ∷ 71 ∷ []

accepted_from-Near_example : accepted_from new_replay_window shuffled ≡ shuffled
accepted_from-Near_example =
    accepted_from-Near shuffled (refl, (refl, (refl, (refl, (refl, tt))))) (omega arith)
      (omega arith)
