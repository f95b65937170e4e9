-- ===== src/Replay/History.antt =====
-- The replay window of replay.go over a whole stream of packets.
use pelagos.Base.{
  ok, ◌==◌, lt→ltb, All, ◌+◌, false, ℕ, ◌<◌, ◌≡◌, refl, true, false, List, [], ◌∷◌, if◌then◌else◌,
  arith, Bool-cases, inl, inr,
}
use pelagos.Base.Bits.{bit-zero}
use pelagos.Replay.{verify_replay_window, ReplayWindow, new_replay_window, check_and_add, advance}
use pelagos.Replay.Spec.{has, highest, is_fresh, Tracks}
use pelagos.Replay.Refinement.{check_and_add-refines}

-- The numbers of a stream that the window accepts, in the order in which they came.
unfoldable pub accepted_from : ReplayWindow → List ℕ → List ℕ
accepted_from w [] = []
accepted_from w (s ∷ seqs) =
    let rest = accepted_from (check_and_add w s).1 seqs in
    if (check_and_add w s).0 then s ∷ rest else rest

abbrev pub Distinct : List ℕ → Type 0
Distinct [] = Unit {0}
Distinct (a ∷ rest) = (has a rest ≡ false) × Distinct rest

-- No number lies 64 or more behind one that comes before it.
abbrev pub Near : List ℕ → Type 0
Near [] = Unit {0}
Near (a ∷ rest) = All (λ s. a < s + 64) rest × Near rest

pub new_replay_window-Tracks : Tracks new_replay_window []
unfolding new_replay_window
new_replay_window-Tracks = record {
  top = refl;
  no_zero = refl;
  marked = λ i h. bit-zero i;
  word = omega arith;
}

-- What was accepted once is not accepted later in the stream.
not_again :
    (w : ReplayWindow) (accepted : List ℕ) (seqs : List ℕ)
    → Tracks w accepted
    → (x : ℕ) → has x accepted ≡ true
    → has x (accepted_from w seqs) ≡ false
unfolding accepted_from
not_again w accepted [] t x h = refl
not_again w accepted (s ∷ seqs) t x h =
    let (verdict, kept, _) = check_and_add-refines w accepted t s in
    elim (Bool-cases (is_fresh accepted s)) [
      | inl e ↦
          ground
            (arith, not_again (check_and_add w s).1 (s ∷ accepted) seqs (rw e at kept) x, verdict)
      | inr e ↦
          ground (arith, not_again (check_and_add w s).1 accepted seqs (rw e at kept) x h, verdict)
    ]

accepted_from-Distinct :
    (w : ReplayWindow) (accepted : List ℕ) (seqs : List ℕ)
    → Tracks w accepted
    → Distinct (accepted_from w seqs)
unfolding accepted_from
accepted_from-Distinct w accepted [] t = tt
accepted_from-Distinct w accepted (s ∷ seqs) t =
    let (verdict, kept, _) = check_and_add-refines w accepted t s in
    elim (Bool-cases (is_fresh accepted s)) [
      | inl e ↦
          rw (verdict, e)
            (
              not_again (check_and_add w s).1 (s ∷ accepted) seqs (rw e at kept) s (ground arith),
              accepted_from-Distinct (check_and_add w s).1 (s ∷ accepted) seqs (rw e at kept),
            )
      | inr e ↦
          rw (verdict, e)
            (accepted_from-Distinct (check_and_add w s).1 accepted seqs (rw e at kept))
    ]

-- However the packets of a stream are repeated or reordered, a fresh window accepts no sequence
-- number twice.
pub no_replay : (seqs : List ℕ) → Distinct (accepted_from new_replay_window seqs)
no_replay seqs = accepted_from-Distinct new_replay_window [] seqs new_replay_window-Tracks

-- What a window that has accepted some numbers still takes of a stream.
abbrev Untouched : List ℕ → List ℕ → Type 0
Untouched accepted = All λ s. (has s accepted ≡ false) × (highest accepted < s + 64)

Untouched-next :
    (s : ℕ) (accepted seqs : List ℕ)
    → has s seqs ≡ false
    → All (λ x. s < x + 64) seqs
    → Untouched accepted seqs
    → Untouched (s ∷ accepted) seqs
Untouched-next s accepted [] d near u = tt
Untouched-next s accepted (x ∷ seqs) d (reach, near) ((old, high), u) =
    ((ground arith, ground arith), Untouched-next s accepted seqs (ground arith) near u)

Untouched-new : (seqs : List ℕ) → Untouched [] seqs
Untouched-new [] = tt
Untouched-new (s ∷ seqs) = ((refl, omega arith), Untouched-new seqs)

taken_whole :
    (w : ReplayWindow) (accepted seqs : List ℕ)
    → Tracks w accepted
    → Distinct seqs
    → All (λ s. 0 < s) seqs
    → Near seqs
    → Untouched accepted seqs
    → accepted_from w seqs ≡ seqs
unfolding accepted_from
taken_whole w accepted [] t d p n u = refl
taken_whole w accepted (s ∷ seqs) t (once, d) (positive, p) (near, n) ((old, high), u) =
    let (verdict, kept, _) = check_and_add-refines w accepted t s in
    let fresh : is_fresh accepted s ≡ true = ground arith in
    let rest =
      taken_whole (check_and_add w s).1 (s ∷ accepted) seqs (rw fresh at kept) d p n
        (Untouched-next s accepted seqs once near u) in
    rw (verdict, fresh, rest) refl

-- A fresh window loses nothing of a stream that is only reordered a little: if no number comes twice,
-- none is 0, and none comes 64 or more behind one that came before it, all are accepted, in the order
-- in which they came.
pub accepted_from-Near :
    (seqs : List ℕ)
    → Distinct seqs
    → All (λ s. 0 < s) seqs
    → Near seqs
    → accepted_from new_replay_window seqs ≡ seqs
accepted_from-Near seqs d p n =
    taken_whole new_replay_window [] seqs new_replay_window-Tracks d p n (Untouched-new seqs)

-- A number above the highest one is accepted, and is the highest afterwards.
pub verify-above :
    (w : ReplayWindow) (seq : ℕ)
    → w.max_seq < seq
    → (w' : ReplayWindow) × (verify_replay_window w seq ≡ (ok tt, w')) × (w'.max_seq ≡ seq)
unfolding verify_replay_window check_and_add advance
verify-above w seq h =
    let positive : (seq == 0) ≡ false = ground arith in
    (advance w seq, rw (positive, lt→ltb w.max_seq seq h), refl)
