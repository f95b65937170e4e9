-- ===== src/Transport/Pipe.antt =====
-- A pipe as a stream, on which every write succeeds.
use pelagos.Base.{
  ℕ, ◌+◌, ◌≤◌, ◌≡◌, refl, ap, sym, List, [], ◌++◌, true, none, some, length, length-take,
  length-drop, take, drop, leb, le→leb, if◌then◌else◌, Bool-cases, inl, inr, arith,
}
use pelagos.Transport.{NetConn}
use pelagos.Transport.Framing.{StreamLaws}
use pelagos.Transport.Finite.{FiniteStream}

-- What was written, and what is still to be read.
abbrev pub pipe : NetConn
pipe = record {
  Conn = List ℕ × List ℕ;
  write = λ b s. (true, (s.0 ++ b, s.1));
  read_full = λ k s.
      if leb k (length s.1) then (some (take k s.1), (s.0, drop k s.1)) else (none, (s.0, []));
}

some-inj : {A : Type 0} (a b : A) → some a ≡ some b → a ≡ b
some-inj a b h = cc h

pub pipe_size : (k : ℕ) (x y b : List ℕ) → (pipe.read_full k (x, y)).0 ≡ some b → length b ≡ k
pipe_size k x y b h = elim (Bool-cases (leb k (length y))) [
  | inl enough ↦
      let e : take k y ≡ b = some-inj (take k y) b (rw (enough) at h) in
      omega (arith, sym (ap length e), length-take k y, leb→le_at k (length y) enough)
  | inr short ↦ cc (rw (short) at h)
]
  where
    leb→le_at : (m n : ℕ) → leb m n ≡ true → m ≤ n
    leb→le_at m n h = ground arith

unfoldable pub pipe_laws : StreamLaws pipe
pipe_laws = record {
  sent = λ s. s.0;
  arriving = λ s. s.1;
  write_appends = λ b s h. refl;
  read_takes = λ k s h. rw (le→leb k (length s.1) h) (refl, refl);
  read_size = λ k s b h. pipe_size k s.0 s.1 b h;
}

pub pipe_consumes :
    (k : ℕ) (x y b : List ℕ)
    → (pipe.read_full k (x, y)).0 ≡ some b
    → length (pipe.read_full k (x, y)).1.1 + k ≤ length y
pipe_consumes k x y b h = elim (Bool-cases (leb k (length y))) [
  | inl enough ↦ rw (enough) (omega (arith, length-drop k y, leb→le_at k (length y) enough))
  | inr short ↦ cc (rw (short) at h)
]
  where
    leb→le_at : (m n : ℕ) → leb m n ≡ true → m ≤ n
    leb→le_at m n h = ground arith

unfoldable pub pipe_ends : FiniteStream pipe
pipe_ends = record {
  remaining = λ s. length s.1;
  read_consumes = λ k s b h. pipe_consumes k s.0 s.1 b h;
}
