-- ===== src/Transport/Finite.antt =====
-- A stream that brings finitely many bytes: each packet that is received uses some of them up.
use pelagos.Base.{
  ℕ, ◌+◌, ◌≤◌, ◌≡◌, List, some, Error, ok, err, ltb, Bool-cases, Option-cases, inl, inr, ◌⊎◌, arith,
  refl,
}
use pelagos.Base.Bytes.{get_be}
use pelagos.Transport.{NetConn, max_frame, receive_packet}

-- What a loop over a connection relies on of `io.ReadFull`: a read that succeeds takes its bytes from
-- those that are still to arrive.
pub record FiniteStream (n : NetConn) : Type 1 where
  pub remaining : NetConn.Conn n → ℕ
  pub read_consumes :
      (k : ℕ) (s : NetConn.Conn n) (b : List ℕ)
      → (n.read_full k s).0 ≡ some b
      → remaining (n.read_full k s).1 + k ≤ remaining s

module _ (n : NetConn) (F : FiniteStream n) (s : NetConn.Conn n) where
  -- Receiving succeeds and has used up at least the length field, or fails with an error.
  pub receive_packet-cases :
      ((p : List ℕ) × ((receive_packet n s).0 ≡ ok p)
        × (F.remaining (receive_packet n s).1 + 4 ≤ F.remaining s))
      ⊎ (((receive_packet n s).0 ≡ err Error.read_failure)
          ⊎ ((receive_packet n s).0 ≡ err Error.frame_limit))
  unfolding receive_packet
  receive_packet-cases = elim (Option-cases (n.read_full 4 s).0) [
    | inl e ↦ rw (e) (inr (inl refl))
    | inr (head, e) ↦ elim (Bool-cases (ltb max_frame (get_be head))) [
      | inl big ↦ rw (e, big) (inr (inr refl))
      | inr small ↦
          let s1 = (n.read_full 4 s).1 in
          elim (Option-cases (n.read_full (get_be head) s1).0) [
            | inl f ↦ rw (e, small, f) (inr (inl refl))
            | inr (p, f) ↦
                let first = F.read_consumes 4 s head e in
                let second = F.read_consumes (get_be head) s1 p f in
                rw (e, small, f) (inl (p, refl, omega (arith, first, second)))
          ]
    ]
  ]
