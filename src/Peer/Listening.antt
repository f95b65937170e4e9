-- ===== src/Peer/Listening.antt =====
-- The loop of `handleIncomingConn` in main.go.
use pelagos.Base.{
  ℕ, zero, suc, ◌+◌, ◌*◌, ◌<◌, ◌≤◌, ◌≡◌, refl, some, Result, Error, ok, err, panic, length,
  length-append, Result-cases, inl, inr, ◌⊎◌, arith,
}
use pelagos.Crypto.Library.{GoCrypto}
use pelagos.Peer.{Listener, open_text, listen_round, listen_loop}
use pelagos.Transport.{NetConn, new_framed_conn}
use pelagos.Transport.Finite.{FiniteStream, receive_packet-cases}

-- The loop has ended: receiving failed, or the process did.
abbrev pub Ended : Result (Unit {0}) → Type 0
Ended r = ((r ≡ err Error.read_failure) ⊎ (r ≡ err Error.frame_limit)) ⊎ (r ≡ panic)

module _ (c : GoCrypto) (n : NetConn) (F : FiniteStream n) where
  abbrev pub TheListener : Type 0
  TheListener = Listener c (new_framed_conn n)

  -- A round ends the loop, or prints a line.
  abbrev Rounds : TheListener → Type 0
  Rounds l =
      ((r : Result (Unit {0})) × (l' : TheListener) × (listen_round c (new_framed_conn n) l
          ≡ (r, l'))
        × Ended r
        × (length l'.printed ≤ length l.printed))
      ⊎ ((l' : TheListener) × (listen_round c (new_framed_conn n) l ≡ (ok tt, l'))
          × (F.remaining l'.conn + 4 ≤ F.remaining l.conn)
          × (length l'.printed ≡ length l.printed + 1))

  round_cases : (l : TheListener) → Rounds l
  unfolding listen_round
  round_cases l = elim (receive_packet-cases n F l.conn) [
    | inr (inl e) ↦ rw (e) (inl (_, _, refl, inl (inl refl), omega arith))
    | inr (inr e) ↦ rw (e) (inl (_, _, refl, inl (inr refl), omega arith))
    | inl (raw, e, used) ↦ elim (Result-cases (open_text c raw (l.session, l.rng)).0) [
      | inl (line, f) ↦ rw (e, f) (inr (_, refl, used, length-append l.printed _))
      | inr (inl (problem, f)) ↦ rw (e, f) (inr (_, refl, used, length-append l.printed _))
      | inr (inr f) ↦ rw (e, f) (inl (_, _, refl, inr refl, omega arith))
    ]
  ]

  -- The listener's loop ends on a connection that brings finitely many bytes, whatever they are:
  -- with more rounds than bytes it returns, and then receiving has failed, or a panic has ended the
  -- process. It prints at most one line for four bytes.
  pub listen_loop-ends :
      (fuel : ℕ) (l : TheListener)
      → F.remaining l.conn < fuel
      → (r : Result (Unit {0})) × (l' : TheListener) × (listen_loop c (new_framed_conn n) fuel l
          ≡ some (r, l'))
        × Ended r
        × (4 * length l'.printed ≤ 4 * length l.printed + F.remaining l.conn)
  unfolding listen_loop
  listen_loop-ends zero l h = elim h [ ]
  listen_loop-ends (suc fuel) l h = elim (round_cases l) [
    | inl (err e, l', eq, done, m) ↦ (err e, l', rw eq, done, omega arith)
    | inl (panic, l', eq, done, m) ↦ (panic, l', rw eq, done, omega arith)
    | inl (ok u, l', eq, done, m) ↦ absurd (never done)
    | inr (l', eq, used, one) ↦
        let (r, l'', again, done, paid) = listen_loop-ends fuel l' (omega arith) in
        (r, l'', rw (eq) again, done, omega (arith, paid, used, one))
  ]
    where
      never : Ended (ok tt) → ⊥
      never (inl (inl e)) = cc e
      never (inl (inr e)) = cc e
      never (inr e) = cc e
