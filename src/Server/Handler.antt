-- ===== src/Server/Handler.antt =====
-- The handler of a connection ends without a panic, and closes the connection.
use pelagos.Base.{
  ◌⊎◌, ℕ, zero, suc, ◌<◌, ◌≤◌, ◌≡◌, refl, List, Option, some, Result, Error, ok, err, panic,
  Option-cases, Result-cases, inl, inr, arith,
}
use pelagos.Base.State.{go_on}
use pelagos.Crypto.Library.{GoCrypto}
use pelagos.Server.{Relay, Server, authenticate_client, deliver_mailbox, route_packet}
use pelagos.Server.Reachable.{Event, perform, Sound, perform-Sound}
use pelagos.Server.Safety.{route_packet-Safe, authenticate_client-Safe, deliver_mailbox-Safe}
use pelagos.Server.Unique.{Unique}
use pelagos.Server.Command.{State, admit_client, route_round, route_loop, handle_client}
use pelagos.Server.Receiving.{
  FiniteClient, route_packet-Falls, authenticate_client-Falls, deliver_mailbox-Falls,
}

module _ (n : Relay) (c : GoCrypto) (conn : Relay.Conn n) (F : FiniteClient n conn) where
  -- The calls before the loop leave the maps in order, and no more to receive.
  abbrev Settled : State n c → State n c → Type 0
  Settled x y = Sound n c y × (F.pending y.1 ≤ F.pending x.1)

  authenticate_client-Settled :
      (x : State n c) → Sound n c x → Settled x (authenticate_client n c conn x).1
  unfolding perform
  authenticate_client-Settled x u =
      (perform-Sound n c (Event.authenticate conn) x u, authenticate_client-Falls n c conn F x)

  deliver_mailbox-Settled :
      (fp : List ℕ) (x : State n c) → Sound n c x → Settled x (deliver_mailbox n fp conn x).1
  unfolding perform
  deliver_mailbox-Settled fp x u =
      (perform-Sound n c (Event.deliver fp conn) x u, deliver_mailbox-Falls n c conn F fp conn x)

  received-Sound :
      (s : Server (Relay.Conn n)) (w w' : Relay.World n) → Sound n c (s, w) → Sound n c (s, w')
  unfolding Sound
  received-Sound s w w' u = u

  -- A round goes on with a packet received, or ends the loop because none was.
  abbrev RoundOf : State n c → Result (Unit {0}) → State n c → Type 0
  RoundOf x (ok _) y = Sound n c y × (F.pending y.1 < F.pending x.1)
  RoundOf x (err e) y = Settled x y × (e ≡ Error.client_gone)
  RoundOf x panic y = ⊥

  route_round-RoundOf :
      (x : State n c)
      → Sound n c x
      → RoundOf x (route_round n c conn x).0 (route_round n c conn x).1
  unfolding route_round perform
  route_round-RoundOf (s, w) u =
      let w1 = (n.receive_packet conn w).1 in
      let u1 = received-Sound s w w1 u in
      elim (Option-cases (n.receive_packet conn w).0) [
        | inl gone ↦ rw (gone) ((u1, F.receive_keeps w), refl)
        | inr (raw, got) ↦
            let used = F.receive_consumes w raw got in
            let v = perform-Sound n c (Event.route raw) (s, w1) u1 in
            let h = route_packet-Falls n c conn F raw (s, w1) in
            elim (Result-cases (route_packet n raw (s, w1)).0) [
              | inl (_, e) ↦ rw (got, e) (v, omega (arith, used, h))
              | inr (inl (_, e)) ↦ rw (got, e) (v, omega (arith, used, h))
              | inr (inr e) ↦
                  absurd (route_packet-Safe n c conn raw (s, w1) (F.receive_limit w raw got) e)
            ]
      ]

  -- The run has ended with an error that is one of `P`.
  abbrev Ends : (Error → Type 0) → Option (Result (Unit {0}) × State n c) → Type 0
  Ends P o = (e : Error) × (y : State n c) × (o ≡ some (err e, y)) × P e × Sound n c y

  after_round :
      (fuel : ℕ) (x : State n c) (r : Result (Unit {0})) (y : State n c)
      → RoundOf x r y
      → ((z : State n c)
          → Sound n c z
          → F.pending z.1 < F.pending x.1
          → Ends (λ e. e ≡ Error.client_gone) (route_loop n c fuel conn z))
      → Ends (λ e. e ≡ Error.client_gone) (go_on (route_loop n c fuel conn) (r, y))
  after_round fuel x (ok _) y v again = again y v.0 v.1
  after_round fuel x (err e) y v again = (e, y, refl, v.1, v.0.0)
  after_round fuel x panic y v again = absurd v

  route_loop-Ends :
      (fuel : ℕ) (x : State n c)
      → Sound n c x
      → F.pending x.1 < fuel
      → Ends (λ e. e ≡ Error.client_gone) (route_loop n c fuel conn x)
  unfolding route_loop
  route_loop-Ends zero x u h = elim h [ ]
  route_loop-Ends (suc fuel) x u h =
      after_round fuel x (route_round n c conn x).0 (route_round n c conn x).1
        (route_round-RoundOf x u) (λ y v k. route_loop-Ends fuel y v (omega arith))

  -- The client has gone, or was not admitted.
  abbrev Reason : State n c → Error → Type 0
  Reason x e = (e ≡ Error.client_gone) ⊎ ((authenticate_client n c conn x).0 ≡ err e)

  abbrev Admitted : State n c → Result (Unit {0}) → State n c → Type 0
  Admitted x (ok _) y = Settled x y
  Admitted x (err e) y = Settled x y × ((authenticate_client n c conn x).0 ≡ err e)
  Admitted x panic y = ⊥

  admit_client-Admitted :
      (x : State n c)
      → Sound n c x
      → Admitted x (admit_client n c conn x).0 (admit_client n c conn x).1
  unfolding admit_client
  admit_client-Admitted x u =
      let y = (authenticate_client n c conn x).1 in
      let (v, h) = authenticate_client-Settled x u in
      elim (Result-cases (authenticate_client n c conn x).0) [
        | inr (inl (e, bad)) ↦ rw (bad) ((v, h), bad)
        | inr (inr bad) ↦ absurd (authenticate_client-Safe n c conn x bad)
        | inl (fp, good) ↦
            let (v', h') = deliver_mailbox-Settled fp y v in
            elim (Result-cases (deliver_mailbox n fp conn y).0) [
              | inl (_, sent) ↦ rw (good, sent) (v', omega (arith, h, h'))
              | inr (inl (_, sent)) ↦ rw (good, sent) (v', omega (arith, h, h'))
              | inr (inr sent) ↦ absurd (deliver_mailbox-Safe n c conn fp conn y sent)
            ]
      ]

  go_on-Ends :
      (fuel : ℕ) (x : State n c) (r : Result (Unit {0})) (y : State n c)
      → Admitted x r y
      → F.pending x.1 < fuel
      → Ends (Reason x) (go_on (route_loop n c fuel conn) (r, y))
  go_on-Ends fuel x (ok _) y v h =
      let (e, z, k, gone, u) = route_loop-Ends fuel y v.0 (omega (arith, v.1)) in
      (e, z, k, inl gone, u)
  go_on-Ends fuel x (err e) y v h = (e, y, refl, inr v.1, v.0.0)
  go_on-Ends fuel x panic y v h = absurd v

  -- The handler of a client that sends finitely many packets, each within the limit of a frame,
  -- whatever they hold and wherever sending fails, returns, and does not panic: as many rounds as
  -- there are packets, and one more, are enough. It returns because nothing more came from the
  -- client, or because the client was not admitted; so no error of delivery or routing ends it. The
  -- last thing that it does is to close the connection, and if there was at most one mailbox and
  -- one connection under each fingerprint, there still is.
  pub handle_client-ends :
      (fuel : ℕ) (x : State n c)
      → F.pending x.1 < fuel
      → Unique x.0.mailboxes
      → Unique x.0.clients
      → (e : Error) × (s : Server (Relay.Conn n)) × (w : Relay.World n) × (handle_client n c fuel
            conn x
          ≡ some (err e, (s, n.close conn w)))
        × ((e ≡ Error.client_gone) ⊎ ((authenticate_client n c conn x).0 ≡ err e))
        × Unique s.mailboxes
        × Unique s.clients
  unfolding handle_client Sound
  handle_client-ends fuel x h u v =
      let (e, (s, w), k, why, sound) =
        go_on-Ends fuel x (admit_client n c conn x).0 (admit_client n c conn x).1
          (admit_client-Admitted x (u, v)) h in
      (e, s, w, rw (k) refl, why, sound.0, sound.1)
