-- ===== src/Server/Command.antt =====
-- `handleClient` of cmd/palagos-server/main.go: what the relay does for one connection. An error of
-- delivery or routing is only printed.
use pelagos.Base.{ℕ, zero, suc, Option, none, some, Result, Error, ok, err, panic, or_fail}
use pelagos.Base.State.{◌>>=◌, lift, go_on}
use pelagos.Crypto.Library.{GoCrypto}
use pelagos.Server.{
  Relay, Server, ServerAct, authenticate_client, deliver_mailbox, route_packet, receive, on_world,
}

abbrev pub printed : Result (Unit {0}) → Result (Unit {0})
printed (ok _) = ok tt
printed (err e) = ok tt
printed panic = panic

module _ (n : Relay) (c : GoCrypto) where
  abbrev pub State : Type 0
  State = Server (Relay.Conn n) × Relay.World n

  abbrev pub reported : ServerAct n (Unit {0}) → ServerAct n (Unit {0})
  reported f x = (printed (f x).0, (f x).1)

  -- The method calls in front of the loop.
  unfoldable pub admit_client : Relay.Conn n → ServerAct n (Unit {0})
  admit_client conn = do
    client_fp ← authenticate_client n c conn
    reported (deliver_mailbox n client_fp conn)

  -- One round of the loop; an error is one of receiving, which ends the loop.
  unfoldable pub route_round : Relay.Conn n → ServerAct n (Unit {0})
  route_round conn = do
    received ← on_world n c (receive n c conn)
    raw_pkt ← lift (or_fail received Error.client_gone)
    reported (route_packet n raw_pkt)

  unfoldable pub route_loop : ℕ → Relay.Conn n → State → Option (Result (Unit {0}) × State)
  route_loop zero conn x = none
  route_loop (suc fuel) conn x = go_on (route_loop fuel conn) (route_round conn x)

  -- `defer conn.Close()`.
  abbrev pub closing :
      Relay.Conn n → Option (Result (Unit {0}) × State) → Option (Result (Unit {0}) × State)
  closing conn none = none
  closing conn (some (r, (s, w))) = some (r, (s, n.close conn w))

  unfoldable pub handle_client : ℕ → Relay.Conn n → State → Option (Result (Unit {0}) × State)
  handle_client fuel conn x = closing conn (go_on (route_loop fuel conn) (admit_client conn x))
