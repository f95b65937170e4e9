-- ===== src/Server/Reachable.antt =====
-- The runs of the relay: its methods in any order, as the goroutines of its clients and of the
-- garbage collection call them.
use pelagos.Base.{
  ℕ, List, [], ◌∷◌, Option, none, some, Result, ok, err, panic, length, ◌==◌, Bool-cases, inl, inr,
  Result-cases,
}
use pelagos.Base.Maps.{Map, lookup, delete}
use pelagos.Base.State.{continue}
use pelagos.Crypto.Library.{GoCrypto}
use pelagos.Identity.{Identity}
use pelagos.Packet.{filled, zero_packet, unmarshal}
use pelagos.Server.{
  Relay, Server, ServerAct, MailboxEntry, expired, evict_range, evict_expired_mailboxes,
  enqueue_mailbox, route_packet, route_to, finish, send_loop, held, deliver_mailbox_among,
  deliver_mailbox, authenticate_client, greet_client, add_client, empty_server,
}
use pelagos.Server.Unique.{Unique, insert-Unique, delete-Unique}

-- A call of a method, by a client's goroutine or the garbage collection.
pub data Event (n : Relay) : Type 0 where
  authenticate : Relay.Conn n → Event n
  route : List ℕ → Event n
  deliver : List ℕ → Relay.Conn n → Event n
  collect : Event n

module _ (n : Relay) (c : GoCrypto) where
  abbrev pub State : Type 0
  State = Server (Relay.Conn n) × Relay.World n

  unfoldable pub perform : Event n → State → State
  perform (authenticate conn) x = (authenticate_client n c conn x).1
  perform (route raw) x = (route_packet n raw x).1
  perform (deliver fp conn) x = (deliver_mailbox n fp conn x).1
  perform collect x = (evict_expired_mailboxes n x).1

  unfoldable pub run : List (Event n) → State → State
  run [] x = x
  run (e ∷ es) x = run es (perform e x)

  unfoldable pub Sound : State → Type 0
  Sound x = Unique x.0.mailboxes × Unique x.0.clients

  Keeps : {A : Type 0} → ServerAct n A → Type 0
  Keeps m = (x : State) → Sound x → Sound (m x).1

  continue-Sound :
      {A B : Type 0} (r : Result A × State) (f : A → ServerAct n B)
      → Sound r.1
      → ((a : A) → Keeps (f a))
      → Sound (continue r f).1
  unfolding Keeps
  continue-Sound (ok a, y) f u next = next a y u
  continue-Sound (err e, y) f u next = u
  continue-Sound (panic, y) f u next = u

  enqueue_mailbox-Keeps : (fp raw : List ℕ) → Keeps (enqueue_mailbox n fp raw)
  unfolding enqueue_mailbox Keeps Sound
  enqueue_mailbox-Keeps fp raw (s, w) (u, v) = (insert-Unique fp _ s.mailboxes u, v)

  route_to-Keeps : (o : Option (Relay.Conn n)) (fp raw : List ℕ) → Keeps (route_to n o fp raw)
  unfolding Keeps Sound
  route_to-Keeps none fp raw (s, w) u = enqueue_mailbox-Keeps fp raw (s, w) u
  route_to-Keeps (some conn) fp raw (s, w) (u, v) = elim (Bool-cases (n.send_packet conn raw w).0) [
    | inl good ↦ rw (good) (u, v)
    | inr bad ↦ rw (bad) (
        enqueue_mailbox-Keeps fp raw
          (record s { clients = delete fp s.clients }, (n.send_packet conn raw w).1)
          (u, delete-Unique fp s.clients v))
  ]

  route_packet-Keeps : (raw : List ℕ) → Keeps (route_packet n raw)
  unfolding route_packet Keeps
  route_packet-Keeps raw x u =
      continue-Sound (filled (unmarshal zero_packet raw), x) _ u
        (λ pkt y v. route_to-Keeps (lookup pkt.recipient_fingerprint y.0.clients) _ raw y v)

  finish-Keeps : (fp : List ℕ) (pkts : List (List ℕ)) (k : Option ℕ) → Keeps (finish n fp pkts k)
  unfolding Keeps Sound
  finish-Keeps fp pkts none (s, w) (u, v) = (delete-Unique fp s.mailboxes u, v)
  finish-Keeps fp pkts (some k) (s, w) (u, v) = (insert-Unique fp _ s.mailboxes u, v)

  deliver_mailbox-Keeps : (fp : List ℕ) (conn : Relay.Conn n) → Keeps (deliver_mailbox n fp conn)
  unfolding deliver_mailbox_among Keeps Sound
  deliver_mailbox-Keeps fp conn (s, w) u =
      let pkts = held n fp s in
      let (k, w') = send_loop n conn pkts 0 w in
      elim (Bool-cases (length pkts == 0)) [
        | inl unused ↦ rw (unused) u
        | inr used ↦ rw (used) (finish-Keeps fp pkts k (s, w') u)
      ]

  evict_range-Unique : (t : ℕ) (es m : Map MailboxEntry) → Unique m → Unique (evict_range t es m)
  unfolding evict_range
  evict_range-Unique t [] m u = u
  evict_range-Unique t ((fp, e) ∷ es) m u = elim (Bool-cases (expired t e)) [
    | inl old ↦ rw (old) (evict_range-Unique t es (delete fp m) (delete-Unique fp m u))
    | inr young ↦ rw (young) (evict_range-Unique t es m u)
  ]

  evict_expired_mailboxes-Keeps : Keeps (evict_expired_mailboxes n)
  unfolding evict_expired_mailboxes Keeps Sound
  evict_expired_mailboxes-Keeps (s, w) (u, v) = (evict_range-Unique _ s.mailboxes s.mailboxes u, v)

  add_client-Keeps : (fp : List ℕ) (conn : Relay.Conn n) → Keeps (add_client n c fp conn)
  unfolding Keeps Sound
  add_client-Keeps fp conn (s, w) (u, v) = (u, insert-Unique fp conn s.clients v)

  authenticate_client-Keeps : (conn : Relay.Conn n) → Keeps (authenticate_client n c conn)
  unfolding authenticate_client Keeps Sound
  authenticate_client-Keeps conn (s, w) u =
      elim (Result-cases (greet_client n c s.server_id conn w).0) [
        | inl (fp, good) ↦
            rw (good) (add_client-Keeps fp conn (s, (greet_client n c s.server_id conn w).1) u)
        | inr (inl (e, bad)) ↦ rw (bad) (kept u)
        | inr (inr bad) ↦ rw (bad) (kept u)
      ]
    where
      kept : Sound (s, w) → Sound (s, (greet_client n c s.server_id conn w).1)
      kept v = v

  pub perform-Sound : (e : Event n) (x : State) → Sound x → Sound (perform e x)
  unfolding perform Keeps
  perform-Sound (authenticate conn) x u = authenticate_client-Keeps conn x u
  perform-Sound (route raw) x u = route_packet-Keeps raw x u
  perform-Sound (deliver fp conn) x u = deliver_mailbox-Keeps fp conn x u
  perform-Sound collect x u = evict_expired_mailboxes-Keeps x u

  run-Sound : (es : List (Event n)) (x : State) → Sound x → Sound (run es x)
  unfolding run
  run-Sound [] x u = u
  run-Sound (e ∷ es) x u = run-Sound es (perform e x) (perform-Sound e x u)

  -- However the calls of its clients and of the garbage collection follow one another, a server that
  -- started empty holds at most one mailbox and one connection under each fingerprint.
  pub run-Unique :
      (es : List (Event n)) (id : Identity) (w : Relay.World n)
      → Unique (run es (empty_server n id, w)).0.mailboxes
        × Unique (run es (empty_server n id, w)).0.clients
  unfolding Sound Unique
  run-Unique es id w = run-Sound es (empty_server n id, w) (tt, tt)
