-- ===== src/Server/Routing.antt =====
-- `RoutePacket` of server.go.
use pelagos.Base.{
  ℕ, ◌≡◌, refl, List, [], ◌∷◌, ◌++◌, Bool, false, not, ◌&&◌, Option, none, some, Result, Error, ok,
  err, panic, if◌then◌else◌, Bool-cases, inl, inr,
}
use pelagos.Base.Maps.{lookup, delete, bytes_equal, bytes_equal_iff, lookup-insert}
use pelagos.Packet.{filled, Packet, zero_packet, unmarshal}
use pelagos.Server.{
  Relay, Server, MailboxEntry, held, packets_of, entry_or_new, enqueue_mailbox, route_packet,
  route_to,
}

pub packets_of-entry_or_new :
    (o : Option MailboxEntry) (t : ℕ) → (entry_or_new o t).packets ≡ packets_of o
packets_of-entry_or_new none t = refl
packets_of-entry_or_new (some e) t = refl

filled-err : (r : Result (Unit {0}) × Packet) (e : Error) → r.0 ≡ err e → filled r ≡ err e
filled-err (ok _, p) e h = cc h
filled-err (err d, p) e h = cc h
filled-err (panic, p) e h = cc h

module _ (n : Relay) where
  pub enqueue_mailbox_lem :
      (fp raw k : List ℕ) (s : Server (Relay.Conn n)) (w : Relay.World n)
      → held n k (enqueue_mailbox n fp raw (s, w)).1.0
        ≡ (if bytes_equal fp k then held n k s ++ (raw ∷ []) else held n k s)
  unfolding enqueue_mailbox
  enqueue_mailbox_lem fp raw k s w = elim (Bool-cases (bytes_equal fp k)) [
    | inl same ↦
        let e : fp ≡ k = (bytes_equal_iff fp k).0 same in
        rw (lookup-insert, same, packets_of-entry_or_new, e)
    | inr other ↦ rw (lookup-insert, other)
  ]

  -- Sending to a client, if there is one: whether the packet was sent, and the world afterwards.
  abbrev pub attempt : Option (Relay.Conn n) → List ℕ → Relay.World n → Bool × Relay.World n
  attempt none raw w = (false, w)
  attempt (some conn) raw w = n.send_packet conn raw w

  -- A packet that decodes is never lost: either it is sent on the recipient's connection, or it waits
  -- behind the packets in the recipient's mailbox. No other mailbox changes, and no error is reported.
  pub route_packet-keeps :
      (raw k : List ℕ) (pkt : Packet) (s : Server (Relay.Conn n)) (w : Relay.World n)
      → unmarshal zero_packet raw ≡ (ok tt, pkt)
      → let fp = pkt.recipient_fingerprint in
        let sent = attempt (lookup fp s.clients) raw w in
        let after = route_packet n raw (s, w) in
        (after.0 ≡ ok tt)
        × (after.1.1 ≡ sent.1)
        × (held n k after.1.0
            ≡ (if not sent.0 && bytes_equal fp k then held n k s ++ (raw ∷ []) else held n k s))
  unfolding route_packet enqueue_mailbox
  route_packet-keeps raw k pkt s w decoded = rw (decoded) (routed (lookup fp s.clients))
    where
      fp : List ℕ
      fp = pkt.recipient_fingerprint

      routed :
          (o : Option (Relay.Conn n))
          → let after = route_to n o fp raw (s, w) in
            (after.0 ≡ ok tt)
            × (after.1.1 ≡ (attempt o raw w).1)
            × (held n k after.1.0 ≡ (
                if not (attempt o raw w).0 && bytes_equal fp k
                then held n k s ++ (raw ∷ [])
                else held n k s))
      routed none = (refl, refl, enqueue_mailbox_lem fp raw k s w)
      routed (some conn) = elim (Bool-cases (n.send_packet conn raw w).0) [
        | inl good ↦ rw (good) (refl, refl, refl)
        | inr bad ↦ rw (bad) (
          refl,
          refl,
          enqueue_mailbox_lem fp raw k (record s { clients = delete fp s.clients })
              (n.send_packet conn raw w).1,
        )
      ]

  -- A packet that does not decode changes nothing, and its error is reported.
  pub route_packet-refuses :
      (raw : List ℕ) (e : Error) (s : Server (Relay.Conn n)) (w : Relay.World n)
      → (unmarshal zero_packet raw).0 ≡ err e
      → route_packet n raw (s, w) ≡ (err e, (s, w))
  unfolding route_packet
  route_packet-refuses raw e s w h = rw (filled-err (unmarshal zero_packet raw) e h)
