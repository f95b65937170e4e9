-- ===== src/Server/Receiving.antt =====
-- What a connection of the relay still brings: each call of server.go leaves no more of it.
use pelagos.Base.{
  ℕ, ◌+◌, ◌<◌, ◌≤◌, ◌==◌, ◌≡◌, List, [], ◌∷◌, ◌++◌, Option, none, some, Error, length, Bool-cases,
  Result-cases, inl, inr, arith,
}
use pelagos.Base.Maps.{lookup}
use pelagos.Base.Text.{codes}
use pelagos.Crypto.Library.{GoCrypto}
use pelagos.Identity.{Identity, new_peer_identity, sign}
use pelagos.Packet.{filled, zero_packet, unmarshal}
use pelagos.Transport.{max_frame}
use pelagos.Server.{
  Relay, ServerAct, authenticate_client, greet_client, deliver_mailbox, deliver_mailbox_among,
  route_packet, route_to, enqueue_mailbox, of_length, send_loop, held, finish,
}
use pelagos.Server.Command.{State}

-- What the loop relies on of a connection: a packet that is received is one of those that its client
-- still sends and within the limit of a frame, and no other call adds to them.
pub record FiniteClient (n : Relay) (conn : Relay.Conn n) : Type 1 where
  pub pending : Relay.World n → ℕ
  pub receive_consumes :
      (w : Relay.World n) (p : List ℕ)
      → (n.receive_packet conn w).0 ≡ some p
      → pending (n.receive_packet conn w).1 < pending w
  pub receive_limit :
      (w : Relay.World n) (p : List ℕ) → (n.receive_packet conn w).0 ≡ some p → length p ≤ max_frame
  pub receive_keeps : (w : Relay.World n) → pending (n.receive_packet conn w).1 ≤ pending w
  pub send_keeps :
      (to : Relay.Conn n) (p : List ℕ) (w : Relay.World n)
      → pending (n.send_packet to p w).1 ≤ pending w

module _ (n : Relay) (c : GoCrypto) (conn : Relay.Conn n) (F : FiniteClient n conn) where
  -- A call leaves no more to receive than before.
  abbrev Falls : {A : Type 0} → ServerAct n A → Type 0
  Falls f = (x : State n c) → F.pending (f x).1.1 ≤ F.pending x.1

  send_loop-Falls :
      (to : Relay.Conn n) (ps : List (List ℕ)) (k : ℕ) (w : Relay.World n)
      → F.pending (send_loop n to ps k w).1 ≤ F.pending w
  unfolding send_loop
  send_loop-Falls to [] k w = omega arith
  send_loop-Falls to (p ∷ ps) k w = elim (Bool-cases (n.send_packet to p w).0) [
    | inl sent ↦
        let rest = send_loop-Falls to ps (k + 1) (n.send_packet to p w).1 in
        rw (sent) (omega (arith, rest, F.send_keeps to p w))
    | inr failed ↦ rw (failed) (F.send_keeps to p w)
  ]

  finish-Falls : (fp : List ℕ) (pkts : List (List ℕ)) (k : Option ℕ) → Falls (finish n fp pkts k)
  finish-Falls fp pkts none x = omega arith
  finish-Falls fp pkts (some k) x = omega arith

  pub deliver_mailbox-Falls : (fp : List ℕ) (to : Relay.Conn n) → Falls (deliver_mailbox n fp to)
  unfolding deliver_mailbox_among
  deliver_mailbox-Falls fp to (s, w) = elim (Bool-cases (length (held n fp s) == 0)) [
    | inl unused ↦ rw (unused) (omega arith)
    | inr used ↦
        let pkts = held n fp s in
        let (k, w') = send_loop n to pkts 0 w in
        let sent = send_loop-Falls to pkts 0 w in
        rw (used) (omega (arith, finish-Falls fp pkts k (s, w'), sent))
  ]

  route_to-Falls : (o : Option (Relay.Conn n)) (fp raw : List ℕ) → Falls (route_to n o fp raw)
  unfolding enqueue_mailbox
  route_to-Falls none fp raw x = omega arith
  route_to-Falls (some to) fp raw (s, w) = elim (Bool-cases (n.send_packet to raw w).0) [
    | inl good ↦ rw (good) (F.send_keeps to raw w)
    | inr bad ↦ rw (bad) (F.send_keeps to raw w)
  ]

  pub route_packet-Falls : (raw : List ℕ) → Falls (route_packet n raw)
  unfolding route_packet
  route_packet-Falls raw (s, w) = elim (Result-cases (filled (unmarshal zero_packet raw))) [
    | inl (pkt, e) ↦
        rw (e) (route_to-Falls (lookup pkt.recipient_fingerprint s.clients) _ raw (s, w))
    | inr (inl (problem, e)) ↦ rw (e) (omega arith)
    | inr (inr e) ↦ rw (e) (omega arith)
  ]

  greet_client-Falls :
      (id : Identity) (w : Relay.World n) → F.pending (greet_client n c id conn w).1 ≤ F.pending w
  unfolding greet_client
  greet_client-Falls id w =
      let w1 = (n.receive_packet conn w).1 in
      let h1 = F.receive_keeps w in
      elim (Result-cases (of_length 32 (n.receive_packet conn w).0 Error.bad_challenge)) [
        | inr (inl (_, e)) ↦ rw (e) h1
        | inr (inr e) ↦ rw (e) h1
        | inl (challenge, e) ↦ elim (Result-cases (sign c id challenge)) [
          | inr (inl (_, f)) ↦ rw (e, f) h1
          | inr (inr f) ↦ rw (e, f) h1
          | inl (sig, f) ↦
              let reply = id.public_key ++ sig in
              let w2 = (n.send_packet conn reply w1).1 in
              let w3 = (n.receive_packet conn w2).1 in
              let h2 : F.pending w2 ≤ F.pending w = omega (arith, h1, F.send_keeps conn reply w1) in
              let h3 : F.pending w3 ≤ F.pending w = omega (arith, h2, F.receive_keeps w2) in
              elim (Bool-cases (n.send_packet conn reply w1).0) [
                | inr unsent ↦ rw (e, f, unsent) h2
                | inl sent ↦
                    elim (Result-cases
                      (of_length 32 (n.receive_packet conn w2).0 Error.no_client_identity)) [
                        | inr (inl (_, k)) ↦ rw (e, f, sent, k) h3
                        | inr (inr k) ↦ rw (e, f, sent, k) h3
                        | inl (auth, k) ↦
                            elim (Result-cases (new_peer_identity auth (codes "client"))) [
                              | inr (inl (_, l)) ↦ rw (e, f, sent, k, l) h3
                              | inr (inr l) ↦ rw (e, f, sent, k, l) h3
                              | inl (_, l) ↦ rw (e, f, sent, k, l) h3
                            ]
                      ]
              ]
        ]
      ]

  pub authenticate_client-Falls : Falls (authenticate_client n c conn)
  unfolding authenticate_client
  authenticate_client-Falls (s, w) = elim (Result-cases (greet_client n c s.server_id conn w).0) [
    | inl (fp, good) ↦ rw (good) (greet_client-Falls s.server_id w)
    | inr (inl (e, bad)) ↦ rw (bad) (greet_client-Falls s.server_id w)
    | inr (inr bad) ↦ rw (bad) (greet_client-Falls s.server_id w)
  ]
