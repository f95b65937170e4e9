-- ===== src/Server.antt =====
-- pkg/server/server.go: the relay. A method runs on the server together with the world that its
-- connections and its clock belong to. The mutex is not held while a packet is sent: what other
-- goroutines do to the server meanwhile is an argument of `deliver_mailbox_among`.
pub mod Unique
pub mod Routing
pub mod Delivery
pub mod Reachable
pub mod Offline
pub mod Eviction
pub mod Auth
pub mod Command
pub mod Safety
pub mod Receiving
pub mod Handler
mod Tests
use pelagos.Base.{
  ℕ, ◌+◌, ◌*◌, ◌==◌, List, [], ◌∷◌, ◌++◌, Bool, true, false, not, ◌&&◌, ◌||◌, Option, none, some,
  Result, Error, ok, err, panic, length, ltb, if◌then◌else◌, or_fail, guard, take, drop,
}
use pelagos.Base.Maps.{Map, lookup, insert, delete, bytes_equal}
use pelagos.Base.State.{Act, ◌>>=◌, ◌>>◌, pure, lift, continue}
use pelagos.Base.Text.{codes}
use pelagos.Crypto.Library.{GoCrypto}
use pelagos.Crypto.Random.{secure_random, verify_signature}
use pelagos.Identity.{
  Identity, PeerIdentity, new_peer_identity, peer_fingerprint, sign, generate_identity,
}
use pelagos.Packet.{Packet, zero_packet, unmarshal, filled}

-- What the relay uses of its surroundings: the interface `transport.Conn`, whose `SendPacket`
-- reports an error by `false` and whose `ReceivePacket` reports one by `none`, and `time.Now` in
-- seconds.
pub record Relay : Type 1 where
  pub Conn : Type 0
  pub World : Type 0
  pub send_packet : Conn → List ℕ → World → Bool × World
  pub receive_packet : Conn → World → Option (List ℕ) × World
  pub close : Conn → World → World
  pub now : World → ℕ

-- 72 hours.
abbrev pub mailbox_ttl : ℕ
mailbox_ttl = 72 * 3600

pub record MailboxEntry : Type 0 where
  pub packets : List (List ℕ)
  pub created_at : ℕ

pub record Server (Conn : Type 0) : Type 0 where
  pub server_id : Identity
  pub mailboxes : Map MailboxEntry
  pub clients : Map Conn

-- The packets that wait for a recipient.
abbrev pub packets_of : Option MailboxEntry → List (List ℕ)
packets_of none = []
packets_of (some e) = e.packets

abbrev pub entry_or_new : Option MailboxEntry → ℕ → MailboxEntry
entry_or_new none t = record { packets = []; created_at = t }
entry_or_new (some e) t = e

abbrev pub expired : ℕ → MailboxEntry → Bool
expired t e = ltb (e.created_at + mailbox_ttl) t

-- The range over the entries `es` in `evictExpiredMailboxes`, with its deletions from `m`.
unfoldable pub evict_range : ℕ → Map MailboxEntry → Map MailboxEntry → Map MailboxEntry
evict_range t [] m = m
evict_range t ((fp, e) ∷ es) m = evict_range t es (if expired t e then delete fp m else m)

-- A packet that must have a given length.
abbrev pub of_length : ℕ → Option (List ℕ) → Error → Result (List ℕ)
of_length k none e = err e
of_length k (some b) e = if length b == k then ok b else err e

module _ (c : GoCrypto) where
  -- The checks on the server's answer.
  unfoldable pub check_response : List ℕ → List ℕ → List ℕ → Result (Unit {0})
  check_response expected challenge resp =
      let server_pub = take 32 resp in
      if not (length expected == 0) && not (bytes_equal server_pub expected)
      then err Error.impersonation
      else if verify_signature c server_pub challenge (drop 32 resp)
      then ok tt
      else err Error.server_unauthenticated

module _ (n : Relay) where
  open n use {Conn, World, send_packet, receive_packet, now}

  abbrev pub ServerAct : Type 0 → Type 0
  ServerAct A = Act (Server Conn × World) A

  abbrev pub held : List ℕ → Server Conn → List (List ℕ)
  held fp s = packets_of (lookup fp s.mailboxes)

  abbrev pub get_server : ServerAct (Server Conn)
  get_server (s, w) = (ok s, (s, w))

  abbrev pub send : Conn → List ℕ → ServerAct Bool
  send conn p (s, w) = (ok (send_packet conn p w).0, (s, (send_packet conn p w).1))

  unfoldable pub evict_expired_mailboxes : ServerAct (Unit {0})
  evict_expired_mailboxes (s, w) =
      (ok tt, (record s { mailboxes = evict_range (now w) s.mailboxes s.mailboxes }, w))

  unfoldable pub enqueue_mailbox : List ℕ → List ℕ → ServerAct (Unit {0})
  enqueue_mailbox fp raw (s, w) =
      let e = entry_or_new (lookup fp s.mailboxes) (now w) in
      let grown = record e { packets = e.packets ++ (raw ∷ []) } in
      (ok tt, (record s { mailboxes = insert fp grown s.mailboxes }, w))

  abbrev pub drop_client : List ℕ → ServerAct (Unit {0})
  drop_client fp (s, w) = (ok tt, (record s { clients = delete fp s.clients }, w))

  -- After the look-up of the recipient's connection.
  abbrev pub route_to : Option Conn → List ℕ → List ℕ → ServerAct (Unit {0})
  route_to none fp raw = enqueue_mailbox fp raw
  route_to (some conn) fp raw = do
    sent ← send conn raw
    if sent then pure tt else do drop_client fp; enqueue_mailbox fp raw

  unfoldable pub route_packet : List ℕ → ServerAct (Unit {0})
  route_packet raw = do
    pkt ← lift (filled (unmarshal zero_packet raw))
    s ← get_server
    route_to (lookup pkt.recipient_fingerprint s.clients) pkt.recipient_fingerprint raw

  -- The sending loop of `DeliverMailbox`: the index at which a packet could not be sent.
  unfoldable pub send_loop : Conn → List (List ℕ) → ℕ → World → Option ℕ × World
  send_loop conn [] sent_count w = (none, w)
  send_loop conn (p ∷ ps) sent_count w =
      let (sent, w') = send_packet conn p w in
      let rest = send_loop conn ps (sent_count + 1) w' in
      if sent then rest else (some sent_count, w')

  -- What the method does when it has the mutex again.
  abbrev pub finish : List ℕ → List (List ℕ) → Option ℕ → ServerAct (Unit {0})
  finish fp pkts none (s, w) = (ok tt, (record s { mailboxes = delete fp s.mailboxes }, w))
  finish fp pkts (some sent_count) (s, w) =
      let e = entry_or_new (lookup fp s.mailboxes) (now w) in
      let back = record e { packets = drop sent_count pkts ++ e.packets } in
      (err Error.delivery_failed, (record s { mailboxes = insert fp back s.mailboxes }, w))

  abbrev pub run_loop : Conn → List (List ℕ) → ServerAct (Option ℕ)
  run_loop conn pkts (s, w) = (ok (send_loop conn pkts 0 w).0, (s, (send_loop conn pkts 0 w).1))

  -- The method behind the early return, with the packets `pkts` copied from the mailbox. What other
  -- goroutines do to the server between the two critical sections is `others`.
  abbrev pub flush : ServerAct (Unit {0}) → List ℕ → Conn → List (List ℕ) → ServerAct (Unit {0})
  flush others fp conn pkts = do failed ← run_loop conn pkts; others; finish fp pkts failed

  unfoldable pub deliver_mailbox_among : ServerAct (Unit {0}) → List ℕ → Conn → ServerAct (Unit {0})
  deliver_mailbox_among others fp conn = do
    s ← get_server
    if length (held fp s) == 0 then pure tt else flush others fp conn (held fp s)

  -- The same with nothing in between.
  abbrev pub deliver_mailbox : List ℕ → Conn → ServerAct (Unit {0})
  deliver_mailbox = deliver_mailbox_among (pure tt)

  -- The server that `NewServer` makes around an identity.
  abbrev pub empty_server : Identity → Server Conn
  empty_server id = record { server_id = id; mailboxes = []; clients = [] }

  module _ (c : GoCrypto) where
    unfoldable pub new_server : Act (GoCrypto.Rng c) (Server Conn)
    new_server = do server_id ← generate_identity c; pure (empty_server server_id)

    abbrev pub add_client : List ℕ → Conn → ServerAct (Unit {0})
    add_client fp conn (s, w) = (ok tt, (record s { clients = insert fp conn s.clients }, w))

    abbrev pub receive : Conn → Act World (Option (List ℕ))
    receive conn w = (ok (receive_packet conn w).0, (receive_packet conn w).1)

    abbrev pub send_out : Conn → List ℕ → Act World Bool
    send_out conn p w = (ok (send_packet conn p w).0, (send_packet conn p w).1)

    -- `AuthenticateClient` up to its critical section.
    unfoldable pub greet_client : Identity → Conn → Act World (List ℕ)
    greet_client server_id conn = do
      received ← receive conn
      challenge ← lift (of_length 32 received Error.bad_challenge)
      server_sig ← lift (sign c server_id challenge)
      sent ← send_out conn (server_id.public_key ++ server_sig)
      lift (guard sent Error.send_failure)
      received ← receive conn
      client_auth_pkt ← lift (of_length 32 received Error.no_client_identity)
      client_peer ← lift (new_peer_identity client_auth_pkt (codes "client"))
      pure (peer_fingerprint c client_peer)

    abbrev pub on_world : {A : Type 0} → Act World A → ServerAct A
    on_world f (s, w) = ((f w).0, (s, (f w).1))

    unfoldable pub authenticate_client : Conn → ServerAct (List ℕ)
    authenticate_client conn = do
      s ← get_server
      client_fp ← on_world (greet_client s.server_id conn)
      add_client client_fp conn
      pure client_fp

    -- The client's side runs on the world and its random source.
    abbrev pub draw : {A : Type 0} → Act (GoCrypto.Rng c) A → Act (World × GoCrypto.Rng c) A
    draw f (w, g) = ((f g).0, (w, (f g).1))

    abbrev pub client_send : Conn → List ℕ → Act (World × GoCrypto.Rng c) Bool
    client_send conn p (w, g) = (ok (send_packet conn p w).0, ((send_packet conn p w).1, g))

    abbrev pub client_receive : Conn → Act (World × GoCrypto.Rng c) (Option (List ℕ))
    client_receive conn (w, g) = (ok (receive_packet conn w).0, ((receive_packet conn w).1, g))

    unfoldable pub verify_server_identity : Conn → List ℕ → Act (World × GoCrypto.Rng c) (Unit {0})
    verify_server_identity conn expected_server_pub = do
      challenge ← draw (secure_random c 32)
      sent ← client_send conn challenge
      lift (guard sent Error.send_failure)
      received ← client_receive conn
      resp ← lift (of_length 96 received Error.bad_auth_response)
      lift (check_response c expected_server_pub challenge resp)
