-- ===== src/Peer.antt =====
-- cmd/palagos/main.go: the commands of a peer. The listener answers a handshake and prints what it
-- decrypts; the sender opens a handshake and encrypts line by line. Flags, the prompt and the
-- printing of banners are left out; what a command prints of the protocol is a value.
mod Flags
pub mod Wire
pub mod Conversation
pub mod Dialogue
pub mod Typing
pub mod Listening
pub mod Keys
mod Tests
unfoldable pub use Flags.{hex_argument, identity_of_key, peer_of_flag, pinned_peer}
use pelagos.Base.{
  ℕ, zero, suc, List, [], ◌∷◌, ◌++◌, Bool, true, false, not, Option, none, some, Result, Error, ok,
  err, panic, length, ◌==◌, ltb, if◌then◌else◌, or_fail, guard, take, drop,
}
use pelagos.Base.State.{Act, ◌>>=◌, ◌>>◌, pure, lift, continue, go_on}
use pelagos.Crypto.Library.{GoCrypto}
use pelagos.Identity.{Identity, PeerIdentity, new_peer_identity, generate_identity}
use pelagos.Identity.Format.{hex_encode}
use pelagos.Packet.{Packet, zero_packet, marshal, unmarshal, filled, message_type_handshake_init}
use pelagos.Session.{
  Session, new_session, create_handshake_init, process_handshake_init, complete_initiator_handshake,
  encrypt_message, decrypt_message,
}
use pelagos.Transport.{PacketConn}

-- What `handleIncomingConn` takes for the peer. `initPkt.Payload[:32]` is out of range for a shorter
-- payload.
unfoldable pub remote_peer : Option PeerIdentity → Packet → Result PeerIdentity
remote_peer (some p) pkt = ok p
remote_peer none pkt =
    if ltb (length pkt.payload) 32
    then panic
    else ok (record { public_key = take 32 pkt.payload; alias = [] })

-- What the listener prints for a frame: the number and the text of a message, or the error.
pub data Line : Type 0 where
  shown : ℕ → List ℕ → Line
  refused : Error → Line

-- A packet from the bytes of a frame.
abbrev pub parsed : List ℕ → Result Packet
parsed raw = filled (unmarshal zero_packet raw)

module _ (c : GoCrypto) where
  -- `handleGenIdentity`: the keys as they are printed, public key first.
  unfoldable pub gen_identity : Act (GoCrypto.Rng c) (List ℕ × List ℕ)
  gen_identity = do
    id ← generate_identity c
    pure (hex_encode id.public_key, hex_encode id.private_key)

  abbrev pub SessionAct : Type 0 → Type 0
  SessionAct A = Act (Session c × GoCrypto.Rng c) A

  -- The part of `handleSend` that makes the first frame.
  unfoldable pub initiate : SessionAct (List ℕ × GoCrypto.PrivateKey c)
  initiate = do
    (init_pkt, ephemeral_priv) ← create_handshake_init c
    init_bytes ← lift (marshal init_pkt)
    pure (init_bytes, ephemeral_priv)

  -- The part of `handleSend` that reads the answer.
  unfoldable pub finish_handshake : GoCrypto.PrivateKey c → List ℕ → SessionAct (Unit {0})
  finish_handshake ephemeral_priv raw_resp = do
    resp_pkt ← lift (parsed raw_resp)
    complete_initiator_handshake c resp_pkt (some ephemeral_priv)

  -- `sendEncryptedMessage` up to the sending: the sequence number and the frame.
  unfoldable pub seal_text : List ℕ → SessionAct (ℕ × List ℕ)
  seal_text plaintext = do
    data_pkt ← encrypt_message c plaintext
    data_bytes ← lift (marshal data_pkt)
    pure (data_pkt.sequence, data_bytes)

  -- One round of the listener's loop behind the receiving: the number and the text to print.
  unfoldable pub open_text : List ℕ → SessionAct (ℕ × List ℕ)
  open_text raw_data = do
    data_pkt ← lift (parsed raw_data)
    plaintext ← decrypt_message c data_pkt
    pure (data_pkt.sequence, plaintext)

  -- A call on a session that is made here, with the session that it leaves.
  abbrev with_session :
      {A : Type 0}
      → Result A × (Session c × GoCrypto.Rng c)
      → Result (A × Session c) × GoCrypto.Rng c
  with_session (ok a, (s, g)) = (ok (a, s), g)
  with_session (err e, (s, g)) = (err e, g)
  with_session (panic, (s, g)) = (panic, g)

  abbrev pub on_session :
      {A : Type 0} → SessionAct A → Session c → Act (GoCrypto.Rng c) (A × Session c)
  on_session f s g = with_session (f (s, g))

  -- `handleIncomingConn` between the first frame and the answer to it.
  unfoldable pub answer_init :
      Identity → Option PeerIdentity → List ℕ → Act (GoCrypto.Rng c) (List ℕ × Session c)
  answer_init local_id peer_id raw_init = do
    init_pkt ← lift (parsed raw_init)
    lift (guard (init_pkt.type == message_type_handshake_init) Error.wrong_type)
    peer ← lift (remote_peer peer_id init_pkt)
    (resp_pkt, session) ←
        on_session (process_handshake_init c init_pkt) (new_session c local_id (some peer))
    resp_bytes ← lift (marshal resp_pkt)
    pure (resp_bytes, session)

  module _ (n : PacketConn) where
    open n use {Conn, send_packet, receive_packet}

    -- A handler runs on the random source and its connection.
    abbrev pub HandlerAct : Type 0 → Type 0
    HandlerAct A = Act (GoCrypto.Rng c × Conn) A

    abbrev pub on_rng : {A : Type 0} → Act (GoCrypto.Rng c) A → HandlerAct A
    on_rng f (g, w) = ((f g).0, ((f g).1, w))

    abbrev pub on_conn : {A : Type 0} → Act Conn A → HandlerAct A
    on_conn f (g, w) = ((f w).0, (g, (f w).1))

    -- `handleIncomingConn` up to its loop.
    unfoldable pub accept_session : Identity → Option PeerIdentity → HandlerAct (Session c)
    accept_session local_id peer_id = do
      raw_init ← on_conn receive_packet
      (resp_bytes, session) ← on_rng (answer_init local_id peer_id raw_init)
      on_conn (send_packet resp_bytes)
      pure session

    -- `handleSend` from the connection to the established session.
    unfoldable pub connect : Identity → PeerIdentity → HandlerAct (Session c)
    connect local_id peer_id = do
      ((init_bytes, priv), session) ←
          on_rng (on_session initiate (new_session c local_id (some peer_id)))
      on_conn (send_packet init_bytes)
      raw_resp ← on_conn receive_packet
      (_, session) ← on_rng (on_session (finish_handshake priv raw_resp) session)
      pure session

    pub record Sender : Type 0 where
      pub session : Session c
      pub rng : GoCrypto.Rng c
      pub conn : Conn

    abbrev pub SenderAct : Type 0 → Type 0
    SenderAct A = Act Sender A

    abbrev in_session : {A : Type 0} → SessionAct A → SenderAct A
    in_session f l =
        let r = f (l.session, l.rng) in (r.0, record l { session = r.1.0; rng = r.1.1 })

    abbrev send_frame : List ℕ → SenderAct (Unit {0})
    send_frame raw l = ((send_packet raw l.conn).0, record l { conn = (send_packet raw l.conn).1 })

    -- The sequence number is what is printed.
    unfoldable pub send_encrypted_message : List ℕ → SenderAct ℕ
    send_encrypted_message plaintext = do
      (seq, data_bytes) ← in_session (seal_text plaintext)
      send_frame data_bytes
      pure seq

    -- An error is printed, and the next line is read.
    abbrev next_line :
        (Sender → Result (Unit {0}) × Sender) → Result ℕ × Sender → Result (Unit {0}) × Sender
    next_line others (ok seq, l) = others l
    next_line others (err e, l) = others l
    next_line others (panic, l) = (panic, l)

    -- The interactive loop over the lines of the standard input; `trim` is `strings.TrimSpace`.
    unfoldable pub send_lines : (List ℕ → List ℕ) → List (List ℕ) → SenderAct (Unit {0})
    send_lines trim [] l = (ok tt, l)
    send_lines trim (line ∷ lines) l =
        let others : Sender → Result (Unit {0}) × Sender = send_lines trim lines in
        if length (trim line) == 0
        then others l
        else next_line others (send_encrypted_message (trim line) l)

    -- What is printed for a frame that was received. A panic ends the process.
    abbrev pub line_of : Result (ℕ × List ℕ) → Result Line
    line_of (ok (seq, m)) = ok (shown seq m)
    line_of (err e) = ok (refused e)
    line_of panic = panic

    pub record Listener : Type 0 where
      pub session : Session c
      pub rng : GoCrypto.Rng c
      pub conn : Conn
      pub printed : List Line

    abbrev pub ListenerAct : Type 0 → Type 0
    ListenerAct A = Act Listener A

    abbrev next_frame : ListenerAct (List ℕ)
    next_frame l = ((receive_packet l.conn).0, record l { conn = (receive_packet l.conn).1 })

    abbrev print_frame : List ℕ → ListenerAct Line
    print_frame raw l =
        let r = open_text raw (l.session, l.rng) in
        (line_of r.0, record l { session = r.1.0; rng = r.1.1 })

    abbrev print_line : Line → ListenerAct (Unit {0})
    print_line line l = (ok tt, record l { printed = l.printed ++ (line ∷ []) })

    -- One round of the loop; an error is one of receiving, which ends the loop.
    unfoldable pub listen_round : ListenerAct (Unit {0})
    listen_round = do raw_data ← next_frame; line ← print_frame raw_data; print_line line

    -- `none` means that the fuel ran out.
    unfoldable pub listen_loop : ℕ → Listener → Option (Result (Unit {0}) × Listener)
    listen_loop zero l = none
    listen_loop (suc fuel) l = go_on (listen_loop fuel) (listen_round l)
