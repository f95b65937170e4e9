-- ===== src/Peer/Conversation.antt =====
-- The handshake of the commands `send` and `listen` of main.go, frame by frame.
use pelagos.Base.{
  ℕ, ◌≤◌, ◌≡◌, refl, ap, List, some, Result, Error, ok, err, length, length-append, ltb,
  if◌then◌else◌, arith,
}
use pelagos.Base.State.{Act, ◌>>=◌, pure, lift}
use pelagos.Crypto.Library.{GoCrypto}
use pelagos.Crypto.Laws.{GoCryptoLaws}
use pelagos.Identity.{Identity, PeerIdentity}
use pelagos.Identity.Laws.{SigningLaws}
use pelagos.Packet.{Packet, message_type_handshake_init, message_type_handshake_resp}
use pelagos.Packet.Wire.{wire, length-wire}
use pelagos.Peer.{initiate, finish_handshake, answer_init, remote_peer, on_session}
use pelagos.Peer.Wire.{Travels, Travels-parsed, handshake-Travels}
use pelagos.Session.{Session, new_session}
use pelagos.Session.Delivery.{up}
use pelagos.Session.Handshake.{Shaken, fresh, opened, packet_of, payload_of, packet_of-fields}
use pelagos.Session.Steps.{Trusted, signed}
use pelagos.Transport.{max_frame}

-- What `SendPacket` accepts is what `ReceivePacket` yields at the other end.
unfoldable pub in_frame : List ℕ → Result (List ℕ)
in_frame raw = if ltb max_frame (length raw) then err Error.frame_limit else ok raw

pub in_frame_lem : (raw : List ℕ) → length raw ≤ max_frame → in_frame raw ≡ ok raw
unfolding in_frame
in_frame_lem raw h = ground arith

module _ (c : GoCrypto) where
  -- `handleSend` against `handleIncomingConn` up to the established sessions.
  unfoldable pub wire_handshake :
      Identity
      → PeerIdentity
      → Identity
      → PeerIdentity
      → Act (GoCrypto.Rng c) (Session c × Session c)
  wire_handshake alice of_bob bob of_alice = do
    ((init_bytes, priv), a) ← on_session c (initiate c) (new_session c alice (some of_bob))
    raw_init ← lift (in_frame init_bytes)
    (resp_bytes, b) ← answer_init c bob (some of_alice) raw_init
    raw_resp ← lift (in_frame resp_bytes)
    (_, a) ← on_session c (finish_handshake c priv raw_resp) a
    pure (a, b)

module _ (c : GoCrypto) (L : GoCryptoLaws c) (S : SigningLaws c) (alice bob : Identity)
    (of_alice of_bob : PeerIdentity) (ta : Trusted c S alice of_alice) (tb : Trusted c S bob of_bob)
    (g : GoCrypto.Rng c) where
  -- The signed packet of one side.
  abbrev hello : Identity → PeerIdentity → ℕ → GoCrypto.PublicKey c → Packet
  hello id peer type k =
      signed c id (packet_of c L S alice bob of_alice of_bob ta tb g id peer type k)

  hello_lem :
      (id : Identity) (peer : PeerIdentity) (type : ℕ) (k : GoCrypto.PublicKey c)
      → Travels (hello id peer type k) × (length (wire (hello id peer type k)) ≡ 299)
  hello_lem id peer type k =
      let fields = packet_of-fields c L S alice bob of_alice of_bob ta tb g id peer type k in
      let size : length (payload_of c L S alice bob of_alice of_bob ta tb g id k) ≡ 96 = omega (
        arith,
        length-append (c.public_bytes k) (c.ed25519_sign id.private_key (c.public_bytes k)),
        L.public_bytes_size k,
        S.signature_size id.private_key (c.public_bytes k),
      ) in
      let start : (fresh c id peer).epoch ≡ 1 = unfold new_session in refl in
      let travels =
        handshake-Travels c S id (fresh c id peer) peer type (c.public_bytes k)
          (payload_of c L S alice bob of_alice of_bob ta tb g id k) start size in
      (
        travels,
        omega (arith, length-wire (hello id peer type k) travels.arrays, size, ap length fields.1),
      )

  pub wire_handshake_lem :
      (h : Shaken c L S alice bob of_alice of_bob ta tb g)
      → wire_handshake c alice of_bob bob of_alice g
        ≡ (ok (up c (opened c alice of_bob h.ra), up c (opened c bob of_alice h.rb)), h.g3)
  unfolding wire_handshake initiate answer_init finish_handshake remote_peer
  wire_handshake_lem h =
      let p1 = c.public_key h.k1 in
      let p2 = c.public_key h.k2 in
      let (t1, z1) = hello_lem alice of_bob message_type_handshake_init p1 in
      let (t2, z2) = hello_lem bob of_alice message_type_handshake_resp p2 in
      let first = hello alice of_bob message_type_handshake_init p1 in
      let second = hello bob of_alice message_type_handshake_resp p2 in
      let fields =
        packet_of-fields c L S alice bob of_alice of_bob ta tb g alice of_bob
          message_type_handshake_init p1 in
      rw (
        h.created,
        (Travels-parsed first t1).0,
        in_frame_lem (wire first) (omega (arith, z1)),
        (Travels-parsed first t1).1,
        fields.2,
        h.answered,
        (Travels-parsed second t2).0,
        in_frame_lem (wire second) (omega (arith, z2)),
        (Travels-parsed second t2).1,
        h.completed,
      )
