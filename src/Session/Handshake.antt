-- ===== src/Session/Handshake.antt =====
-- The handshake of session.go: `CreateHandshakeInit`, `ProcessHandshakeInit` and
-- `CompleteInitiatorHandshake`, one after the other, and what the two sessions are afterwards.
use pelagos.Base.{
  ℕ, suc, ◌^◌, ◌<◌, ◌≤◌, ◌≡◌, refl, ◌∙◌, List, [], ◌∷◌, ◌++◌, Bool, true, false, some, Result, ok,
  err, panic, length, ◌==◌, ==_refl, arith,
}
use pelagos.Crypto.Library.{GoCrypto}
use pelagos.Crypto.Random.{rand_reader, generate_ecdh_key_pair, compute_ecdh_shared_secret}
use pelagos.Crypto.Keys.{hkdf_extract_expand}
use pelagos.Crypto.Laws.{GoCryptoLaws, generate_lem, hkdf_lem}
use pelagos.Identity.{Identity, PeerIdentity}
use pelagos.Identity.Laws.{SigningLaws, sign_lem}
use pelagos.Packet.{Packet, message_type_handshake_init, message_type_handshake_resp}
use pelagos.Ratchet.{Ratchet, new_ratchet}
use pelagos.Ratchet.Sync.{Leads, Known}
use pelagos.Ratchet.Conversation.{new_ratchet-Leads}
use pelagos.Replay.{new_replay_window}
use pelagos.Session.{
  Session, new_session, handshake_master, handshake_packet, create_handshake_init,
  process_handshake_init, complete_initiator_handshake, verified_key,
}
use pelagos.Session.Steps.{Trusted, signed, sign_packet_lem, verified_key_lem}
use pelagos.Session.Delivery.{Channel, up}
use pelagos.Session.Conversation.{converse, converse_led, all_read}

abbrev Outcome : GoCrypto → Type 0
Outcome c = Result (Unit {0}) × Session c × Session c × GoCrypto.Rng c

module _ (c : GoCrypto) where
  after_response :
      GoCrypto.PrivateKey c → Session c → Result Packet × (Session c × GoCrypto.Rng c) → Outcome c
  after_response priv a (ok resp, (b, g)) =
      let (r, (a', g')) = complete_initiator_handshake c resp (some priv) (a, g) in (r, a', b, g')
  after_response priv a (err e, (b, g)) = (err e, a, b, g)
  after_response priv a (panic, (b, g)) = (panic, a, b, g)

  after_init :
      Session c → Result (Packet × GoCrypto.PrivateKey c) × (Session c × GoCrypto.Rng c) → Outcome c
  unfolding after_response
  after_init b (ok (pkt, priv), (a, g)) =
      after_response priv a (process_handshake_init c pkt (b, g))
  after_init b (err e, (a, g)) = (err e, a, b, g)
  after_init b (panic, (a, g)) = (panic, a, b, g)

  -- The first session opens a handshake with the second, and both packets arrive.
  unfoldable pub handshake : Session c → Session c → GoCrypto.Rng c → Outcome c
  unfolding after_init
  handshake a b g = after_init b (create_handshake_init c (a, g))

  -- A new session with a peer on record.
  abbrev pub fresh : Identity → PeerIdentity → Session c
  fresh id peer = new_session c id (some peer)

  -- The channel that a handshake makes of it.
  abbrev pub opened : Identity → PeerIdentity → Ratchet c → Channel c
  opened id peer r = record {
    local_id = id;
    peer = peer;
    ratchet = r;
    replay_win = new_replay_window;
    out_sequence = 0;
    epoch = 1;
  }

module _ (c : GoCrypto) (L : GoCryptoLaws c) (S : SigningLaws c) (alice bob : Identity)
    (of_alice of_bob : PeerIdentity) (ta : Trusted c S alice of_alice) (tb : Trusted c S bob of_bob)
    (g : GoCrypto.Rng c) where
  -- The payload of a handshake: the ephemeral key and the signature of it.
  abbrev pub payload_of : Identity → GoCrypto.PublicKey c → List ℕ
  payload_of id k = c.public_bytes k ++ c.ed25519_sign id.private_key (c.public_bytes k)

  abbrev pub packet_of : Identity → PeerIdentity → ℕ → GoCrypto.PublicKey c → Packet
  packet_of id peer type k =
      handshake_packet c (fresh c id peer) peer type (c.public_bytes k) (payload_of id k)

  pub packet_of-fields :
      (id : Identity) (peer : PeerIdentity) (type : ℕ) (k : GoCrypto.PublicKey c)
      → (length (packet_of id peer type k).signature ≡ 64)
        × ((packet_of id peer type k).payload ≡ payload_of id k)
        × (((packet_of id peer type k).type == type) ≡ true)
  unfolding handshake_packet
  packet_of-fields id peer type k = (refl, refl, ==_refl type)

  create_lem :
      (k : GoCrypto.PrivateKey c) {g1 : GoCrypto.Rng c}
      → generate_ecdh_key_pair c g ≡ (ok (k, c.public_key k), g1)
      → create_handshake_init c (fresh c alice of_bob, g) ≡ (
        ok (
          signed c alice (packet_of alice of_bob message_type_handshake_init (c.public_key k)),
          k,
        ),
        (fresh c alice of_bob, g1),
      )
  unfolding create_handshake_init new_session
  create_lem k e =
      let epub = c.public_bytes (c.public_key k) in
      rw (
        e,
        sign_lem c S alice ta.pair epub,
        sign_packet_lem c S alice of_alice ta
            (packet_of alice of_bob message_type_handshake_init (c.public_key k))
            (packet_of-fields alice of_bob message_type_handshake_init (c.public_key k)).0,
      )

  -- The responder, on a packet that carries the key `remote`.
  process_lem :
      (pkt : Packet) (remote : GoCrypto.PublicKey c) (k : GoCrypto.PrivateKey c) (dh ms : List ℕ)
      (r : Ratchet c) (h h1 : GoCrypto.Rng c)
      → (pkt.type == message_type_handshake_init) ≡ true
      → verified_key c of_alice pkt ≡ ok remote
      → generate_ecdh_key_pair c h ≡ (ok (k, c.public_key k), h1)
      → c.ecdh k remote ≡ some dh
      → hkdf_extract_expand c dh [] handshake_master 32 ≡ ok ms
      → new_ratchet c ms false (some k) (some remote) h1 ≡ (ok r, h1)
      → process_handshake_init c pkt (fresh c bob of_alice, h) ≡ (
        ok (signed c bob (packet_of bob of_alice message_type_handshake_resp (c.public_key k))),
        (up c (opened c bob of_alice r), h1),
      )
  unfolding process_handshake_init new_session compute_ecdh_shared_secret
  process_lem pkt remote k dh ms r h h1 ty v e d m n =
      let epub = c.public_bytes (c.public_key k) in
      rw (
        ty,
        v,
        e,
        d,
        m,
        n,
        sign_lem c S bob tb.pair epub,
        sign_packet_lem c S bob of_bob tb
            (packet_of bob of_alice message_type_handshake_resp (c.public_key k))
            (packet_of-fields bob of_alice message_type_handshake_resp (c.public_key k)).0,
      )

  -- The initiator, on the response that carries the key `remote`.
  complete_lem :
      (pkt : Packet) (remote : GoCrypto.PublicKey c) (k : GoCrypto.PrivateKey c) (dh ms : List ℕ)
      (r : Ratchet c) (h h1 : GoCrypto.Rng c)
      → (pkt.type == message_type_handshake_resp) ≡ true
      → verified_key c of_bob pkt ≡ ok remote
      → c.ecdh k remote ≡ some dh
      → hkdf_extract_expand c dh [] handshake_master 32 ≡ ok ms
      → new_ratchet c ms true (some k) (some remote) h ≡ (ok r, h1)
      → complete_initiator_handshake c pkt (some k) (fresh c alice of_bob, h)
        ≡ (ok tt, (up c (opened c alice of_bob r), h1))
  unfolding complete_initiator_handshake new_session compute_ecdh_shared_secret
  complete_lem pkt remote k dh ms r h h1 ty v d m n = rw (ty, v, d, m, n)

  -- The three calls of a handshake, one after the other.
  pub record Shaken : Type 0 where
    pub k1 : GoCrypto.PrivateKey c
    pub k2 : GoCrypto.PrivateKey c
    pub g1 : GoCrypto.Rng c
    pub g2 : GoCrypto.Rng c
    pub g3 : GoCrypto.Rng c
    pub ra : Ratchet c
    pub rb : Ratchet c
    pub created : create_handshake_init c (fresh c alice of_bob, g) ≡ (
      ok (
        signed c alice (packet_of alice of_bob message_type_handshake_init (c.public_key k1)),
        k1,
      ),
      (fresh c alice of_bob, g1),
    )
    pub answered :
        process_handshake_init c
          (signed c alice (packet_of alice of_bob message_type_handshake_init (c.public_key k1)))
          (fresh c bob of_alice, g1)
        ≡ (
          ok (signed c bob (packet_of bob of_alice message_type_handshake_resp (c.public_key k2))),
          (up c (opened c bob of_alice rb), g2),
        )
    pub completed :
        complete_initiator_handshake c
          (signed c bob (packet_of bob of_alice message_type_handshake_resp (c.public_key k2)))
          (some k1)
          (fresh c alice of_bob, g2)
        ≡ (ok tt, (up c (opened c alice of_bob ra), g3))
    pub leads : Leads c ra rb
    pub known : Known c L ra rb g3

  -- The handshake goes through, and leaves the initiator in the lead.
  pub shaken : Shaken
  shaken =
      let (k1, e1, _) = generate_lem c L g in
      let g1 = (c.generate_key (rand_reader c) g).1 in
      let (k2, e2, e2') = generate_lem c L g1 in
      let g2 = (c.generate_key (rand_reader c) g1).1 in
      let p1 = c.public_key k1 in
      let p2 = c.public_key k2 in
      let first = packet_of alice of_bob message_type_handshake_init p1 in
      let second = packet_of bob of_alice message_type_handshake_resp p2 in
      let (_, load1, type1) = packet_of-fields alice of_bob message_type_handshake_init p1 in
      let (_, load2, type2) = packet_of-fields bob of_alice message_type_handshake_resp p2 in
      let (dh, d, size) = L.ecdh_total k2 k1 in
      let (ms, m, ms_size) = hkdf_lem c L dh [] handshake_master 32 size (omega arith) in
      let (ra, rb, g3, na, nb, leads, known) =
        new_ratchet-Leads c L ms k2 (some p1) (some k1) g2 ms_size (L.generate_drawn g1 k2 e2') in
      record {
        k1 = k1;
        k2 = k2;
        g1 = g1;
        g2 = g2;
        g3 = g3;
        ra = ra;
        rb = rb;
        created = create_lem k1 e1;
        answered =
            process_lem (signed c alice first) p1 k2 dh ms rb g1 g2 type1
              (verified_key_lem c S alice of_alice ta L p1 first load1) e2 d m nb;
        completed =
            complete_lem (signed c bob second) p2 k1 dh ms ra g2 g3 type2
              (verified_key_lem c S bob of_bob tb L p2 second load2) (L.ecdh_comm k1 k2 ∙ d) m na;
        leads = leads;
        known = known;
      }

  -- The two sessions are established, the initiator in the lead.
  handshake_lem :
      (h : Shaken)
      → handshake c (fresh c alice of_bob) (fresh c bob of_alice) g
        ≡ (ok tt, up c (opened c alice of_bob h.ra), up c (opened c bob of_alice h.rb), h.g3)
  unfolding handshake
  handshake_lem h = rw (h.created, h.answered, h.completed)

  -- Two devices that hold one another's public key shake hands, and then talk: with working libraries
  -- the handshake succeeds, and in a conversation that the initiator opens every text, in either
  -- direction and in any order of speakers, is decrypted to what was encrypted, as long as the
  -- number of texts is below 2^64.
  pub handshake_then_talk :
      (m : List ℕ) (talk : List (Bool × List ℕ))
      → suc (length talk) < 2 ^ 64
      → (a b : Session c) × (g' : GoCrypto.Rng c) × (handshake c
            (new_session c alice (some of_bob))
            (new_session c bob (some of_alice))
            g
          ≡ (ok tt, a, b, g'))
        × (converse c ((true, m) ∷ talk) a b g' ≡ all_read ((true, m) ∷ talk))
  handshake_then_talk m talk room =
      let h = shaken in
      let a = opened c alice of_bob h.ra in
      let b = opened c bob of_alice h.rb in
      (
        up c a,
        up c b,
        h.g3,
        handshake_lem h,
        converse_led c L S m talk a b h.g3
            (record {
              a_to_b = record { trusted = ta; heard = start };
              b_to_a = record { trusted = tb; heard = start };
              room_a = omega arith;
              room_b = omega arith;
            })
            h.leads h.known,
      )
    where
      start : new_replay_window.max_seq ≤ 0
      start = unfold new_replay_window in omega arith
