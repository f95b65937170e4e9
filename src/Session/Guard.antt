-- ===== src/Session/Guard.antt =====
-- What session.go refuses, and what a refusal leaves behind.
use pelagos.Base.{
  ℕ, ◌+◌, ◌<◌, ◌≤◌, ◌≡◌, List, true, false, Option, none, some, Error, ok, err, ◌==◌, ==_iff,
  if◌then◌else◌, Bool-cases, Option-cases, Result-cases, inl, inr, take, slice, length, arith,
}
use pelagos.Crypto.Library.{GoCrypto}
use pelagos.Identity.{PeerIdentity, verify_signature}
use pelagos.Packet.{Packet, signed_bytes, message_type_handshake_init, message_type_handshake_resp}
use pelagos.Replay.{ReplayWindow, check_and_add, verify_replay_window}
use pelagos.Session.{
  Session, established, encrypt_message, decrypt_message, process_handshake_init,
  complete_initiator_handshake, verified_key,
}
use pelagos.Session.Delivery.{Channel, up}

module _ (c : GoCrypto) where
  -- A session that is not established, or has no ratchet, neither encrypts nor decrypts: both calls
  -- return the error for it and change nothing.
  pub unestablished_refuses :
      (s : Session c) (g : GoCrypto.Rng c) (m : List ℕ) (pkt : Packet)
      → established c s ≡ none
      → (encrypt_message c m (s, g) ≡ (err Error.unestablished, (s, g)))
        × (decrypt_message c pkt (s, g) ≡ (err Error.unestablished, (s, g)))
  unfolding encrypt_message decrypt_message
  unestablished_refuses s g m pkt e = (simp e, simp e)

  -- A packet whose signature is not the peer's is never decrypted. The ratchet and all else stay as
  -- they were, but for the replay window, which has taken the packet's number.
  pub forged_refused :
      (ch : Channel c) (g : GoCrypto.Rng c) (pkt : Packet)
      → verify_signature c ch.peer (signed_bytes pkt) pkt.signature ≡ false
      → decrypt_message c pkt (up c ch, g) ≡ (
        (if (check_and_add ch.replay_win pkt.sequence).0
            then err Error.bad_packet_signature
            else err Error.replayed),
        (up c (record ch { replay_win = (check_and_add ch.replay_win pkt.sequence).1 }), g),
      )
  unfolding decrypt_message verify_replay_window
  forged_refused ch g pkt e = elim (Bool-cases (check_and_add ch.replay_win pkt.sequence).0) [
    | inl fresh ↦ rw (fresh, e)
    | inr old ↦ rw old
  ]

  late_refused :
      (w : ReplayWindow) (seq : ℕ) → seq + 64 ≤ w.max_seq → check_and_add w seq ≡ (false, w)
  unfolding check_and_add
  late_refused w seq h = ground arith

  advanced : (w : ReplayWindow) (seq : ℕ) → w.max_seq < seq → (check_and_add w seq).1.max_seq ≡ seq
  unfolding check_and_add
  advanced w seq h = ground arith

  -- One forged packet with a number above all that were seen, and at least 64 above some others,
  -- closes the window on those: every packet with such a number, the peer's own too, is then refused
  -- as a replay.
  pub forged-closes_window :
      (ch : Channel c) (g h : GoCrypto.Rng c) (forged genuine : Packet)
      → verify_signature c ch.peer (signed_bytes forged) forged.signature ≡ false
      → ch.replay_win.max_seq < forged.sequence
      → genuine.sequence + 64 ≤ forged.sequence
      → (decrypt_message c genuine ((decrypt_message c forged (up c ch, g)).1.0, h)).0
        ≡ err Error.replayed
  forged-closes_window ch g h forged genuine e above behind =
      rw (forged_refused ch g forged e)
        (refused (record ch { replay_win = (check_and_add ch.replay_win forged.sequence).1 }) late)
    where
      late : genuine.sequence + 64 ≤ (check_and_add ch.replay_win forged.sequence).1.max_seq
      late = omega (arith, advanced ch.replay_win forged.sequence above)

      refused :
          (d : Channel c)
          → genuine.sequence + 64 ≤ d.replay_win.max_seq
          → (decrypt_message c genuine (up c d, h)).0 ≡ err Error.replayed
      refused d l =
          unfold decrypt_message verify_replay_window in
          rw (late_refused d.replay_win genuine.sequence l)

  -- What a verified key vouches for.
  verified_key_sound :
      (peer : PeerIdentity) (pkt : Packet) {k : GoCrypto.PublicKey c}
      → verified_key c peer pkt ≡ ok k
      → (verify_signature c peer (signed_bytes pkt) pkt.signature ≡ true)
        × (96 ≤ length pkt.payload)
        × (verify_signature c peer (take 32 pkt.payload) (slice 32 96 pkt.payload) ≡ true)
        × (c.new_public_key (take 32 pkt.payload) ≡ some k)
  unfolding verified_key
  verified_key_sound peer pkt h = ground arith

  -- What the packet of an accepted handshake has passed.
  abbrev pub Vouched : Option PeerIdentity → ℕ → Packet → Type 0
  Vouched on_record type pkt =
      (peer : PeerIdentity) × (on_record ≡ some peer)
      × (pkt.type ≡ type)
      × (verify_signature c peer (signed_bytes pkt) pkt.signature ≡ true)
      × (96 ≤ length pkt.payload)
      × (verify_signature c peer (take 32 pkt.payload) (slice 32 96 pkt.payload) ≡ true)

  vouched :
      (o : Option PeerIdentity) (peer : PeerIdentity) (type : ℕ) (pkt : Packet)
      {k : GoCrypto.PublicKey c}
      → o ≡ some peer
      → (pkt.type == type) ≡ true
      → verified_key c peer pkt ≡ ok k
      → Vouched o type pkt
  vouched o peer type pkt e t v =
      let (a, b, d, _) = verified_key_sound peer pkt v in
      (peer, e, (==_iff pkt.type type).0 t, a, b, d)

  -- The responder answers a handshake only if the packet is a handshake-init of the peer on record:
  -- the peer's key has signed the whole packet, and the ephemeral key in it.
  pub process_handshake_init-authentic :
      (s : Session c) (g : GoCrypto.Rng c) (pkt resp : Packet)
      → (process_handshake_init c pkt (s, g)).0 ≡ ok resp
      → Vouched s.peer_id message_type_handshake_init pkt
  unfolding process_handshake_init
  process_handshake_init-authentic s g pkt resp h =
      elim (Bool-cases (pkt.type == message_type_handshake_init)) [
        | inr other ↦ cc (simp other at h)
        | inl type ↦ elim (Option-cases s.peer_id) [
          | inl nobody ↦ cc (simp (type, nobody) at h)
          | inr (peer, known) ↦ elim (Result-cases (verified_key c peer pkt)) [
            | inl (k, v) ↦ vouched s.peer_id peer message_type_handshake_init pkt known type v
            | inr (inl (e, v)) ↦ cc (simp (type, known, v) at h)
            | inr (inr v) ↦ cc (simp (type, known, v) at h)
          ]
        ]
      ]

  -- The initiator completes a handshake only on a handshake-response of the peer on record: the
  -- peer's key has signed the whole packet, and the ephemeral key in it.
  pub complete_handshake-authentic :
      (s : Session c) (g : GoCrypto.Rng c) (pkt : Packet) (priv : Option (GoCrypto.PrivateKey c))
      → (complete_initiator_handshake c pkt priv (s, g)).0 ≡ ok tt
      → Vouched s.peer_id message_type_handshake_resp pkt
  unfolding complete_initiator_handshake
  complete_handshake-authentic s g pkt priv h =
      elim (Bool-cases (pkt.type == message_type_handshake_resp)) [
        | inr other ↦ cc (simp other at h)
        | inl type ↦ elim (Option-cases s.peer_id) [
          | inl nobody ↦ cc (simp (type, nobody) at h)
          | inr (peer, known) ↦ elim (Result-cases (verified_key c peer pkt)) [
            | inl (k, v) ↦ vouched s.peer_id peer message_type_handshake_resp pkt known type v
            | inr (inl (e, v)) ↦ cc (simp (type, known, v) at h)
            | inr (inr v) ↦ cc (simp (type, known, v) at h)
          ]
        ]
      ]
