-- ===== src/Session.antt =====
-- pkg/protocol/session.go: one end of a channel. A method runs on the session together with the
-- random source, and what it wrote before an error stays written. The session's mutex is held for
-- the whole of each method, so a method is one step. A nil peer that is read is a panic.
pub mod Steps
pub mod Handshake
pub mod Delivery
pub mod Conversation
pub mod Guard
pub mod Replays
mod Tests
mod Checks
unfoldable pub use Checks.{sign_packet, verified_key}
use pelagos.Base.{
  ℕ, ◌+◌, ◌%◌, ◌^◌, List, [], ◌++◌, Bool, true, false, Option, none, some, Result, Error, ok, err,
  panic, length, ◌==◌, ltb, if◌then◌else◌, or_fail, guard, take, drop, slice, replicate, overwrite,
  not,
}
use pelagos.Base.State.{Act, ◌>>=◌, ◌>>◌, pure, lift, continue}
use pelagos.Base.Text.{codes}
use pelagos.Crypto.Library.{GoCrypto}
use pelagos.Crypto.Random.{generate_ecdh_key_pair, compute_ecdh_shared_secret}
use pelagos.Crypto.Keys.{hkdf_extract_expand}
use pelagos.Identity.{Identity, PeerIdentity, fingerprint, peer_fingerprint, sign, verify_signature}
use pelagos.Packet.{
  Packet, zero_packet, compute_aad, signed_bytes, current_protocol_version,
  message_type_handshake_init, message_type_handshake_resp, message_type_data,
}
use pelagos.Ratchet.{Ratchet, RatchetAct, new_ratchet, ratchet_encrypt, ratchet_decrypt}
use pelagos.Replay.{ReplayWindow, new_replay_window, verify_replay_window}

unfoldable pub handshake_master : List ℕ
handshake_master = codes "palagos-v1-handshake-master"

-- A local identity is always given; the other pointers may be nil.
pub record Session (c : GoCrypto) : Type 0 where
  pub local_id : Identity
  pub peer_id : Option PeerIdentity
  pub ratchet : Option (Ratchet c)
  pub replay_win : ReplayWindow
  pub out_sequence : ℕ
  pub epoch : ℕ
  pub is_established : Bool

-- The value behind a pointer.
abbrev pub present {ℓ} : {A : Type ℓ} → Option A → Result A
present none = panic
present (some a) = ok a

module _ (c : GoCrypto) where
  open c use {Rng, PrivateKey, PublicKey, public_bytes, new_public_key}

  unfoldable pub new_session : Identity → Option PeerIdentity → Session c
  new_session local_id peer_id = record {
    local_id = local_id;
    peer_id = peer_id;
    ratchet = none;
    replay_win = new_replay_window;
    out_sequence = 0;
    epoch = 1;
    is_established = false;
  }

  abbrev pub SessionAct : Type 0 → Type 0
  SessionAct A = Act (Session c × Rng) A

  abbrev pub on_rng : {A : Type 0} → Act Rng A → SessionAct A
  on_rng f (s, g) = ((f g).0, (s, (f g).1))

  abbrev pub get_session : SessionAct (Session c)
  get_session (s, g) = (ok s, (s, g))

  abbrev pub set_session : Session c → SessionAct (Unit {0})
  set_session s (_, g) = (ok tt, (s, g))

  -- A method of the session's ratchet.
  abbrev pub on_ratchet : {A : Type 0} → Ratchet c → RatchetAct c A → SessionAct A
  on_ratchet r f (s, g) =
      ((f (r, g)).0, (record s { ratchet = some (f (r, g)).1.0 }, (f (r, g)).1.1))

  -- The ratchet, if the session is established and has one.
  abbrev pub established : Session c → Option (Ratchet c)
  established s = if s.is_established then s.ratchet else none

  -- The packet of a handshake before it is signed.
  unfoldable pub handshake_packet : Session c → PeerIdentity → ℕ → List ℕ → List ℕ → Packet
  handshake_packet s peer type epub payload = record zero_packet {
    version = current_protocol_version;
    type = type;
    epoch = s.epoch;
    sequence = 1;
    sender_fingerprint = fingerprint c s.local_id;
    recipient_fingerprint = peer_fingerprint c peer;
    ephemeral_public_key = overwrite (replicate 32 0) epub;
    payload = payload;
  }

  unfoldable pub create_handshake_init : SessionAct (Packet × PrivateKey)
  create_handshake_init = do
    (priv, pub_key) ← on_rng (generate_ecdh_key_pair c)
    s ← get_session
    let epub = public_bytes pub_key
    sig ← lift (sign c s.local_id epub)
    peer ← lift (present s.peer_id)
    pkt ← lift (
        sign_packet c s.local_id
          (handshake_packet s peer message_type_handshake_init epub (epub ++ sig)))
    pure (pkt, priv)

  unfoldable pub process_handshake_init : Packet → SessionAct Packet
  process_handshake_init pkt =
      if not (pkt.type == message_type_handshake_init) then lift (err Error.wrong_type) else do
        s ← get_session
        peer ← lift (or_fail s.peer_id Error.no_peer)
        remote ← lift (verified_key c peer pkt)
        (priv, pub_key) ← on_rng (generate_ecdh_key_pair c)
        dh ← lift (compute_ecdh_shared_secret c (some priv) (some remote))
        master ← lift (hkdf_extract_expand c dh [] handshake_master 32)
        r ← on_rng (new_ratchet c master false (some priv) (some remote))
        set_session (record s { ratchet = some r })
        let epub = public_bytes pub_key
        sig ← lift (sign c s.local_id epub)
        resp ← lift (
            sign_packet c s.local_id
              (handshake_packet s peer message_type_handshake_resp epub (epub ++ sig)))
        set_session (record s { ratchet = some r; is_established = true })
        pure resp

  unfoldable pub complete_initiator_handshake : Packet → Option PrivateKey → SessionAct (Unit {0})
  complete_initiator_handshake pkt priv =
      if not (pkt.type == message_type_handshake_resp) then lift (err Error.wrong_type) else do
        s ← get_session
        peer ← lift (present s.peer_id)
        remote ← lift (verified_key c peer pkt)
        dh ← lift (compute_ecdh_shared_secret c priv (some remote))
        master ← lift (hkdf_extract_expand c dh [] handshake_master 32)
        r ← on_rng (new_ratchet c master true priv (some remote))
        set_session (record s { ratchet = some r; is_established = true })

  -- The header of a data packet, before its key, nonce, payload and signature are set.
  unfoldable pub data_packet : Session c → PeerIdentity → ℕ → Packet
  data_packet s peer seq = record zero_packet {
    version = current_protocol_version;
    type = message_type_data;
    epoch = s.epoch;
    sequence = seq;
    sender_fingerprint = fingerprint c s.local_id;
    recipient_fingerprint = peer_fingerprint c peer;
  }

  -- The callback that `EncryptMessage` hands to the ratchet.
  abbrev pub keyed_aad : Packet → List ℕ → List ℕ
  keyed_aad pkt epub =
      compute_aad (record pkt { ephemeral_public_key = overwrite pkt.ephemeral_public_key epub })

  -- The packet with what the ratchet returned.
  abbrev pub fill_packet : Packet → List ℕ → List ℕ → Packet
  fill_packet pkt epub sealed = record pkt {
    ephemeral_public_key = overwrite pkt.ephemeral_public_key epub;
    nonce = overwrite pkt.nonce (take 24 sealed);
    payload = drop 24 sealed;
  }

  unfoldable pub encrypt_message : List ℕ → SessionAct Packet
  encrypt_message plaintext = do
    s ← get_session
    r ← lift (or_fail (established s) Error.unestablished)
    let seq = (s.out_sequence + 1) % 2 ^ 64
    set_session (record s { out_sequence = seq })
    peer ← lift (present s.peer_id)
    let pkt = data_packet s peer seq
    (epub, sealed, _) ← on_ratchet r (ratchet_encrypt c plaintext [] (some (keyed_aad pkt)))
    lift (sign_packet c s.local_id (fill_packet pkt epub sealed))

  -- The replay check, and the window that it leaves.
  abbrev pub check_window : Session c → ℕ → SessionAct (Unit {0})
  check_window s seq (_, g) =
      let (verdict, w) = verify_replay_window s.replay_win seq in
      (verdict, (record s { replay_win = w }, g))

  unfoldable pub decrypt_message : Packet → SessionAct (List ℕ)
  decrypt_message pkt = do
    s ← get_session
    r ← lift (or_fail (established s) Error.unestablished)
    check_window s pkt.sequence
    peer ← lift (present s.peer_id)
    lift (
        guard (verify_signature c peer (signed_bytes pkt) pkt.signature) Error.bad_packet_signature)
    on_ratchet r
        (ratchet_decrypt c pkt.ephemeral_public_key (pkt.nonce ++ pkt.payload) (compute_aad pkt) 0)
