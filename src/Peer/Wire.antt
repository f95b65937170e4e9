-- ===== src/Peer/Wire.antt =====
-- The frames of main.go between two peers: what one command marshals, the other parses and opens.
use pelagos.Base.{
  ℕ, ◌+◌, ◌^◌, ◌<◌, ◌≤◌, ◌≡◌, refl, ap, List, ok, length, length-drop, length-overwrite, replicate,
  arith, take,
}
use pelagos.Crypto.Library.{GoCrypto}
use pelagos.Identity.{Identity, PeerIdentity}
use pelagos.Identity.Laws.{SigningLaws}
use pelagos.Packet.{
  Packet, HasArrays, zero_packet, marshal, max_payload, current_protocol_version, filled,
}
use pelagos.Packet.Wire.{wire, length-wire}
use pelagos.Packet.Accepts.{zero_packet-HasArrays}
use pelagos.Packet.RoundTrip.{HasRoom, marshal_then_unmarshal}
use pelagos.Peer.{parsed, seal_text, open_text}
use pelagos.Ratchet.{Ratchet}
use pelagos.Ratchet.Sync
use pelagos.Replay.{ReplayWindow}
use pelagos.Session.{Session, data_packet, keyed_aad, handshake_packet}
use pelagos.Session.Delivery.{
  Channel, up, Hears, next_header, next_seq, sent_channel, sealed_packet, encrypt_message_lem,
  decrypted_lem,
}
use pelagos.Session.Steps.{signed}

-- A packet of this version that fits the layout arrives as it is.
pub record Travels (p : Packet) : Type 0 where
  pub room : HasRoom p
  pub arrays : HasArrays p
  pub version_known : p.version ≤ current_protocol_version
  pub payload_fits : length p.payload ≤ max_payload

pub Travels-parsed : (p : Packet) → Travels p → (marshal p ≡ ok (wire p)) × (parsed (wire p) ≡ ok p)
Travels-parsed p t =
    let (e, d) =
      marshal_then_unmarshal p zero_packet t.room t.arrays zero_packet-HasArrays t.payload_fits
        t.version_known in
    (e, ap filled d)

module _ (c : GoCrypto) (S : SigningLaws c) where
  -- A signed handshake packet.
  pub handshake-Travels :
      (id : Identity) (s : Session c) (peer : PeerIdentity) (type : ℕ) (epub payload : List ℕ)
      → s.epoch ≡ 1
      → length payload ≡ 96
      → Travels (signed c id (handshake_packet c s peer type epub payload))
  unfolding handshake_packet
  handshake-Travels id s peer type epub payload e h = record {
    room = record {
      version_fits = omega arith;
      epoch_fits = omega (arith, e);
      sequence_fits = omega arith;
    };
    arrays = record {
      sender_size = S.digest_size _;
      recipient_size = S.digest_size _;
      key_size = length-overwrite (replicate 32 0) epub;
      nonce_size = refl;
      signature_size = S.signature_size _ _;
    };
    version_known = omega arith;
    payload_fits = omega (arith, h);
  }

module _ (c : GoCrypto) (S : SigningLaws c) (from to : Channel c) (g : GoCrypto.Rng c) (m : List ℕ)
    (rf rt : Ratchet c) (g' : GoCrypto.Rng c) (h : Hears c S from to)
    (d : Sync.Delivery c (keyed_aad c (next_header c from)) m from.ratchet to.ratchet g rf rt g')
    (first_epoch : from.epoch ≡ 1) (fits : length m + 16 ≤ max_payload) where
  abbrev pub sent_packet : Packet
  sent_packet = signed c from.local_id (sealed_packet c S from to g m rf rt g' h d)

  data-Travels : Travels sent_packet
  unfolding data_packet
  data-Travels = record {
    room = record {
      version_fits = omega arith;
      epoch_fits = omega (arith, first_epoch);
      sequence_fits = omega arith;
    };
    arrays = record {
      sender_size = S.digest_size _;
      recipient_size = S.digest_size _;
      key_size = length-overwrite (replicate 32 0) d.epub;
      nonce_size = length-overwrite (replicate 24 0) (take 24 d.sealed);
      signature_size = S.signature_size _ _;
    };
    version_known = omega arith;
    payload_fits = omega (arith, length-drop 24 d.sealed, d.sealed_size);
  }

  pkt-sequence : sent_packet.sequence ≡ next_seq c from
  unfolding data_packet
  pkt-sequence = refl

  pub length-frame : length (wire sent_packet) ≡ 219 + length m
  unfolding data_packet
  length-frame =
      omega
        (arith, length-wire sent_packet data-Travels.arrays, length-drop 24 d.sealed, d.sealed_size)

  pub seal_text_lem : seal_text c m (up c from, g) ≡ (
    ok (next_seq c from, wire sent_packet),
    (up c (sent_channel c S from to g m rf rt g' h d), d.between),
  )
  unfolding seal_text
  seal_text_lem = rw (
    encrypt_message_lem c S from to g m rf rt g' h d,
    (Travels-parsed sent_packet data-Travels).0,
    pkt-sequence,
  )

  pub open_text_lem :
      from.out_sequence + 1 < 2 ^ 64
      → (w : ReplayWindow) × (open_text c (wire sent_packet) (up c to, d.between)
          ≡ (ok (next_seq c from, m), (up c (record to { replay_win = w; ratchet = rt }), g')))
        × (w.max_seq ≡ next_seq c from)
  unfolding open_text
  open_text_lem room =
      let (w, e, k) = decrypted_lem c S from to g m rf rt g' h d room in
      (w, rw ((Travels-parsed sent_packet data-Travels).1, e, pkt-sequence), k)
