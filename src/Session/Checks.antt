-- ===== src/Session/Checks.antt =====
-- The parts of session.go that change no state: signing a packet, and the checks on a handshake
-- packet, which both handlers make in the same order.
use pelagos.Base.{
  Result, Error, ok, length, ltb, or_fail, guard, take, slice, overwrite, not, ◌>>=◌, ◌>>◌,
}
use pelagos.Crypto.Library.{GoCrypto}
use pelagos.Identity.{Identity, PeerIdentity, sign, verify_signature}
use pelagos.Packet.{Packet, signed_bytes}

module _ (c : GoCrypto) where
  -- The signature over the packet's bytes, copied into it.
  unfoldable pub sign_packet : Identity → Packet → Result Packet
  sign_packet id pkt = do
    sig ← sign c id (signed_bytes pkt)
    ok (record pkt { signature = overwrite pkt.signature sig })

  -- The checks on a handshake packet, and the ephemeral key that it carries.
  unfoldable pub verified_key : PeerIdentity → Packet → Result (GoCrypto.PublicKey c)
  verified_key peer pkt = do
    guard (verify_signature c peer (signed_bytes pkt) pkt.signature) Error.bad_packet_signature
    guard (not (ltb (length pkt.payload) 96)) Error.short_payload
    guard (verify_signature c peer (take 32 pkt.payload) (slice 32 96 pkt.payload))
        Error.bad_key_signature
    or_fail (c.new_public_key (take 32 pkt.payload)) Error.bad_remote_key
