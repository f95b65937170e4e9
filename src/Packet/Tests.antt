-- ===== src/Packet/Tests.antt =====
-- Runs of the codec, and its theorems at concrete packets.
use pelagos.Base.{copy_at, ℕ, ◌≡◌, refl, List, [], ◌∷◌, ◌++◌, arith, ok, err, Error, replicate, All}
use pelagos.Base.Bytes.{put_be, get_be, IsByte}
use pelagos.Packet.{
  Packet, zero_packet, IsPacket, HasArrays, marshal, unmarshal, get_header, get_body, checked_slice,
}
use pelagos.Packet.Wire.{wire, marshal-wire}
use pelagos.Packet.RoundTrip.{unmarshal-marshal}
use pelagos.Packet.Accepts.{unmarshal_verdict}
use pelagos.Packet.Canonical.{marshal-unmarshal}
use pelagos.Packet.Binding.{SameHeader, signed_bytes-binds}

abbrev sample : Packet
sample = record zero_packet {
  version = 0x0100;
  type = 3;
  epoch = 1;
  sequence = 515;
  payload = 7 ∷ 8 ∷ [];
}

sample-IsPacket : IsPacket sample
sample-IsPacket = omega arith

zero_packet-HasArrays : HasArrays zero_packet
zero_packet-HasArrays = omega arith

abbrev frame : List ℕ
frame =
    1
    ∷ 0
    ∷ 3
    ∷ 0
    ∷ 0
    ∷ 0
    ∷ 1
    ∷ 0
    ∷ 0
    ∷ 0
    ∷ 0
    ∷ 0
    ∷ 0
    ∷ 2
    ∷ 3
    ∷ (replicate 120 0 ++ (0 ∷ 0 ∷ 0 ∷ 2 ∷ 7 ∷ 8 ∷ replicate 64 0))

marshal-sample : marshal sample ≡ ok frame
unfolding marshal put_be copy_at
marshal-sample = refl

unmarshal-frame : unmarshal zero_packet frame ≡ (ok tt, sample)
unfolding unmarshal get_header get_body get_be checked_slice
unmarshal-frame = refl

marshal-wire_example : marshal sample ≡ ok (wire sample)
marshal-wire_example = marshal-wire sample (omega arith)

unmarshal-marshal_example : unmarshal zero_packet frame ≡ (ok tt, sample)
unmarshal-marshal_example =
    unmarshal-marshal sample zero_packet sample-IsPacket zero_packet-HasArrays (omega arith)
      marshal-sample

unmarshal_verdict_example : (unmarshal zero_packet (1 ∷ 2 ∷ [])).0 ≡ err Error.short_buffer
unmarshal_verdict_example =
    unmarshal_verdict zero_packet (1 ∷ 2 ∷ []) zero_packet-HasArrays (omega arith)

frame-bytes : All IsByte frame
frame-bytes = omega arith

marshal-unmarshal_example : marshal sample ≡ ok frame
marshal-unmarshal_example =
    marshal-unmarshal zero_packet sample frame zero_packet-HasArrays frame-bytes (omega arith)
      unmarshal-frame

signed_bytes-binds_example :
    SameHeader sample sample × (sample.nonce ≡ sample.nonce) × (sample.payload ≡ sample.payload)
signed_bytes-binds_example = signed_bytes-binds sample sample sample-IsPacket sample-IsPacket refl
