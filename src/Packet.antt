-- ===== src/Packet.antt =====
-- pkg/protocol/packet.go: the wire format of a frame. An array `[n]byte` is a list of `n` bytes, and
-- a buffer is filled by the same writes as in the source.
pub mod Wire
pub mod RoundTrip
pub mod Accepts
pub mod Canonical
pub mod Binding
mod Tests
use pelagos.Base.{
  ℕ, ◌+◌, ◌*◌, ◌%◌, ◌^◌, ◌<◌, ◌≤◌, ◌≡◌, List, [], ◌∷◌, Bool, ◌&&◌, ltb, leb, ◌==◌, if◌then◌else◌,
  Option, none, some, Result, Error, ok, err, panic, length, slice, drop, replicate, overwrite,
  copy_at, All,
}
use pelagos.Base.Bytes.{put_be, get_be, IsByte, IsBytes}

abbrev pub current_protocol_version : ℕ
current_protocol_version = 0x0100

abbrev pub message_type_handshake_init : ℕ
message_type_handshake_init = 0x01

abbrev pub message_type_handshake_resp : ℕ
message_type_handshake_resp = 0x02

abbrev pub message_type_data : ℕ
message_type_data = 0x03

abbrev pub min_header_size : ℕ
min_header_size = 2 + 1 + 4 + 8 + 32 + 32 + 32 + 24 + 4 + 64

-- The 10 MB limit on a payload.
abbrev pub max_payload : ℕ
max_payload = 10 * 1024 * 1024

pub record Packet : Type 0 where
  pub version : ℕ
  pub type : ℕ
  pub epoch : ℕ
  pub sequence : ℕ
  pub sender_fingerprint : List ℕ
  pub recipient_fingerprint : List ℕ
  pub ephemeral_public_key : List ℕ
  pub nonce : List ℕ
  pub payload : List ℕ
  pub signature : List ℕ

-- The zero value of the type, `var pkt Packet`.
abbrev pub zero_packet : Packet
zero_packet = record {
  version = 0;
  type = 0;
  epoch = 0;
  sequence = 0;
  sender_fingerprint = replicate 32 0;
  recipient_fingerprint = replicate 32 0;
  ephemeral_public_key = replicate 32 0;
  nonce = replicate 24 0;
  payload = [];
  signature = replicate 64 0;
}

-- What the field types of the struct say of a value.
pub record IsPacket (p : Packet) : Type 0 where
  pub version_fits : p.version < 2 ^ 16
  pub type_fits : p.type < 2 ^ 8
  pub epoch_fits : p.epoch < 2 ^ 32
  pub sequence_fits : p.sequence < 2 ^ 64
  pub sender_array : IsBytes 32 p.sender_fingerprint
  pub recipient_array : IsBytes 32 p.recipient_fingerprint
  pub key_array : IsBytes 32 p.ephemeral_public_key
  pub nonce_array : IsBytes 24 p.nonce
  pub payload_bytes : All IsByte p.payload
  pub signature_array : IsBytes 64 p.signature

-- The sizes of the arrays alone, which any value of the struct has.
pub record HasArrays (p : Packet) : Type 0 where
  pub sender_size : length p.sender_fingerprint ≡ 32
  pub recipient_size : length p.recipient_fingerprint ≡ 32
  pub key_size : length p.ephemeral_public_key ≡ 32
  pub nonce_size : length p.nonce ≡ 24
  pub signature_size : length p.signature ≡ 64

-- The seven writes with which `Marshal`, `ComputeAAD` and `SignedBytes` begin.
put_header : Packet → List ℕ → List ℕ
put_header p buf =
    let buf = copy_at buf 0 2 (put_be 2 p.version) in
    let buf = copy_at buf 2 3 (p.type ∷ []) in
    let buf = copy_at buf 3 7 (put_be 4 p.epoch) in
    let buf = copy_at buf 7 15 (put_be 8 p.sequence) in
    let buf = copy_at buf 15 47 p.sender_fingerprint in
    let buf = copy_at buf 47 79 p.recipient_fingerprint in copy_at buf 79 111 p.ephemeral_public_key

-- The nonce, the length and the payload, which `Marshal` and `SignedBytes` write next.
put_body : Packet → List ℕ → List ℕ
put_body p buf =
    let n = length p.payload in
    let buf = copy_at buf 111 135 p.nonce in
    let buf = copy_at buf 135 139 (put_be 4 (n % 2 ^ 32)) in copy_at buf 139 (139 + n) p.payload

unfoldable pub marshal : Packet → Result (List ℕ)
unfolding put_header put_body
marshal p =
    let n = length p.payload in
    if ltb max_payload n
    then err Error.payload_limit
    else let buf = put_body p (put_header p (replicate (min_header_size + n) 0)) in
      ok (copy_at buf (139 + n) (139 + n + 64) p.signature)

unfoldable pub compute_aad : Packet → List ℕ
unfolding put_header
compute_aad p = put_header p (replicate (2 + 1 + 4 + 8 + 32 + 32 + 32) 0)

unfoldable pub signed_bytes : Packet → List ℕ
unfolding put_header put_body
signed_bytes p = put_body p (put_header p (replicate (139 + length p.payload) 0))

-- `b[i]`, for `i` within `b`.
abbrev pub byte_at : ℕ → List ℕ → ℕ
byte_at i b = elim (drop i b) [ [] ↦ 0 | x ∷ _ ↦ x ]

-- `b[lo:hi]` with its bounds check.
unfoldable pub checked_slice : ℕ → ℕ → List ℕ → Option (List ℕ)
checked_slice lo hi b = if leb lo hi && leb hi (length b) then some (slice lo hi b) else none

-- The fields in front of the length.
unfoldable pub get_header : Packet → List ℕ → Packet
get_header p b = record p {
  type = byte_at 2 b;
  epoch = get_be (slice 3 7 b);
  sequence = get_be (slice 7 15 b);
  sender_fingerprint = overwrite p.sender_fingerprint (slice 15 47 b);
  recipient_fingerprint = overwrite p.recipient_fingerprint (slice 47 79 b);
  ephemeral_public_key = overwrite p.ephemeral_public_key (slice 79 111 b);
  nonce = overwrite p.nonce (slice 111 135 b);
}

-- The payload and the signature. `payloadLen` is a uint32, and so are the offsets made from it.
unfoldable pub get_body : Packet → List ℕ → ℕ → Result (Unit {0}) × Packet
get_body p b payload_len =
    let end = (139 + payload_len) % 2 ^ 32 in
    let p = record p { payload = replicate payload_len 0 } in
    elim (checked_slice 139 end b) [
      | none ↦ (panic, p)
      | some src ↦
          let p = record p { payload = overwrite p.payload src } in
          elim (checked_slice end ((end + 64) % 2 ^ 32) b) [
            | none ↦ (panic, p)
            | some sig ↦ (ok tt, record p { signature = overwrite p.signature sig })
          ]
    ]

-- The packet is filled in place: on an error it keeps the fields that were read before.
unfoldable pub unmarshal : Packet → List ℕ → Result (Unit {0}) × Packet
unmarshal p b =
    if ltb (length b) min_header_size
    then (err Error.short_buffer, p)
    else let p = record p { version = get_be (slice 0 2 b) } in
      if ltb current_protocol_version p.version
      then (err Error.unsupported_version, p)
      else let p = get_header p b in
        let payload_len = get_be (slice 135 139 b) in
        if length b == min_header_size + payload_len
        then get_body p b payload_len
        else (err Error.length_mismatch, p)

-- A decoded packet, for the value that `Unmarshal` fills in place.
abbrev pub filled : Result (Unit {0}) × Packet → Result Packet
filled (ok _, p) = ok p
filled (err e, p) = err e
filled (panic, p) = panic
