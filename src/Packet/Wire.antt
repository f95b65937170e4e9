-- ===== src/Packet/Wire.antt =====
-- The layout of packet.go as a concatenation of fields, and the buffer writes against it.
use pelagos.Base.{
  ℕ, ◌+◌, ◌%◌, ◌^◌, ◌≡◌, ap, ◌∙◌, List, [], ◌∷◌, ◌++◌, ltb, if◌then◌else◌, Error, ok, err, length,
  replicate, arith, length-append, append_assoc, Filled, Filled-start, Filled-next, append-nil,
  copy_at,
}
use pelagos.Base.Bytes.{put_be, length-put_be}
use pelagos.Packet.{
  Packet, IsPacket, HasArrays, put_header, put_body, marshal, compute_aad, signed_bytes,
  max_payload, min_header_size,
}

abbrev pub header : Packet → List ℕ
header p =
    put_be 2 p.version
    ++ ((p.type ∷ [])
        ++ (put_be 4 p.epoch
            ++ (put_be 8 p.sequence
                ++ (p.sender_fingerprint ++ (p.recipient_fingerprint ++ p.ephemeral_public_key)))))

abbrev pub body : Packet → List ℕ
body p = p.nonce ++ (put_be 4 (length p.payload % 2 ^ 32) ++ p.payload)

abbrev pub wire : Packet → List ℕ
wire p = header p ++ (body p ++ p.signature)

pub IsPacket-HasArrays : {p : Packet} → IsPacket p → HasArrays p
IsPacket-HasArrays k = record {
  sender_size = k.sender_array.0;
  recipient_size = k.recipient_array.0;
  key_size = k.key_array.0;
  nonce_size = k.nonce_array.0;
  signature_size = k.signature_array.0;
}

module _ (p : Packet) (a : HasArrays p) where
  put_header-Filled :
      (rest : ℕ) → Filled 111 rest (put_header p (replicate (111 + rest) 0)) (header p)
  unfolding put_header
  put_header-Filled rest =
      let two = length-put_be 2 p.version in
      let four = length-put_be 4 p.epoch in
      let eight = length-put_be 8 p.sequence in
      let start = Filled-start (111 + rest) in
      let g = Filled-next (put_be 2 p.version) 2 (109 + rest) start (omega arith) (omega arith) in
      let g = Filled-next (p.type ∷ []) 3 (108 + rest) g (omega arith) (omega arith) in
      let g = Filled-next (put_be 4 p.epoch) 7 (104 + rest) g (omega arith) (omega arith) in
      let g = Filled-next (put_be 8 p.sequence) 15 (96 + rest) g (omega arith) (omega arith) in
      let g =
        Filled-next p.sender_fingerprint 47 (64 + rest) g (omega (arith, a.sender_size))
          (omega (arith, a.sender_size)) in
      let g =
        Filled-next p.recipient_fingerprint 79 (32 + rest) g (omega (arith, a.recipient_size))
          (omega (arith, a.recipient_size)) in
      let g =
        Filled-next p.ephemeral_public_key 111 rest g (omega (arith, a.key_size))
          (omega (arith, a.key_size)) in
      simp append_assoc at g

  put_body-Filled :
      (rest : ℕ) {buf front : List ℕ}
      → Filled 111 (28 + length p.payload + rest) buf front
      → Filled (139 + length p.payload) rest (put_body p buf) (front ++ body p)
  unfolding put_body
  put_body-Filled rest {buf} {front} g =
      let n = length p.payload in
      let four = length-put_be 4 (n % 2 ^ 32) in
      let g =
        Filled-next p.nonce 135 (4 + n + rest) g (omega (arith, a.nonce_size))
          (omega (arith, a.nonce_size)) in
      let g = Filled-next (put_be 4 (n % 2 ^ 32)) 139 (n + rest) g (omega arith) (omega arith) in
      let g = Filled-next p.payload (139 + n) rest g (omega arith) (omega arith) in
      simp append_assoc at g

  pub length-header : length (header p) ≡ 111
  length-header = (put_header-Filled 0).written

  -- `ComputeAAD` yields the header fields in order.
  pub compute_aad-header : compute_aad p ≡ header p
  unfolding compute_aad
  compute_aad-header = (put_header-Filled 0).contents ∙ append-nil (header p)

  -- `SignedBytes` yields the header, the nonce, the length and the payload.
  pub signed_bytes-fields : signed_bytes p ≡ header p ++ body p
  unfolding signed_bytes
  signed_bytes-fields =
      let n = length p.payload in
      ap (λ (k : ℕ). put_body p (put_header p (replicate k 0))) {y = 111 + (28 + n + 0)}
        (omega arith)
      ∙ (put_body-Filled 0 (put_header-Filled (28 + n + 0))).contents
      ∙ append-nil (header p ++ body p)

  -- `Marshal` refuses a payload above 10 MB, and otherwise yields the whole layout.
  pub marshal-wire :
      marshal p
      ≡ (if ltb max_payload (length p.payload) then err Error.payload_limit else ok (wire p))
  unfolding marshal
  marshal-wire =
      let n = length p.payload in
      let g =
        Filled-next p.signature (139 + n + 64) 0
          (put_body-Filled 64 (put_header-Filled (28 + n + 64))) (omega (arith, a.signature_size))
          (omega (arith, a.signature_size)) in
      ap (λ (b : List ℕ). if ltb max_payload n then err Error.payload_limit else ok b)
        (ap
            (λ (k : ℕ).
              copy_at (put_body p (put_header p (replicate k 0))) (139 + n) (139 + n + 64)
                p.signature)
            {x = 203 + n} {y = 111 + (28 + n + 64)} (omega arith)
          ∙ g.contents
          ∙ simp (append-nil, append_assoc))

  pub length-wire : length (wire p) ≡ min_header_size + length p.payload
  length-wire =
      rw
        (
          length-append (header p) (body p ++ p.signature),
          length-append (body p) p.signature,
          length-append p.nonce (put_be 4 (length p.payload % 2 ^ 32) ++ p.payload),
          length-append (put_be 4 (length p.payload % 2 ^ 32)) p.payload,
          length-header,
          length-put_be 4 (length p.payload % 2 ^ 32),
          a.nonce_size,
          a.signature_size,
        )
        (omega arith)
