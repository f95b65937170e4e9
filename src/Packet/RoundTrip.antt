-- ===== src/Packet/RoundTrip.antt =====
-- `Unmarshal` of packet.go reads back what `Marshal` wrote, and accepts nothing else.
use pelagos.Base.{
  ℕ, ◌+◌, ◌%◌, ◌^◌, ◌<◌, ◌≤◌, ◌≡◌, refl, ap, ◌∙◌, List, [], ◌∷◌, ◌++◌, ltb, ok, length,
  length-append, arith, append_assoc, append-nil, slice, slice_field, drop-append, overwrite_all,
  Bool-cases, inl, inr, le→leb, le→ltb, ltb→le, ==_iff, some, replicate, length-replicate,
}
use pelagos.Base.Bytes.{put_be, get_be, length-put_be, get_be-put_be}
use pelagos.Packet.{
  Packet, IsPacket, HasArrays, marshal, unmarshal, get_header, get_body, byte_at, checked_slice,
  max_payload, current_protocol_version, min_header_size,
}
use pelagos.Packet.Wire.{wire, marshal-wire, IsPacket-HasArrays}

-- The buffer `b` holds the fields of `p` at the offsets of packet.go.
pub record Decodes (b : List ℕ) (p : Packet) : Type 0 where
  pub size : length b ≡ min_header_size + length p.payload
  pub version_at : get_be (slice 0 2 b) ≡ p.version
  pub type_at : byte_at 2 b ≡ p.type
  pub epoch_at : get_be (slice 3 7 b) ≡ p.epoch
  pub sequence_at : get_be (slice 7 15 b) ≡ p.sequence
  pub sender_at : slice 15 47 b ≡ p.sender_fingerprint
  pub recipient_at : slice 47 79 b ≡ p.recipient_fingerprint
  pub key_at : slice 79 111 b ≡ p.ephemeral_public_key
  pub nonce_at : slice 111 135 b ≡ p.nonce
  pub length_at : get_be (slice 135 139 b) ≡ length p.payload
  pub payload_at : slice 139 (139 + length p.payload) b ≡ p.payload
  pub signature_at : slice (139 + length p.payload) (139 + length p.payload + 64) b ≡ p.signature

length-++ : (xs ys : List ℕ) (a b : ℕ) → length xs ≡ a → length ys ≡ b → length (xs ++ ys) ≡ a + b
length-++ xs ys a b h k = omega (arith, length-append xs ys)

-- What of the numbers of a packet the layout has room for.
pub record HasRoom (p : Packet) : Type 0 where
  pub version_fits : p.version < 2 ^ 16
  pub epoch_fits : p.epoch < 2 ^ 32
  pub sequence_fits : p.sequence < 2 ^ 64

IsPacket-HasRoom : {p : Packet} → IsPacket p → HasRoom p
IsPacket-HasRoom v = record {
  version_fits = v.version_fits;
  epoch_fits = v.epoch_fits;
  sequence_fits = v.sequence_fits;
}

module _ (p : Packet) (v : HasRoom p) (a : HasArrays p) (fits : length p.payload < 2 ^ 32) where
  field_at :
      (front src behind : List ℕ) (lo hi : ℕ)
      → wire p ≡ front ++ (src ++ behind)
      → length front ≡ lo
      → lo + length src ≡ hi
      → slice lo hi (wire p) ≡ src
  field_at front src behind lo hi e f h =
      ap (slice lo hi) e ∙ slice_field front src behind lo hi f h

  wire-Decodes : Decodes (wire p) p
  wire-Decodes =
      let n : ℕ = length p.payload in
      let two = length-put_be 2 p.version in
      let four = length-put_be 4 p.epoch in
      let eight = length-put_be 8 p.sequence in
      let lens = length-put_be 4 (n % 2 ^ 32) in
      let f1 : List ℕ = put_be 2 p.version in
      let f2 : List ℕ = f1 ++ (p.type ∷ []) in
      let l2 : length f2 ≡ 3 = length-++ f1 (p.type ∷ []) 2 1 two refl in
      let f3 : List ℕ = f2 ++ put_be 4 p.epoch in
      let l3 : length f3 ≡ 7 = length-++ f2 (put_be 4 p.epoch) 3 4 l2 four in
      let f4 : List ℕ = f3 ++ put_be 8 p.sequence in
      let l4 : length f4 ≡ 15 = length-++ f3 (put_be 8 p.sequence) 7 8 l3 eight in
      let f5 : List ℕ = f4 ++ p.sender_fingerprint in
      let l5 : length f5 ≡ 47 = length-++ f4 p.sender_fingerprint 15 32 l4 a.sender_size in
      let f6 : List ℕ = f5 ++ p.recipient_fingerprint in
      let l6 : length f6 ≡ 79 = length-++ f5 p.recipient_fingerprint 47 32 l5 a.recipient_size in
      let f7 : List ℕ = f6 ++ p.ephemeral_public_key in
      let l7 : length f7 ≡ 111 = length-++ f6 p.ephemeral_public_key 79 32 l6 a.key_size in
      let f8 : List ℕ = f7 ++ p.nonce in
      let l8 : length f8 ≡ 135 = length-++ f7 p.nonce 111 24 l7 a.nonce_size in
      let f9 : List ℕ = f8 ++ put_be 4 (n % 2 ^ 32) in
      let l9 : length f9 ≡ 139 = length-++ f8 (put_be 4 (n % 2 ^ 32)) 135 4 l8 lens in
      let f10 : List ℕ = f9 ++ p.payload in
      let l10 : length f10 ≡ 139 + n = length-++ f9 p.payload 139 n l9 refl in
      let b9 : List ℕ = p.payload ++ p.signature in
      let b8 : List ℕ = put_be 4 (n % 2 ^ 32) ++ b9 in
      let b7 : List ℕ = p.nonce ++ b8 in
      let b6 : List ℕ = p.ephemeral_public_key ++ b7 in
      let b5 : List ℕ = p.recipient_fingerprint ++ b6 in
      let b4 : List ℕ = p.sender_fingerprint ++ b5 in
      let b3 : List ℕ = put_be 8 p.sequence ++ b4 in
      let b2 : List ℕ = put_be 4 p.epoch ++ b3 in
      let whole : wire p ≡ f10 ++ p.signature = simp append_assoc in
      record {
        size =
            ap length whole
            ∙ length-++ f10 p.signature (139 + n) 64 l10 a.signature_size
            ∙ omega arith;
        version_at =
            ap get_be (field_at [] f1 (p.type ∷ b2) 0 2 (simp append_assoc) refl (omega arith))
            ∙ get_be-put_be 2 p.version v.version_fits;
        type_at =
            ap (byte_at 2) {x = wire p} {y = f1 ++ (p.type ∷ b2)} (simp append_assoc)
            ∙ ap (λ (l : List ℕ). byte_at 0 l) (drop-append f1 (p.type ∷ b2) 2 two);
        epoch_at =
            ap get_be (field_at f2 (put_be 4 p.epoch) b3 3 7 (simp append_assoc) l2 (omega arith))
            ∙ get_be-put_be 4 p.epoch v.epoch_fits;
        sequence_at =
            ap get_be
              (field_at f3 (put_be 8 p.sequence) b4 7 15 (simp append_assoc) l3 (omega arith))
            ∙ get_be-put_be 8 p.sequence v.sequence_fits;
        sender_at =
            field_at f4 p.sender_fingerprint b5 15 47 (simp append_assoc) l4
              (omega (arith, a.sender_size));
        recipient_at =
            field_at f5 p.recipient_fingerprint b6 47 79 (simp append_assoc) l5
              (omega (arith, a.recipient_size));
        key_at =
            field_at f6 p.ephemeral_public_key b7 79 111 (simp append_assoc) l6
              (omega (arith, a.key_size));
        nonce_at =
            field_at f7 p.nonce b8 111 135 (simp append_assoc) l7 (omega (arith, a.nonce_size));
        length_at =
            ap get_be
              (field_at f8 (put_be 4 (n % 2 ^ 32)) b9 135 139 (simp append_assoc) l8 (omega arith))
            ∙ get_be-put_be 4 (n % 2 ^ 32) (omega arith)
            ∙ omega arith;
        payload_at =
            field_at f9 p.payload p.signature 139 (139 + n) (simp append_assoc) l9 (omega arith);
        signature_at =
            field_at f10 p.signature [] (139 + n) (139 + n + 64) (simp (append_assoc, append-nil))
              l10 (omega (arith, a.signature_size));
      }

checked_slice_in :
    (lo hi : ℕ) (b : List ℕ)
    → lo ≤ hi
    → hi ≤ length b
    → checked_slice lo hi b ≡ some (slice lo hi b)
unfolding checked_slice
checked_slice_in lo hi b h k = rw (le→leb lo hi h, le→leb hi (length b) k)

module _ (p : Packet) (b : List ℕ) (d : Decodes b p) (s : HasArrays p) where
  get_header-Decodes :
      (q : Packet)
      → HasArrays q
      → get_header q b
        ≡ record p { version = q.version; payload = q.payload; signature = q.signature }
  unfolding get_header
  get_header-Decodes q a = ground (
    arith,
    d.type_at,
    d.epoch_at,
    d.sequence_at,
    overwrite_all q.sender_fingerprint (slice 15 47 b)
        (omega (arith, a.sender_size, s.sender_size, ap length d.sender_at)),
    d.sender_at,
    overwrite_all q.recipient_fingerprint (slice 47 79 b)
        (omega (arith, a.recipient_size, s.recipient_size, ap length d.recipient_at)),
    d.recipient_at,
    overwrite_all q.ephemeral_public_key (slice 79 111 b)
        (omega (arith, a.key_size, s.key_size, ap length d.key_at)),
    d.key_at,
    overwrite_all q.nonce (slice 111 135 b)
        (omega (arith, a.nonce_size, s.nonce_size, ap length d.nonce_at)),
    d.nonce_at,
  )

  module _ (fits : length p.payload + min_header_size < 2 ^ 32) where
    -- Below 4 GB no offset wraps.
    body_end : (139 + length p.payload) % 2 ^ 32 ≡ 139 + length p.payload
    body_end = omega arith

    frame_end : (139 + length p.payload + 64) % 2 ^ 32 ≡ 139 + length p.payload + 64
    frame_end = omega arith

    payload_slice : checked_slice 139 ((139 + length p.payload) % 2 ^ 32) b ≡ some p.payload
    payload_slice =
        ap (λ (hi : ℕ). checked_slice 139 hi b) body_end
        ∙ checked_slice_in 139 (139 + length p.payload) b (omega arith) (omega (arith, d.size))
        ∙ ap some d.payload_at

    signature_slice :
        checked_slice
          ((139 + length p.payload) % 2 ^ 32)
          (((139 + length p.payload) % 2 ^ 32 + 64) % 2 ^ 32)
          b
        ≡ some p.signature
    signature_slice =
        ap (λ (lo : ℕ). checked_slice lo ((lo + 64) % 2 ^ 32) b) body_end
        ∙ ap (λ (hi : ℕ). checked_slice (139 + length p.payload) hi b) frame_end
        ∙ checked_slice_in (139 + length p.payload) (139 + length p.payload + 64) b (omega arith)
            (omega (arith, d.size))
        ∙ ap some d.signature_at

    get_body-Decodes :
        (q : Packet)
        → length q.signature ≡ 64
        → get_body q b (length p.payload)
          ≡ (ok tt, record q { payload = p.payload; signature = p.signature })
    unfolding get_body
    get_body-Decodes q a = rw (
      payload_slice,
      get_body,
      signature_slice,
      overwrite_all (replicate (length p.payload) 0) p.payload (length-replicate _ 0),
      overwrite_all q.signature p.signature (omega (arith, a, s.signature_size)),
    )

    -- A buffer that holds the fields of `p` is read into any value of the struct as `p`.
    pub unmarshal-Decodes :
        (q : Packet)
        → HasArrays q
        → p.version ≤ current_protocol_version
        → unmarshal q b ≡ (ok tt, p)
    unfolding unmarshal
    unmarshal-Decodes q a v =
        rw
          (
            le→ltb (length b) min_header_size (omega (arith, d.size)),
            d.version_at,
            le→ltb current_protocol_version p.version v,
            d.length_at,
            (==_iff (length b) (min_header_size + length p.payload)).1 d.size,
            get_header-Decodes (record q { version = p.version }) (omega (arith, a)),
          )
          (get_body-Decodes _ a.signature_size)

-- A packet that fits the layout is encoded as it, and read back.
pub marshal_then_unmarshal :
    (p q : Packet)
    → HasRoom p
    → HasArrays p
    → HasArrays q
    → length p.payload ≤ max_payload
    → p.version ≤ current_protocol_version
    → (marshal p ≡ ok (wire p)) × (unmarshal q (wire p) ≡ (ok tt, p))
marshal_then_unmarshal p q v s a fits h = (
  marshal-wire p s ∙ ground arith,
  unmarshal-Decodes p (wire p) (wire-Decodes p v s (omega arith)) s (omega arith) q a h,
)

-- Whatever `Marshal` writes for a packet of the current version or an older one, `Unmarshal` reads
-- back as the same packet, into any value of the struct.
pub unmarshal-marshal :
    (p q : Packet) {b : List ℕ}
    → IsPacket p
    → HasArrays q
    → p.version ≤ current_protocol_version
    → marshal p ≡ ok b
    → unmarshal q b ≡ (ok tt, p)
unmarshal-marshal p q {b} v a h e =
    let s = IsPacket-HasArrays v in
    elim (Bool-cases (ltb max_payload (length p.payload))) [
      | inl big ↦ cc (e, marshal-wire p s, big)
      | inr small ↦
          let fits : length p.payload ≤ max_payload = ltb→le _ _ small in
          let same : wire p ≡ b = cc (e, marshal-wire p s, small) in
          rw (← same) (marshal_then_unmarshal p q (IsPacket-HasRoom v) s a fits h).1
    ]
