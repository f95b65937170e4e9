-- ===== src/Packet/Canonical.antt =====
-- Encoding again what packet.go has decoded.
use pelagos.Base.{
  ℕ, zero, suc, take, ap₂, ◌+◌, ◌-◌, ◌%◌, ◌^◌, ◌<◌, ◌≤◌, ◌≡◌, refl, ap, sym, ◌∙◌, List, [], ◌∷◌,
  ◌++◌, ok, length, arith, append_assoc, slice, drop, drop-slice, All, length-slice, le→ltb,
  take_all, length-drop,
}
use pelagos.Base.Bytes.{put_be, get_be, put_be-get_be, IsByte}
use pelagos.Packet.{Packet, HasArrays, marshal, unmarshal, byte_at, max_payload, min_header_size}
use pelagos.Packet.Wire.{body, wire, marshal-wire}
use pelagos.Packet.RoundTrip.{Decodes}
use pelagos.Packet.Accepts.{unmarshal-accepts}

All-drop : (n : ℕ) (b : List ℕ) → All IsByte b → All IsByte (drop n b)
All-drop zero b h = h
All-drop (suc n) [] h = tt
All-drop (suc n) (x ∷ b) h = All-drop n b h.1

All-take : (n : ℕ) (b : List ℕ) → All IsByte b → All IsByte (take n b)
All-take zero b h = tt
All-take (suc n) [] h = tt
All-take (suc n) (x ∷ b) h = (h.0, All-take n b h.1)

-- Writing a number where it was read gives the bytes back.
put_be-slice :
    (k lo hi v : ℕ) (b : List ℕ)
    → All IsByte b
    → lo ≤ hi
    → hi ≤ length b
    → hi - lo ≡ k
    → get_be (slice lo hi b) ≡ v
    → put_be k v ≡ slice lo hi b
put_be-slice k lo hi v b h l m e r =
    ap₂ put_be (sym (length-slice lo hi b l m ∙ e)) (sym r)
    ∙ put_be-get_be (slice lo hi b) (All-take (hi - lo) (drop lo b) (All-drop lo b h))

byte-slice : (b : List ℕ) → 3 ≤ length b → byte_at 2 b ∷ [] ≡ slice 2 3 b
byte-slice [] h = absurd (omega arith)
byte-slice (x ∷ []) h = absurd (omega arith)
byte-slice (x ∷ y ∷ []) h = absurd (omega arith)
byte-slice (x ∷ y ∷ z ∷ b) h = refl

join_field :
    (src rest : List ℕ) (lo hi : ℕ) (b : List ℕ)
    → lo ≤ hi
    → src ≡ slice lo hi b
    → rest ≡ drop hi b
    → src ++ rest ≡ drop lo b
join_field src rest lo hi b h e f = ap₂ ◌++◌ e f ∙ drop-slice lo hi b h

module _ (p : Packet) (b : List ℕ) (d : Decodes b p) (h : All IsByte b) where
  tail_field : p.signature ≡ drop (139 + length p.payload) b
  tail_field =
      sym d.signature_at
      ∙ take_all (drop (139 + length p.payload) b) _
          (omega (arith, length-drop (139 + length p.payload) b, d.size))

  body_joined : length b < 2 ^ 32 → body p ++ p.signature ≡ drop 111 b
  body_joined fits =
      let n : ℕ = length p.payload in
      let lens : put_be 4 (n % 2 ^ 32) ≡ slice 135 139 b =
        ap (put_be 4) {y = n} (omega (arith, d.size))
        ∙ put_be-slice 4 135 139 n b h (omega arith) (omega (arith, d.size)) refl d.length_at in
      simp append_assoc (
        join_field _ _ 111 135 b (omega arith) (sym d.nonce_at) (
          join_field _ _ 135 139 b (omega arith) lens
            (join_field _ _ 139 (139 + n) b (omega arith) (sym d.payload_at) tail_field)))

  Decodes-wire : length b < 2 ^ 32 → wire p ≡ b
  Decodes-wire fits =
      let long : min_header_size ≤ length b = omega (arith, d.size) in
      let number = λ (k lo hi v : ℕ). put_be-slice k lo hi v b h in
      simp append_assoc (
        join_field _ _ 0 2 b (omega arith)
          (number 2 0 2 p.version (omega arith) (omega arith) refl d.version_at)
          (join_field (p.type ∷ []) _ 2 3 b (omega arith)
            (ap (λ (t : ℕ). t ∷ []) (sym d.type_at) ∙ byte-slice b (omega arith))
            (join_field _ _ 3 7 b (omega arith)
              (number 4 3 7 p.epoch (omega arith) (omega arith) refl d.epoch_at)
              (join_field _ _ 7 15 b (omega arith)
                (number 8 7 15 p.sequence (omega arith) (omega arith) refl d.sequence_at)
                (join_field _ _ 15 47 b (omega arith) (sym d.sender_at) (
                  join_field _ _ 47 79 b (omega arith) (sym d.recipient_at) (
                    join_field _ _ 79 111 b (omega arith) (sym d.key_at)
                      (simp append_assoc at (body_joined fits)))))))))

-- The format is canonical up to the limit of `Marshal`: a buffer of at most 10 MB and 203 bytes that
-- `Unmarshal` accepts, into any packet whose arrays have their sizes, is what `Marshal` writes back,
-- byte for byte.
pub marshal-unmarshal :
    (q p : Packet) (b : List ℕ)
    → HasArrays q
    → All IsByte b
    → length b ≤ max_payload + min_header_size
    → unmarshal q b ≡ (ok tt, p)
    → marshal p ≡ ok b
marshal-unmarshal q p b a h fits e =
    let (d, s, _) = unmarshal-accepts q p b a (omega arith) e in
    rw (
      marshal-wire p s,
      le→ltb max_payload (length p.payload) (omega (arith, d.size)),
      Decodes-wire p b d h (omega arith),
    )
