-- ===== src/Packet/Accepts.antt =====
-- What `Unmarshal` of packet.go accepts, and the error of every other buffer.
use pelagos.Base.{
  ℕ, Bool, true, false, subst, ◌+◌, ◌^◌, ◌<◌, ◌≤◌, ◌≡◌, refl, ap, sym, ◌∙◌, List, ltb,
  if◌then◌else◌, Result, Error, ok, err, length, arith, slice, Bool-cases, inl, inr, length-slice,
  ltb→le, ==_iff, ◌==◌,
}
use pelagos.Base.Bytes.{get_be}
use pelagos.Packet.{
  zero_packet, Packet, HasArrays, unmarshal, byte_at, current_protocol_version, min_header_size,
}
use pelagos.Packet.RoundTrip.{Decodes, unmarshal-Decodes}

-- The packet that a buffer of the right length holds.
unfoldable pub decode : List ℕ → Packet
decode b =
    let n = get_be (slice 135 139 b) in
    record {
      version = get_be (slice 0 2 b);
      type = byte_at 2 b;
      epoch = get_be (slice 3 7 b);
      sequence = get_be (slice 7 15 b);
      sender_fingerprint = slice 15 47 b;
      recipient_fingerprint = slice 47 79 b;
      ephemeral_public_key = slice 79 111 b;
      nonce = slice 111 135 b;
      payload = slice 139 (139 + n) b;
      signature = slice (139 + n) (139 + n + 64) b;
    }

module _ (b : List ℕ) (whole : length b ≡ min_header_size + get_be (slice 135 139 b)) where
  length-payload : length (decode b).payload ≡ get_be (slice 135 139 b)
  unfolding decode
  length-payload =
      let n : ℕ = get_be (slice 135 139 b) in
      length-slice 139 (139 + n) b (omega arith) (omega arith) ∙ omega arith

  decode-HasArrays : HasArrays (decode b)
  unfolding decode
  decode-HasArrays =
      let n : ℕ = get_be (slice 135 139 b) in
      record {
        sender_size = length-slice 15 47 b (omega arith) (omega arith);
        recipient_size = length-slice 47 79 b (omega arith) (omega arith);
        key_size = length-slice 79 111 b (omega arith) (omega arith);
        nonce_size = length-slice 111 135 b (omega arith) (omega arith);
        signature_size =
            length-slice (139 + n) (139 + n + 64) b (omega arith) (omega arith) ∙ omega arith;
      }

  decode-Decodes : Decodes b (decode b)
  decode-Decodes =
      let e = length-payload in
      record {
        size = rw e whole;
        version_at = unfold decode in refl;
        type_at = unfold decode in refl;
        epoch_at = unfold decode in refl;
        sequence_at = unfold decode in refl;
        sender_at = unfold decode in refl;
        recipient_at = unfold decode in refl;
        key_at = unfold decode in refl;
        nonce_at = unfold decode in refl;
        length_at = sym e;
        payload_at = rw e (unfold decode in refl);
        signature_at = rw e (unfold decode in refl);
      }

  decode-version : (decode b).version ≡ get_be (slice 0 2 b)
  unfolding decode
  decode-version = refl

  unmarshal-decode :
      (q : Packet)
      → HasArrays q
      → length b < 2 ^ 32
      → get_be (slice 0 2 b) ≤ current_protocol_version
      → unmarshal q b ≡ (ok tt, decode b)
  unmarshal-decode q a fits v =
      unmarshal-Decodes (decode b) b decode-Decodes decode-HasArrays (omega (arith, length-payload))
        q a (omega (arith, decode-version))

-- On every buffer below 4 GB `Unmarshal` returns, with the error of the first check that fails, and
-- with none exactly if the version is known and the length is that of the header and the payload.
pub unmarshal_verdict :
    (q : Packet) (b : List ℕ)
    → HasArrays q
    → length b < 2 ^ 32
    → (unmarshal q b).0 ≡ (
        if ltb (length b) min_header_size
        then err Error.short_buffer
        else if ltb current_protocol_version (get_be (slice 0 2 b))
        then err Error.unsupported_version
        else if length b == min_header_size + get_be (slice 135 139 b)
        then ok tt
        else err Error.length_mismatch)
unfolding unmarshal
unmarshal_verdict q b a fits = elim (Bool-cases (ltb (length b) min_header_size)) [
  | inl short ↦ rw short
  | inr long ↦ elim (Bool-cases (ltb current_protocol_version (get_be (slice 0 2 b)))) [
    | inl new ↦ rw (long, new)
    | inr known ↦ elim (Bool-cases (length b == min_header_size + get_be (slice 135 139 b))) [
      | inl fit ↦
          rw (long, known, fit)
            (rw (long, known, fit) at
              (ap (λ (r : Result (Unit {0}) × Packet). r.0)
                (unmarshal-decode b ((==_iff _ _).0 fit) q a fits (ltb→le _ _ known))))
      | inr off ↦ rw (long, known, off)
    ]
  ]
]

-- Success passes all three tests.
passed :
    (short new fit : Bool)
    → ◌≡◌ {A = Result (Unit {0})}
        (if short
          then err Error.short_buffer
          else if new
          then err Error.unsupported_version
          else if fit
          then ok tt
          else err Error.length_mismatch)
        (ok tt)
    → (new ≡ false) × (fit ≡ true)
passed true new fit e = cc
passed false true fit e = cc
passed false false true e = (refl, refl)
passed false false false e = cc

-- A buffer that `Unmarshal` accepts is read as the packet that it holds.
pub unmarshal-accepts :
    (q p : Packet) (b : List ℕ)
    → HasArrays q
    → length b < 2 ^ 32
    → unmarshal q b ≡ (ok tt, p)
    → Decodes b p × HasArrays p × (p.version ≤ current_protocol_version)
unmarshal-accepts q p b a fits e =
    let verdict : (unmarshal q b).0 ≡ ok tt = ap (λ (r : Result (Unit {0}) × Packet). r.0) e in
    let (old, fit) = passed _ _ _ (sym (unmarshal_verdict q b a fits) ∙ verdict) in
    let whole : length b ≡ min_header_size + get_be (slice 135 139 b) = (==_iff _ _).0 fit in
    let known : get_be (slice 0 2 b) ≤ current_protocol_version = ltb→le _ _ old in
    let same : decode b ≡ p =
      ap (λ (r : Result (Unit {0}) × Packet). r.1)
        (sym (unmarshal-decode b whole q a fits known) ∙ e) in
    (
      subst (Decodes b) same (decode-Decodes b whole),
      subst HasArrays same (decode-HasArrays b whole),
      subst (λ (p : Packet). p.version ≤ current_protocol_version) same
          (omega (arith, known, decode-version b whole)),
    )

pub zero_packet-HasArrays : HasArrays zero_packet
zero_packet-HasArrays = record {
  sender_size = refl;
  recipient_size = refl;
  key_size = refl;
  nonce_size = refl;
  signature_size = refl;
}
