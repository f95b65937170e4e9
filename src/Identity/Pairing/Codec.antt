-- ===== src/Identity/Pairing/Codec.antt =====
-- `Marshal` and `UnmarshalPairingPayload` of pairing.go.
use pelagos.Base.{
  ℕ, ◌≤◌, ◌≡◌, ap, sym, ◌∙◌, List, ◌++◌, ok, length, slice, drop, drop-slice, length-slice,
  length-append, overwrite_all, replicate, length-replicate, le→ltb, take-append, slice_field,
  drop-append, drop-append_behind, arith,
}
use pelagos.Identity.Pairing.{PairingPayload, marshal_payload, unmarshal_payload}

-- The arrays of the struct have their sizes.
pub record IsPayload (p : PairingPayload) : Type 0 where
  pub salt_size : length p.salt ≡ 16
  pub nonce_size : length p.nonce ≡ 12

-- A serialised payload is read back as it was.
pub unmarshal-marshal_payload :
    (p : PairingPayload) → IsPayload p → unmarshal_payload (marshal_payload p) ≡ ok p
unfolding unmarshal_payload marshal_payload
unmarshal-marshal_payload p v =
    let bytes : List ℕ = p.salt ++ (p.nonce ++ p.ciphertext) in
    let cut_salt : slice 0 16 bytes ≡ p.salt =
      take-append p.salt (p.nonce ++ p.ciphertext) 16 v.salt_size in
    let cut_nonce : slice 16 28 bytes ≡ p.nonce =
      slice_field p.salt p.nonce p.ciphertext 16 28 v.salt_size (omega (arith, v.nonce_size)) in
    let cut_rest : drop 28 bytes ≡ p.ciphertext =
      drop-append_behind p.salt (p.nonce ++ p.ciphertext) 28 16 v.salt_size (omega arith)
      ∙ drop-append p.nonce p.ciphertext 12 v.nonce_size in
    rw (
      le→ltb (length bytes) 28 (
          omega (
            arith,
            v.salt_size,
            v.nonce_size,
            length-append p.salt (p.nonce ++ p.ciphertext),
            length-append p.nonce p.ciphertext,
          )),
      cut_salt,
      cut_nonce,
      cut_rest,
      overwrite_all (replicate 16 0) p.salt (sym v.salt_size),
      overwrite_all (replicate 12 0) p.nonce (sym v.nonce_size),
      overwrite_all (replicate (length p.ciphertext) 0) p.ciphertext (length-replicate _ 0),
    )

-- Data of at least 28 bytes is accepted, and what is read from it is written back byte for byte.
pub marshal-unmarshal_payload :
    (bytes : List ℕ)
    → 28 ≤ length bytes
    → (p : PairingPayload) × (unmarshal_payload bytes ≡ ok p)
      × IsPayload p
      × (marshal_payload p ≡ bytes)
unfolding unmarshal_payload marshal_payload
marshal-unmarshal_payload bytes h =
    let salt = slice 0 16 bytes in
    let nonce = slice 16 28 bytes in
    let rest = drop 28 bytes in
    let salt_size : length salt ≡ 16 = length-slice 0 16 bytes (omega arith) (omega arith) in
    let nonce_size : length nonce ≡ 12 = length-slice 16 28 bytes (omega arith) (omega arith) in
    (
      record { salt = salt; nonce = nonce; ciphertext = rest },
      rw (
        le→ltb (length bytes) 28 h,
        overwrite_all (replicate 16 0) salt (sym salt_size),
        overwrite_all (replicate 12 0) nonce (sym nonce_size),
        overwrite_all (replicate (length rest) 0) rest (length-replicate _ 0),
      ),
      record { salt_size = salt_size; nonce_size = nonce_size },
      ap (◌++◌ salt) (drop-slice 16 28 bytes (omega arith)) ∙ drop-slice 0 16 bytes (omega arith),
    )
