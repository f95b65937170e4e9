-- ===== src/Session/Steps.antt =====
-- One run of each part of session.go between peers that know one another's identity key.
use pelagos.Base.{
  ℕ, ◌≡◌, refl, ap, sym, ◌∙◌, List, [], ◌++◌, true, ok, length, length-append, slice, slice_field,
  overwrite_all, le→ltb, take-append, append-nil, arith,
}
use pelagos.Crypto.Library.{GoCrypto}
use pelagos.Crypto.Laws.{GoCryptoLaws}
use pelagos.Identity.{Identity, PeerIdentity, verify_signature}
use pelagos.Identity.Laws.{SigningLaws, sign_lem, verify-sign_lem}
use pelagos.Packet.{Packet, signed_bytes}
use pelagos.Session.{sign_packet, verified_key}

-- `peer` is what the other side has on record of `id`: the right public key.
pub record Trusted (c : GoCrypto) (S : SigningLaws c) (id : Identity) (peer : PeerIdentity)
    : Type 0 where
  pub pair : S.IsPair id.public_key id.private_key
  pub on_record : peer.public_key ≡ id.public_key

-- A packet with the signature of its bytes.
abbrev pub signed : (c : GoCrypto) → Identity → Packet → Packet
signed c id pkt = record pkt { signature = c.ed25519_sign id.private_key (signed_bytes pkt) }

-- The signature is no part of what is signed.
pub signed_bytes-signature :
    (pkt : Packet) (sig : List ℕ) → signed_bytes (record pkt { signature = sig }) ≡ signed_bytes pkt
unfolding signed_bytes
signed_bytes-signature pkt sig = refl

module _ (c : GoCrypto) (S : SigningLaws c) (id : Identity) (peer : PeerIdentity)
    (t : Trusted c S id peer) where
  pub sign_packet_lem :
      (pkt : Packet) → length pkt.signature ≡ 64 → sign_packet c id pkt ≡ ok (signed c id pkt)
  unfolding sign_packet
  sign_packet_lem pkt size = rw (
    sign_lem c S id t.pair (signed_bytes pkt),
    overwrite_all pkt.signature (c.ed25519_sign id.private_key (signed_bytes pkt))
        (size ∙ sym (S.signature_size id.private_key (signed_bytes pkt))),
  )

  pub signed-verifies :
      (pkt : Packet)
      → verify_signature c peer (signed_bytes (signed c id pkt)) (signed c id pkt).signature ≡ true
  signed-verifies pkt =
      rw (signed_bytes-signature pkt (c.ed25519_sign id.private_key (signed_bytes pkt)))
        (verify-sign_lem c S id t.pair peer (signed_bytes pkt) t.on_record)

  -- A signed handshake packet is read as the key that it carries.
  pub verified_key_lem :
      (L : GoCryptoLaws c) (k : GoCrypto.PublicKey c) (pkt : Packet)
      → pkt.payload ≡ c.public_bytes k ++ c.ed25519_sign id.private_key (c.public_bytes k)
      → verified_key c peer (signed c id pkt) ≡ ok k
  unfolding verified_key
  verified_key_lem L k pkt e =
      let epub = c.public_bytes k in
      let sig = c.ed25519_sign id.private_key epub in
      let size : length epub ≡ 32 = L.public_bytes_size k in
      let sig_size : length sig ≡ 64 = S.signature_size id.private_key epub in
      let cut : slice 32 96 (epub ++ sig) ≡ sig =
        ap (λ (l : List ℕ). slice 32 96 (epub ++ l)) (sym (append-nil sig))
        ∙ slice_field epub sig [] 32 96 size (omega (arith, sig_size)) in
      rw (
        signed-verifies pkt,
        e,
        le→ltb (length (epub ++ sig)) 96 (omega (arith, length-append epub sig)),
        take-append epub sig 32 size,
        cut,
        verify-sign_lem c S id t.pair peer epub t.on_record,
        L.new_public_key_bytes k,
      )
