-- ===== src/Packet/Binding.antt =====
-- What the associated data and the signature of packet.go bind: the bytes determine the fields.
use pelagos.Base.{ℕ, ◌^◌, ◌<◌, ◌≡◌, refl, ap, sym, ◌∙◌, List, [], ◌∷◌, ◌++◌, append_split}
use pelagos.Base.Bytes.{put_be, get_be, length-put_be, get_be-put_be}
use pelagos.Packet.{Packet, IsPacket, compute_aad, signed_bytes}
use pelagos.Packet.Wire.{
  header, body, IsPacket-HasArrays, compute_aad-header, signed_bytes-fields, length-header,
}

pub record SameHeader (p q : Packet) : Type 0 where
  pub same_version : p.version ≡ q.version
  pub same_type : p.type ≡ q.type
  pub same_epoch : p.epoch ≡ q.epoch
  pub same_sequence : p.sequence ≡ q.sequence
  pub same_sender : p.sender_fingerprint ≡ q.sender_fingerprint
  pub same_recipient : p.recipient_fingerprint ≡ q.recipient_fingerprint
  pub same_key : p.ephemeral_public_key ≡ q.ephemeral_public_key

put_be-injective : (k v u : ℕ) → v < 256 ^ k → u < 256 ^ k → put_be k v ≡ put_be k u → v ≡ u
put_be-injective k v u hv hu e = sym (get_be-put_be k v hv) ∙ ap get_be e ∙ get_be-put_be k u hu

-- Two numbers of one width at the front of equal texts are equal, and so are the rests.
split_number :
    (k v u : ℕ) (b d : List ℕ)
    → v < 256 ^ k
    → u < 256 ^ k
    → put_be k v ++ b ≡ put_be k u ++ d
    → (v ≡ u) × (b ≡ d)
split_number k v u b d hv hu e =
    let (first, rest) =
      append_split (put_be k v) b (put_be k u) d (length-put_be k v ∙ sym (length-put_be k u)) e in
    (put_be-injective k v u hv hu first, rest)

module _ (p q : Packet) (v : IsPacket p) (w : IsPacket q) where
  header-injective : header p ≡ header q → SameHeader p q
  header-injective e =
      let (version, e) = split_number 2 _ _ _ _ v.version_fits w.version_fits e in
      let (type, e) = append_split (p.type ∷ []) _ (q.type ∷ []) _ refl e in
      let (epoch, e) = split_number 4 _ _ _ _ v.epoch_fits w.epoch_fits e in
      let (sequence, e) = split_number 8 _ _ _ _ v.sequence_fits w.sequence_fits e in
      let (sender, e) = append_split _ _ _ _ (v.sender_array.0 ∙ sym w.sender_array.0) e in
      let (recipient, e) = append_split _ _ _ _ (v.recipient_array.0 ∙ sym w.recipient_array.0) e in
      record {
        same_version = version;
        same_type = cc type;
        same_epoch = epoch;
        same_sequence = sequence;
        same_sender = sender;
        same_recipient = recipient;
        same_key = e;
      }

  -- Packets with the same associated data agree in version, type, epoch, sequence number, both
  -- fingerprints and the ephemeral key.
  compute_aad-binds : compute_aad p ≡ compute_aad q → SameHeader p q
  compute_aad-binds e = header-injective (
      sym (compute_aad-header p (IsPacket-HasArrays v))
      ∙ e
      ∙ compute_aad-header q (IsPacket-HasArrays w))

  -- Packets with the same signed bytes agree in the header, the nonce and the payload.
  pub signed_bytes-binds :
      signed_bytes p ≡ signed_bytes q
      → SameHeader p q × (p.nonce ≡ q.nonce) × (p.payload ≡ q.payload)
  signed_bytes-binds e =
      let a = IsPacket-HasArrays v in
      let b = IsPacket-HasArrays w in
      let whole = sym (signed_bytes-fields p a) ∙ e ∙ signed_bytes-fields q b in
      let (head, rest) =
        append_split (header p) (body p) (header q) (body q)
          (length-header p a ∙ sym (length-header q b)) whole in
      let (nonce, rest) = append_split _ _ _ _ (v.nonce_array.0 ∙ sym w.nonce_array.0) rest in
      let (_, payload) = append_split _ _ _ _ (length-put_be 4 _ ∙ sym (length-put_be 4 _)) rest in
      (header-injective head, nonce, payload)
