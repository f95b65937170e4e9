-- ===== src/Web/Pairing.antt =====
-- Pairing over the web interface, from the offer of one device to the contact book of the other.
use pelagos.Base.{ℕ, ◌≤◌, ◌≡◌, refl, ◌∙◌, List, [], All, some, ok, length}
use pelagos.Base.Bytes.{IsByte}
use pelagos.Base.Maps.{bytes_equal_refl}
use pelagos.Client.{
  Network, Manager, ManagerState, Contact, get_active_identity, get_contact_by_fp, save_contact,
}
use pelagos.Client.Contacts.{entry, get_contact_by_fp-save_contact}
use pelagos.Crypto.Library.{GoCrypto}
use pelagos.Crypto.Laws.{GoCryptoLaws}
use pelagos.Http.{answered}
use pelagos.Identity.{Identity, fingerprint}
use pelagos.Identity.Format.{hex_encode, format_fingerprint}
use pelagos.Identity.Hex.{hex_decode-hex_encode}
use pelagos.Identity.Pairing.{PairingPayload, marshal_payload, unmarshal_payload, payload_sas}
use pelagos.Identity.Pairing.Agreement.{Offered, offered}
use pelagos.Identity.Pairing.Codec.{unmarshal-marshal_payload}
use pelagos.Web.{
  Body, Offer, Paired, active_identity, make_offer, open_offer, keep_peer, handle_pair_create,
  handle_pair_open,
}

module _ (c : GoCrypto) (L : GoCryptoLaws c) (n : Network) (alice bob : Identity)
    (alias pin : List ℕ) (ma mb : Manager c n) (wa wb : Network.World n) (g h : GoCrypto.Rng c)
    (active_a : get_active_identity c n ma ≡ some alice)
    (active_b : get_active_identity c n mb ≡ some bob) (size : length alice.public_key ≡ 32)
    (key_bytes : All IsByte alice.public_key) (alias_bytes : All IsByte alias)
    (long : 4 ≤ length pin) where
  abbrev the_offer : Offered c L alice bob alias pin g size long
  the_offer = offered c L alice bob alias pin g size long

  abbrev shown : Offer
  shown = record {
    payload_hex = hex_encode (marshal_payload the_offer.payload);
    fingerprint = format_fingerprint (fingerprint c alice);
  }

  offer_lem :
      handle_pair_create c n (some (record { pin = pin; alias = alias })) (ma, (wa, g))
      ≡ (ok (answered (Body.offer shown)), (ma, (wa, the_offer.rng)))
  unfolding handle_pair_create make_offer active_identity
  offer_lem = rw (active_a, the_offer.created)

  -- What the opener saves.
  abbrev new_contact : Contact
  new_contact = entry c n alice.public_key alias [] (n.now wb).0

  abbrev outcome : Paired
  outcome = record {
    sas_code = the_offer.code;
    contact = new_contact;
    peer_alias = alias;
    fingerprint = format_fingerprint (fingerprint c alice);
  }

  abbrev after : ManagerState c n
  after = (save_contact c n alice.public_key alias [] (mb, (wb, h))).1

  saved :
      ((save_contact c n alice.public_key alias [] (mb, (wb, h))).0 ≡ ok new_contact)
      × (get_contact_by_fp c n (c.sha256 alice.public_key) after.0 ≡ some new_contact)
  saved =
      let (e, f) =
        get_contact_by_fp-save_contact c n alice.public_key alias [] (c.sha256 alice.public_key) mb
          wb h size in
      (e, f ∙ rw (bytes_equal_refl (c.sha256 alice.public_key)))

  open_lem :
      handle_pair_open c n
        (some (record { pin = pin; payload_hex = shown.payload_hex }))
        (mb, (wb, h))
      ≡ (ok (answered (Body.paired outcome)), after)
  unfolding handle_pair_open open_offer active_identity keep_peer
  open_lem = rw (
    hex_decode-hex_encode (marshal_payload the_offer.payload)
        (the_offer.payload_bytes key_bytes alias_bytes),
    unmarshal-marshal_payload the_offer.payload the_offer.payload_valid,
    active_b,
    the_offer.opens,
    saved.0,
  )

  -- Two devices with working libraries, each with an active identity, the first one's key of 32
  -- bytes, over their web interfaces: the offer that the first makes under a PIN of at least four
  -- characters is answered, and when the other opens it under the same PIN, it answers that they are
  -- paired and has the first device's key and alias in its contact book, under the fingerprint of
  -- that key. The code that it shows is what `GenerateSAS` returns for the payload in the offer on
  -- the first device, given the second device's public key and the PIN; the first device's interface
  -- itself answers with the payload and its fingerprint, and with no code.
  pub web_pairing :
      (o : Offer) × (p : PairingPayload) × (y z : ManagerState c n) × (done : Paired)
      × (handle_pair_create c n (some (record { pin = pin; alias = alias })) (ma, (wa, g))
          ≡ (ok (answered (Body.offer o)), y))
      × (handle_pair_open c n
            (some (record { pin = pin; payload_hex = o.payload_hex }))
            (mb, (wb, h))
          ≡ (ok (answered (Body.paired done)), z))
      × (unmarshal_payload (marshal_payload p) ≡ ok p)
      × (o.payload_hex ≡ hex_encode (marshal_payload p))
      × (payload_sas c p alice bob.public_key pin ≡ ok done.sas_code)
      × (get_contact_by_fp c n (c.sha256 alice.public_key) z.0 ≡ some done.contact)
      × (done.contact.peer_identity.public_key ≡ alice.public_key)
      × (done.contact.custom_alias ≡ alias)
  web_pairing = (
    shown,
    the_offer.payload,
    (ma, (wa, the_offer.rng)),
    after,
    outcome,
    offer_lem,
    open_lem,
    unmarshal-marshal_payload the_offer.payload the_offer.payload_valid,
    refl,
    the_offer.agrees,
    saved.1,
    refl,
    refl,
  )
