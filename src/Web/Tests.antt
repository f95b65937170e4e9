-- ===== src/Web/Tests.antt =====
-- Managers that pair, and one that is sent messages, over the web interface.
use pelagos.Base.{◌++◌, replicate, ℕ, suc, ◌≡◌, refl, List, [], ◌∷◌, none, some, false, ok, arith}
use pelagos.Base.Maps.{lookup, bytes_equal}
use pelagos.Base.Text.{codes}
use pelagos.Client.{
  Network, ManagerState, initial, get_active_identity, get_contact_by_fp, get_messages, Message,
}
use pelagos.Crypto.Toy.{toy, toy_laws}
use pelagos.Http.{answered}
use pelagos.Identity.Format.{hex_encode, hex_digit}
use pelagos.Identity.Hex.{hex_decode, hex_value}
use pelagos.Identity.Pairing.{PairingPayload, marshal_payload, unmarshal_payload, payload_sas}
use pelagos.Identity.Toy.{alice, bob}
use pelagos.Web.{
  Body, Offer, Paired, handle_pair_create, handle_pair_open, MessageRequest, get_method,
  post_method, handle_messages, resolve_fingerprint,
}
use pelagos.Web.Messages.{posted_is_shown}
use pelagos.Web.Pairing.{web_pairing}

abbrev still : Network
still = record {
  Conn = Unit {0};
  World = ℕ;
  dial = λ addr w. (none, w);
  send_packet = λ conn p w. (false, w);
  close = λ conn w. w;
  now = λ w. (w, suc w);
  dashed = λ a b. a ∷ b ∷ [];
}

abbrev secret : List ℕ
secret = codes "4711"

abbrev name : List ℕ
name = codes "ann"

web_pairing_example :
    (o : Offer) × (p : PairingPayload) × (y z : ManagerState toy still) × (done : Paired)
    × (handle_pair_create toy still
          (some (record { pin = secret; alias = name }))
          (initial toy still alice, (0, 3))
        ≡ (ok (answered (Body.offer o)), y))
    × (handle_pair_open toy still
          (some (record { pin = secret; payload_hex = o.payload_hex }))
          (initial toy still bob, (9, 4))
        ≡ (ok (answered (Body.paired done)), z))
    × (unmarshal_payload (marshal_payload p) ≡ ok p)
    × (o.payload_hex ≡ hex_encode (marshal_payload p))
    × (payload_sas toy p alice bob.public_key secret ≡ ok done.sas_code)
    × (get_contact_by_fp toy still (toy.sha256 alice.public_key) z.0 ≡ some done.contact)
    × (done.contact.peer_identity.public_key ≡ alice.public_key)
    × (done.contact.custom_alias ≡ name)
unfolding get_active_identity lookup bytes_equal
web_pairing_example =
    web_pairing toy toy_laws still alice bob name secret (initial toy still alice)
      (initial toy still bob) 0 9 3 4 refl refl refl (omega arith) (omega arith) (omega arith)

-- A peer that is no contact is taken by its fingerprint.
abbrev stranger : List ℕ
stranger = replicate 32 7

abbrev note : MessageRequest
note = record { peer_fp = hex_encode stranger; content = codes "hi" }

stranger_known : resolve_fingerprint toy still note.peer_fp (initial toy still alice) ≡ ok stranger
unfolding resolve_fingerprint get_contact_by_fp lookup bytes_equal hex_decode hex_value hex_encode
    hex_digit
stranger_known = refl

posted_is_shown_example :
    (msg : Message) × (y : ManagerState toy still) × (handle_messages toy still post_method []
        (some note)
        (initial toy still alice, (0, 3))
      ≡ (ok (answered (Body.message msg)), y))
    × (msg.content ≡ codes "hi")
    × (y.0.sessions ≡ [])
    × (y.0.active_conns ≡ [])
    × (y.1 ≡ (2, 3))
    × (handle_messages toy still get_method (hex_encode stranger) none y ≡ (
      ok (
          answered (
            Body.messages
              (get_messages toy still stranger (initial toy still alice) ++ (msg ∷ [])))),
      y,
    ))
posted_is_shown_example =
    posted_is_shown toy still (initial toy still alice) (0, 3) note stranger stranger_known
