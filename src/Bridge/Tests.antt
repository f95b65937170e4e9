-- ===== src/Bridge/Tests.antt =====
-- The functions of the bridge on one manager.
use pelagos.Base.{ℕ, suc, ◌≡◌, refl, [], ◌∷◌, none, some, ok, false}
use pelagos.Base.Text.{codes}
use pelagos.Bridge.{
  Problem, complaint, palagos_save_contact, palagos_pair_create, palagos_pair_open,
}
use pelagos.Bridge.Agreement.{Alike, bridge_matches_web}
use pelagos.Client.{Network, initial}
use pelagos.Crypto.Toy.{toy}
use pelagos.Identity.Format.{hex_encode}
use pelagos.Identity.Toy.{alice, bob}
use pelagos.Web.{
  ContactRequest, OfferRequest, OpenRequest, post_method, handle_contacts, handle_pair_create,
  handle_pair_open,
}

abbrev idle : Network
idle = record {
  Conn = Unit {0};
  World = ℕ;
  dial = λ addr w. (none, w);
  send_packet = λ conn p w. (false, w);
  close = λ conn w. w;
  now = λ w. (w, suc w);
  dashed = λ a b. a ∷ b ∷ [];
}

abbrev new_contact : ContactRequest
new_contact = record {
  public_key_hex = hex_encode bob.public_key;
  custom_alias = codes "bob";
  onion_address = [];
}

abbrev new_offer : OfferRequest
new_offer = record { pin = codes "4711"; alias = codes "ann" }

abbrev bad_offer : OpenRequest
bad_offer = record { pin = codes "4711"; payload_hex = codes "0g" }

-- Before the manager is made, a call only complains.
uninitialised_run :
    palagos_pair_create toy idle (codes "4711") (codes "ann") (none, (0, 0))
    ≡ (ok (complaint Problem.uninitialised), (none, (0, 0)))
unfolding palagos_pair_create
uninitialised_run = refl

bridge_matches_web_example :
    Alike toy idle
      (handle_contacts toy idle post_method (some new_contact) (initial toy idle alice, (0, 3)))
      (palagos_save_contact toy idle
        (hex_encode bob.public_key)
        (codes "bob")
        []
        (some (initial toy idle alice), (0, 3)))
    × Alike toy idle
        (handle_pair_create toy idle (some new_offer) (initial toy idle alice, (0, 3)))
        (palagos_pair_create toy idle
          (codes "4711")
          (codes "ann")
          (some (initial toy idle alice), (0, 3)))
    × Alike toy idle (handle_pair_open toy idle (some bad_offer) (initial toy idle alice, (0, 3))) (
        palagos_pair_open toy idle
          (codes "4711")
          (codes "0g")
          (some (initial toy idle alice), (0, 3)))
bridge_matches_web_example =
    bridge_matches_web toy idle (initial toy idle alice) (0, 3) new_contact new_offer bad_offer
