-- ===== src/Bridge/Agreement.antt =====
-- The bridge of pkg/bridge against the web interface of pkg/client.
use pelagos.Base.{
  or_fail, ℕ, ◌≡◌, refl, ap, sym, List, [], Option, none, some, Result, Error, ok, err, panic,
}
use pelagos.Base.Maps.{bytes_equal}
use pelagos.Base.State.{Act, continue, lift}
use pelagos.Bridge.{
  Problem, failed, bad_public_key_hex, bad_payload_hex, Returned, complaint, or_complain, returning,
  BridgeState, kept, palagos_save_contact, palagos_pair_create, palagos_pair_open, save_peer,
}
use pelagos.Client.{Network, Manager, ManagerState, save_contact, on_rng}
use pelagos.Identity.Hex.{hex_decode}
use pelagos.Crypto.Library.{GoCrypto}
use pelagos.Http.{
  Reply, refused, answered, answer, or_status, status_bad_request, status_internal_server_error,
}
use pelagos.Identity.{PeerIdentity}
use pelagos.Identity.Pairing.{unmarshal_payload, create_pairing_payload, open_pairing_payload}
use pelagos.Web.{
  Body, ContactRequest, OfferRequest, OpenRequest, post_method, active_identity, handle_contacts,
  handle_pair_create, handle_pair_open, add_contact, make_offer, open_offer, keep_peer,
}

-- What a body tells, where the bridge can tell it too.
abbrev pub of_body : Body → Option Returned
of_body (Body.contact k) = some (Returned.contact k)
of_body (Body.offer o) = some (Returned.offer o)
of_body (Body.paired p) = some (Returned.paired p)
of_body (Body.profile p) = none
of_body (Body.contacts ks) = none
of_body (Body.message m) = none
of_body (Body.messages ms) = none
of_body Body.done = none
of_body Body.blank = none

abbrev pub of_reply : Result (Reply Body) → Result (Option Returned)
of_reply (ok (refused status)) = ok none
of_reply (ok (answered b)) = ok (of_body b)
of_reply (err e) = err e
of_reply panic = panic

-- A failure is seen without its words.
abbrev pub of_returned : Result Returned → Result (Option Returned)
of_returned (ok (complaint p)) = ok none
of_returned (ok Returned.fine) = ok (some Returned.fine)
of_returned (ok (Returned.keys k)) = ok (some (Returned.keys k))
of_returned (ok (Returned.contact k)) = ok (some (Returned.contact k))
of_returned (ok (Returned.offer o)) = ok (some (Returned.offer o))
of_returned (ok (Returned.paired p)) = ok (some (Returned.paired p))
of_returned (ok (Returned.message m)) = ok (some (Returned.message m))
of_returned (err e) = err e
of_returned panic = panic

unfoldable Agree : {S : Type 0} → Result (Reply Body) × S → Result Returned × S → Type 0
Agree web bridge = (of_reply web.0 ≡ of_returned bridge.0) × (web.1 ≡ bridge.1)

module _ {S A : Type 0} where
  or_status-Agree :
      (status : ℕ) (wording : Error → Problem) (r : Result A × S) (f : A → Act S (Reply Body))
      (g : A → Act S Returned)
      → ((a : A) (y : S) → Agree (f a y) (g a y))
      → Agree (or_status status r f) (or_complain wording r g)
  unfolding Agree
  or_status-Agree status wording (ok a, y) f g h = h a y
  or_status-Agree status wording (err e, y) f g h = (refl, refl)
  or_status-Agree status wording (panic, y) f g h = (refl, refl)

  answer-Agree :
      (status : ℕ) (wording : Error → Problem) (r : Result A × S) (f : A → Body) (g : A → Returned)
      → ((a : A) → ok (of_body (f a)) ≡ of_returned (ok (g a)))
      → Agree
          (or_status status r (λ a. answer (f a)))
          (or_complain wording r (λ a. returning (g a)))
  unfolding Agree
  answer-Agree status wording (ok a, y) f g h = (h a, refl)
  answer-Agree status wording (err e, y) f g h = (refl, refl)
  answer-Agree status wording (panic, y) f g h = (refl, refl)

  -- A call that neither side looks at the error of.
  continue-Agree :
      (r : Result A × S) (f : A → Act S (Reply Body)) (g : A → Act S Returned)
      → ((a : A) (y : S) → Agree (f a y) (g a y))
      → Agree (continue r f) (continue r g)
  unfolding Agree
  continue-Agree (ok a, y) f g h = h a y
  continue-Agree (err e, y) f g h = (refl, refl)
  continue-Agree (panic, y) f g h = (refl, refl)

module _ (c : GoCrypto) (n : Network) where
  -- The same news, and the same manager afterwards.
  unfoldable pub Alike :
      Result (Reply Body) × ManagerState c n → Result Returned × BridgeState c n → Type 0
  Alike web bridge = (of_reply web.0 ≡ of_returned bridge.0) × (bridge.1 ≡ (some web.1.0, web.1.1))

  kept-Alike :
      (web : Result (Reply Body) × ManagerState c n) (bridge : Result Returned × ManagerState c n)
      → Agree web bridge
      → Alike web (kept c n bridge)
  unfolding Agree Alike
  kept-Alike web bridge (same, left) =
      (same, ap (λ (s : ManagerState c n). (some s.0, s.1)) (sym left))

  module _ (m : Manager c n) (x : Network.World n × GoCrypto.Rng c) where
    save_contact-Alike :
        (req : ContactRequest)
        → Alike (handle_contacts c n post_method (some req) (m, x)) (
            palagos_save_contact c n req.public_key_hex req.custom_alias req.onion_address
              (some m, x))
    unfolding handle_contacts add_contact palagos_save_contact bytes_equal
    save_contact-Alike req = kept-Alike _ _ (
        or_status-Agree status_bad_request (λ _. bad_public_key_hex)
          (lift (or_fail (hex_decode req.public_key_hex) Error.contact_key_size) (m, x)) _ _
          (λ b y.
            answer-Agree status_bad_request failed
              (save_contact c n b req.custom_alias req.onion_address y) Body.contact
              Returned.contact (λ k. refl)))

    pair_create-Alike :
        (req : OfferRequest)
        → Alike
            (handle_pair_create c n (some req) (m, x))
            (palagos_pair_create c n req.pin req.alias (some m, x))
    unfolding handle_pair_create make_offer palagos_pair_create
    pair_create-Alike req = kept-Alike _ _ (
        continue-Agree (active_identity c n (m, x)) _ _ (λ a y.
          answer-Agree status_bad_request failed
            (on_rng c n (create_pairing_payload c a req.alias req.pin) y) _ _ (λ p. refl)))

    save_peer-Agree :
        (paired : PeerIdentity × List ℕ) (y : ManagerState c n)
        → Agree (keep_peer c n paired y) (save_peer c n paired y)
    unfolding keep_peer save_peer
    save_peer-Agree (peer_id, sas_code) y =
        answer-Agree status_internal_server_error failed
          (save_contact c n peer_id.public_key peer_id.alias [] y) _ _ (λ k. refl)

    pair_open-Alike :
        (req : OpenRequest)
        → Alike
            (handle_pair_open c n (some req) (m, x))
            (palagos_pair_open c n req.pin req.payload_hex (some m, x))
    unfolding handle_pair_open open_offer palagos_pair_open
    pair_open-Alike req = kept-Alike _ _ (
        or_status-Agree status_bad_request (λ _. bad_payload_hex)
          (lift (or_fail (hex_decode req.payload_hex) Error.short_pairing_data) (m, x)) _ _
          (λ b y.
            or_status-Agree status_bad_request failed (lift (unmarshal_payload b) y) _ _ (λ p z.
              continue-Agree (active_identity c n z) _ _ (λ a u.
                or_status-Agree status_bad_request failed
                  (lift (open_pairing_payload c (some p) a req.pin) u) _ _ save_peer-Agree))))

  -- On a manager that is there, the bridge does what the web interface does with the same texts, for
  -- saving a contact, for making an offer to pair and for opening one: it returns the same contact,
  -- offer or pairing, or a complaint exactly where the web interface refuses, or panics where that
  -- panics, and it leaves the same manager, clock and random source.
  pub bridge_matches_web :
      (m : Manager c n) (x : Network.World n × GoCrypto.Rng c) (k : ContactRequest)
      (o : OfferRequest) (p : OpenRequest)
      → Alike
          (handle_contacts c n post_method (some k) (m, x))
          (palagos_save_contact c n k.public_key_hex k.custom_alias k.onion_address (some m, x))
        × Alike
            (handle_pair_create c n (some o) (m, x))
            (palagos_pair_create c n o.pin o.alias (some m, x))
        × Alike
            (handle_pair_open c n (some p) (m, x))
            (palagos_pair_open c n p.pin p.payload_hex (some m, x))
  bridge_matches_web m x k o p =
      (save_contact-Alike m x k, pair_create-Alike m x o, pair_open-Alike m x p)
