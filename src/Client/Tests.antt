-- ===== src/Client/Tests.antt =====
-- A network that never answers, and the theorems on manager.go at concrete runs.
use pelagos.Base.{ℕ, suc, ◌≡◌, refl, ◌⊎◌, List, [], ◌∷◌, false, none, some, Error, ok, err}
use pelagos.Base.Maps.{Map, lookup, bytes_equal}
use pelagos.Base.Text.{codes}
use pelagos.Crypto.Toy.{toy}
use pelagos.Identity.{Identity}
use pelagos.Identity.Toy.{alice, bob, of_bob}
use pelagos.Session.{Session, new_session}
use pelagos.Client.{
  Network, Manager, Contact, initial, send_text_message, get_or_create_session, switch_profile,
  get_active_identity, contact_of,
}
use pelagos.Client.Runs.{Call, run, send_text_message-run, get_active_identity-run}
use pelagos.Client.Profiles.{get_or_create_session-stale_identity}

-- The world counts the readings of the clock.
abbrev silent : Network
silent = record {
  Conn = Unit {0};
  World = ℕ;
  dial = λ addr w. (none, w);
  send_packet = λ conn p w. (false, w);
  close = λ conn w. w;
  now = λ w. (w, suc w);
  dashed = λ a b. a ∷ b ∷ [];
}

-- A contact is saved, a second profile is made and selected, and a text is sent.
abbrev calls : List (Call silent)
calls =
    Call.save bob.public_key (98 ∷ []) (111 ∷ [])
    ∷ Call.add_profile (120 ∷ []) bob
    ∷ Call.switch_to (120 ∷ [])
    ∷ Call.send (toy.sha256 bob.public_key) (104 ∷ 105 ∷ [])
    ∷ []

send_text_message-run_example :
    let y = run toy silent calls (initial toy silent alice, (0, 0)) in
    (e : Error) × (ss : Map (Session toy)) × ((e ≡ Error.unestablished) ⊎ (e ≡ Error.no_contact))
    × (send_text_message toy silent (toy.sha256 bob.public_key) (104 ∷ []) y
        ≡ (err e, (record y.0 { sessions = ss }, y.1)))
send_text_message-run_example =
    send_text_message-run toy silent calls alice (0, 0) (toy.sha256 bob.public_key) (104 ∷ [])

get_active_identity-run_example :
    (own : Identity) × (get_active_identity toy silent
        (run toy silent calls (initial toy silent alice, (0, 0))).0
      ≡ some own)
get_active_identity-run_example = get_active_identity-run toy silent calls alice (0, 0)

abbrev friend : Contact
friend = contact_of toy silent bob.public_key of_bob (98 ∷ []) [] 0

abbrev two_profiles : Manager toy silent
two_profiles = record (initial toy silent alice) {
  identities = (codes "Default", alice) ∷ (120 ∷ [], bob) ∷ [];
  contacts = (7 ∷ [], friend) ∷ [];
}

get_or_create_session-stale_identity_example :
    let y =
      (switch_profile toy silent
        (120 ∷ [])
        (get_or_create_session toy silent (7 ∷ []) (two_profiles, (0, 0))).1).1 in
    ((get_or_create_session toy silent (7 ∷ []) y).0 ≡ ok (new_session toy alice (some of_bob)))
    × (get_active_identity toy silent y.0 ≡ some bob)
unfolding lookup bytes_equal
get_or_create_session-stale_identity_example =
    get_or_create_session-stale_identity toy silent (7 ∷ []) (120 ∷ []) alice bob friend
      two_profiles (0, 0) refl refl refl refl
