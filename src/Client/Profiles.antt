-- ===== src/Client/Profiles.antt =====
-- The profiles of manager.go, and the sessions that were opened under another one.
use pelagos.Base.{ℕ, ◌≡◌, refl, List, none, some, ok}
use pelagos.Base.Maps.{lookup, lookup-insert_self}
use pelagos.Crypto.Library.{GoCrypto}
use pelagos.Identity.{Identity}
use pelagos.Session.{new_session}
use pelagos.Client.{
  Network, Manager, Contact, get_or_create_session, create_session, switch_profile,
  get_active_identity,
}

module _ (c : GoCrypto) (n : Network) where
  -- After a session with a contact was opened under one profile, and another profile was selected, the
  -- manager hands out the session of the first profile's identity for that contact, although the
  -- active identity is the second profile's.
  pub get_or_create_session-stale_identity :
      (fp name : List ℕ) (own other : Identity) (contact : Contact) (m : Manager c n)
      (x : Network.World n × GoCrypto.Rng c)
      → lookup fp m.sessions ≡ none
      → lookup fp m.contacts ≡ some contact
      → lookup m.active_profile m.identities ≡ some own
      → lookup name m.identities ≡ some other
      → let y = (switch_profile c n name (get_or_create_session c n fp (m, x)).1).1 in
        ((get_or_create_session c n fp y).0 ≡ ok (new_session c own (some contact.peer_identity)))
        × (get_active_identity c n y.0 ≡ some other)
  unfolding get_or_create_session create_session switch_profile get_active_identity
  get_or_create_session-stale_identity fp name own other contact m x unknown saved active known =
      rw (unknown, saved, active, known, lookup-insert_self) (refl, known)
