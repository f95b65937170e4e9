-- ===== src/Client/Contacts.antt =====
-- The contact book of manager.go.
use pelagos.Base.{
  ℕ, ◌≡◌, refl, sym, List, some, ok, length, if◌then◌else◌, replicate, overwrite_all,
}
use pelagos.Base.Maps.{bytes_equal, lookup-insert}
use pelagos.Crypto.Library.{GoCrypto}
use pelagos.Identity.{new_peer_identity}
use pelagos.Client.{Network, Manager, Contact, contact_of, save_contact, get_contact_by_fp}

module _ (c : GoCrypto) (n : Network) where
  -- The contact that is made of a key and an alias at a time.
  abbrev pub entry : List ℕ → List ℕ → List ℕ → ℕ → Contact
  entry pub_key custom_alias addr t =
      contact_of c n pub_key (record { public_key = pub_key; alias = custom_alias }) custom_alias
        addr t

  -- A contact that is saved with a key of 32 bytes is found under the fingerprint of that key, with
  -- the key and the alias that were given, in place of an older one; every other contact is found as
  -- before.
  pub get_contact_by_fp-save_contact :
      (pub_key custom_alias addr k : List ℕ) (m : Manager c n) (w : Network.World n)
      (g : GoCrypto.Rng c)
      → length pub_key ≡ 32
      → ((save_contact c n pub_key custom_alias addr (m, (w, g))).0
          ≡ ok (entry pub_key custom_alias addr (n.now w).0))
        × (get_contact_by_fp c n k (save_contact c n pub_key custom_alias addr (m, (w, g))).1.0 ≡ (
            if bytes_equal (c.sha256 pub_key) k
            then some (entry pub_key custom_alias addr (n.now w).0)
            else get_contact_by_fp c n k m))
  unfolding save_contact new_peer_identity get_contact_by_fp
  get_contact_by_fp-save_contact pub_key custom_alias addr k m w g size =
      rw (size, overwrite_all (replicate 32 0) pub_key (sym size))
        (refl, lookup-insert _ k _ m.contacts)
