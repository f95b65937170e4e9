-- ===== src/Server/Eviction.antt =====
-- The eviction of mailboxes in server.go.
use pelagos.Base.{ℕ, ◌≡◌, refl, ◌∙◌, List, [], ◌∷◌, Option, none, some, ok, if◌then◌else◌, arith}
use pelagos.Base.Maps.{Map, lookup, delete, bytes_equal_iff, lookup-delete}
use pelagos.Server.{
  Relay, Server, MailboxEntry, expired, evict_range, empty_server, evict_expired_mailboxes,
}
use pelagos.Crypto.Library.{GoCrypto}
use pelagos.Identity.{Identity}
use pelagos.Server.Reachable.{Event, run, run-Unique}
use pelagos.Server.Unique.{Unique, delete-Unique}

-- What is kept of an entry, if there is one.
abbrev pub unexpired : ℕ → Option MailboxEntry → Option MailboxEntry
unexpired t none = none
unexpired t (some e) = if expired t e then none else some e

abbrev pub spare : ℕ → Option MailboxEntry → Option MailboxEntry → Option MailboxEntry
spare t none kept = kept
spare t (some e) kept = if expired t e then none else kept

evict_range_lem :
    (t : ℕ) (k : List ℕ) (es m : Map MailboxEntry)
    → Unique es
    → lookup k (evict_range t es m) ≡ spare t (lookup k es) (lookup k m)
unfolding evict_range Unique lookup
evict_range_lem t k [] m u = refl
evict_range_lem t k ((fp, e) ∷ es) m (new, u) = ground (
  arith,
  bytes_equal_iff fp k,
  delete-Unique fp m,
  evict_range_lem t k es m u,
  evict_range_lem t k es (delete fp m) u,
  lookup-delete fp k m,
  new,
)

module _ (n : Relay) where
  -- The same, on a server whose map has no double keys.
  evict_expired_mailboxes-exact :
      (s : Server (Relay.Conn n)) (w : Relay.World n) (k : List ℕ)
      → Unique s.mailboxes
      → let after = evict_expired_mailboxes n (s, w) in
        (after.0 ≡ ok tt)
        × (lookup k after.1.0.mailboxes ≡ unexpired (n.now w) (lookup k s.mailboxes))
        × (after.1.0.clients ≡ s.clients)
        × (after.1.1 ≡ w)
  unfolding evict_expired_mailboxes
  evict_expired_mailboxes-exact s w k u = (
    refl,
    evict_range_lem (n.now w) k s.mailboxes s.mailboxes u ∙ once (lookup k s.mailboxes),
    refl,
    refl,
  )
    where
      once : (e : Option MailboxEntry) → spare (n.now w) e e ≡ unexpired (n.now w) e
      once none = refl
      once (some e) = refl

  -- Whatever calls a server that started empty has served, the garbage collection then removes exactly
  -- the mailboxes that are older than 72 hours, whole, and changes no other mailbox, no client and
  -- nothing else.
  pub evict_expired_mailboxes-run :
      (c : GoCrypto) (es : List (Event n)) (id : Identity) (w : Relay.World n) (k : List ℕ)
      → let x = run n c es (empty_server n id, w) in
        let after = evict_expired_mailboxes n x in
        (after.0 ≡ ok tt)
        × (lookup k after.1.0.mailboxes ≡ unexpired (n.now x.1) (lookup k x.0.mailboxes))
        × (after.1.0.clients ≡ x.0.clients)
        × (after.1.1 ≡ x.1)
  evict_expired_mailboxes-run c es id w k =
      let x = run n c es (empty_server n id, w) in
      evict_expired_mailboxes-exact x.0 x.1 k (run-Unique n c es id w).0
