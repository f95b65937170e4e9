-- ===== src/Client/Runs.antt =====
-- The runs of the manager of manager.go: its methods in any order, on a new manager.
use pelagos.Base.{
  ℕ, ◌≡◌, refl, ◌⊎◌, List, [], ◌∷◌, Bool, false, Option, some, Error, ok, err, length, ◌==◌,
  Bool-cases, Option-cases, Result-cases, inl, inr,
}
use pelagos.Base.Maps.{Map, lookup, insert, bytes_equal, lookup-insert}
use pelagos.Crypto.Library.{GoCrypto}
use pelagos.Identity.{Identity, new_peer_identity}
use pelagos.Packet.{zero_packet}
use pelagos.Session.{Session, new_session}
use pelagos.Session.Guard.{unestablished_refuses}
use pelagos.Client.{
  Network, Manager, ManagerState, Message, initial, get_active_identity, set_connection_mode,
  set_on_message_callback, add_identity_profile, switch_profile, save_contact,
  get_or_create_session, create_session, send_text_message, add_message,
}

-- A call of a method that changes the manager.
pub data Call (n : Network) : Type 0 where
  set_callback : Option (List ℕ → Message → Network.World n → Network.World n) → Call n
  set_mode : List ℕ → List ℕ → Call n
  add_profile : List ℕ → Identity → Call n
  switch_to : List ℕ → Call n
  save : List ℕ → List ℕ → List ℕ → Call n
  open_session : List ℕ → Call n
  send : List ℕ → List ℕ → Call n
  add : List ℕ → List ℕ → Bool → ℕ → Call n

module _ (c : GoCrypto) (n : Network) where
  unfoldable pub perform : Call n → ManagerState c n → ManagerState c n
  perform (set_callback callback) x = (set_on_message_callback c n callback x).1
  perform (set_mode mode addr) x = (set_connection_mode c n mode addr x).1
  perform (add_profile name id) x = (add_identity_profile c n name id x).1
  perform (switch_to name) x = (switch_profile c n name x).1
  perform (save pub_key custom_alias addr) x = (save_contact c n pub_key custom_alias addr x).1
  perform (open_session fp) x = (get_or_create_session c n fp x).1
  perform (send fp text) x = (send_text_message c n fp text x).1
  perform (add fp content is_me seq) x = (add_message c n fp content is_me seq x).1

  unfoldable pub run : List (Call n) → ManagerState c n → ManagerState c n
  run [] x = x
  run (k ∷ ks) x = run ks (perform k x)

  -- No session is established, and the active profile has an identity.
  pub record IsIdle (m : Manager c n) : Type 0 where
    pub idle :
        (fp : List ℕ) (s : Session c) → lookup fp m.sessions ≡ some s → s.is_established ≡ false
    pub active : (id : Identity) × (lookup m.active_profile m.identities ≡ some id)

  Quiet : ManagerState c n → Type 0
  Quiet x = IsIdle x.0

  insert-idle :
      (fp : List ℕ) (s : Session c) (m : Manager c n)
      → s.is_established ≡ false
      → IsIdle m
      → (fp' : List ℕ) (s' : Session c) → lookup fp' (insert fp s m.sessions) ≡ some s'
      → s'.is_established ≡ false
  insert-idle fp s m closed q fp' s' h = elim (Bool-cases (bytes_equal fp fp')) [
    | inl same ↦
        let e : some s ≡ some s' = rw (lookup-insert, same) at h in
        let f : s ≡ s' = cc in rw (← f) closed
    | inr other ↦ q.idle fp' s' (rw (lookup-insert, other) at h)
  ]

  add_profile-active :
      (name : List ℕ) (id : Identity) (m : Manager c n)
      → IsIdle m
      → (id' : Identity) × (lookup m.active_profile (insert name id m.identities) ≡ some id')
  add_profile-active name id m q = elim (Bool-cases (bytes_equal name m.active_profile)) [
    | inl same ↦ (id, rw (lookup-insert, same))
    | inr other ↦ (q.active.0, rw (lookup-insert, other) q.active.1)
  ]

  -- The outcome of asking for a session: a session that is not established, or the error that there
  -- is no such contact. Nothing but the map of sessions changes.
  opened :
      (fp : List ℕ) (m : Manager c n) (x : Network.World n × GoCrypto.Rng c)
      → IsIdle m
      → ((s : Session c) × (ss : Map (Session c)) × (get_or_create_session c n fp (m, x)
            ≡ (ok s, (record m { sessions = ss }, x)))
          × (s.is_established ≡ false)
          × IsIdle (record m { sessions = ss }))
        ⊎ (get_or_create_session c n fp (m, x) ≡ (err Error.no_contact, (m, x)))
  unfolding get_or_create_session create_session new_session
  opened fp m x q = elim (Option-cases (lookup fp m.sessions)) [
    | inr (s, known) ↦ inl (s, m.sessions, rw (known) refl, q.idle fp s known, q)
    | inl unknown ↦ elim (Option-cases (lookup fp m.contacts)) [
      | inl stranger ↦ inr (rw (unknown, stranger) refl)
      | inr (contact, saved) ↦
          let s = new_session c q.active.0 (some contact.peer_identity) in
          inl (
            s,
            insert fp s m.sessions,
            rw (unknown, saved, q.active.1) refl,
            refl,
            record { idle = insert-idle fp s m refl q; active = q.active },
          )
    ]
  ]

  -- What sending a text comes to on such a manager.
  Refused : List ℕ → List ℕ → Manager c n → Network.World n × GoCrypto.Rng c → Type 0
  Refused fp text m x =
      (e : Error) × (ss : Map (Session c)) × ((e ≡ Error.unestablished) ⊎ (e ≡ Error.no_contact))
      × (send_text_message c n fp text (m, x) ≡ (err e, (record m { sessions = ss }, x)))
      × IsIdle (record m { sessions = ss })

  refuses :
      (fp text : List ℕ) (m : Manager c n) (w : Network.World n) (g : GoCrypto.Rng c)
      → IsIdle m
      → Refused fp text m (w, g)
  unfolding Refused send_text_message
  refuses fp text m w g q = elim (opened fp m (w, g) q) [
    | inr stranger ↦ (Error.no_contact, m.sessions, inr refl, rw (stranger) refl, q)
    | inl (s, ss, got, closed, q') ↦
        let shut = (unestablished_refuses c s g text zero_packet (rw (closed) refl)).0 in
        (
          Error.unestablished,
          insert fp s ss,
          inl refl,
          rw (got, shut) refl,
          record {
            idle = insert-idle fp s (record m { sessions = ss }) closed q';
            active = q.active;
          },
        )
  ]

  switch_profile-IsIdle :
      (name : List ℕ) (m : Manager c n) (x : Network.World n × GoCrypto.Rng c)
      → IsIdle m
      → IsIdle (switch_profile c n name (m, x)).1.0
  unfolding switch_profile
  switch_profile-IsIdle name m x q = elim (Option-cases (lookup name m.identities)) [
    | inl unknown ↦ rw (unknown) q
    | inr (id, known) ↦ rw (known) (record { idle = q.idle; active = (id, known) })
  ]

  save_contact-IsIdle :
      (pub_key custom_alias addr : List ℕ) (m : Manager c n) (w : Network.World n)
      (g : GoCrypto.Rng c)
      → IsIdle m
      → IsIdle (save_contact c n pub_key custom_alias addr (m, (w, g))).1.0
  unfolding save_contact
  save_contact-IsIdle pub_key custom_alias addr m w g q = elim (Bool-cases (length pub_key == 32)) [
    | inr bad ↦ rw (bad) q
    | inl good ↦ elim (Result-cases (new_peer_identity pub_key custom_alias)) [
      | inr (inl (e, fails)) ↦ rw (good, fails) q
      | inr (inr fails) ↦ rw (good, fails) q
      | inl (peer, made) ↦ rw (good, made) (record { idle = q.idle; active = q.active })
    ]
  ]

  open_session-IsIdle :
      (fp : List ℕ) (m : Manager c n) (x : Network.World n × GoCrypto.Rng c)
      → IsIdle m
      → IsIdle (get_or_create_session c n fp (m, x)).1.0
  open_session-IsIdle fp m x q = elim (opened fp m x q) [
    | inl (s, ss, got, closed, q') ↦ rw (got) q'
    | inr stranger ↦ rw (stranger) q
  ]

  send_text_message-IsIdle :
      (fp text : List ℕ) (m : Manager c n) (w : Network.World n) (g : GoCrypto.Rng c)
      → IsIdle m
      → IsIdle (send_text_message c n fp text (m, (w, g))).1.0
  unfolding Refused
  send_text_message-IsIdle fp text m w g q =
      let (e, ss, which, sent, q') = refuses fp text m w g q in rw (sent) q'

  add_message-IsIdle :
      (fp content : List ℕ) (is_me : Bool) (seq : ℕ) (m : Manager c n) (w : Network.World n)
      (g : GoCrypto.Rng c)
      → IsIdle m
      → IsIdle (add_message c n fp content is_me seq (m, (w, g))).1.0
  unfolding add_message
  add_message-IsIdle fp content is_me seq m w g q = record { idle = q.idle; active = q.active }

  perform-IsIdle : (k : Call n) (x : ManagerState c n) → IsIdle x.0 → IsIdle (perform k x).0
  unfolding perform set_connection_mode set_on_message_callback add_identity_profile
  perform-IsIdle (set_callback callback) (m, x) q = record { idle = q.idle; active = q.active }
  perform-IsIdle (set_mode mode addr) (m, x) q = record { idle = q.idle; active = q.active }
  perform-IsIdle (add_profile name id) (m, x) q = record {
    idle = q.idle;
    active = add_profile-active name id m q;
  }
  perform-IsIdle (switch_to name) (m, x) q = switch_profile-IsIdle name m x q
  perform-IsIdle (save pub_key custom_alias addr) (m, (w, g)) q =
      save_contact-IsIdle pub_key custom_alias addr m w g q
  perform-IsIdle (open_session fp) (m, x) q = open_session-IsIdle fp m x q
  perform-IsIdle (send fp text) (m, (w, g)) q = send_text_message-IsIdle fp text m w g q
  perform-IsIdle (add fp content is_me seq) (m, (w, g)) q =
      add_message-IsIdle fp content is_me seq m w g q

  run-IsIdle : (ks : List (Call n)) (x : ManagerState c n) → IsIdle x.0 → IsIdle (run ks x).0
  unfolding run
  run-IsIdle [] x q = q
  run-IsIdle (k ∷ ks) x q = run-IsIdle ks (perform k x) (perform-IsIdle k x q)

  initial-IsIdle : (id : Identity) → IsIdle (initial c n id)
  unfolding lookup bytes_equal
  initial-IsIdle id = record { idle = λ fp s h. cc h; active = (id, refl) }

  -- Whatever methods of a new manager are called, with whatever arguments: its next `SendTextMessage`
  -- returns an error, since no session is established or there is no such contact. It sends nothing,
  -- and changes nothing but the map of sessions. No method of the manager makes a handshake.
  pub send_text_message-run :
      (ks : List (Call n)) (id : Identity) (x : Network.World n × GoCrypto.Rng c) (fp text : List ℕ)
      → let y = run ks (initial c n id, x) in
        (e : Error) × (ss : Map (Session c)) × ((e ≡ Error.unestablished) ⊎ (e ≡ Error.no_contact))
        × (send_text_message c n fp text y ≡ (err e, (record y.0 { sessions = ss }, y.1)))
  unfolding Refused
  send_text_message-run ks id x fp text =
      let y = run ks (initial c n id, x) in
      let (e, ss, which, sent, q) =
        refuses fp text y.0 y.1.0 y.1.1 (run-IsIdle ks (initial c n id, x) (initial-IsIdle id)) in
      (e, ss, which, sent)

  -- Whatever methods of a new manager are called, there is always an identity for the active profile.
  pub get_active_identity-run :
      (ks : List (Call n)) (id : Identity) (x : Network.World n × GoCrypto.Rng c)
      → (own : Identity) × (get_active_identity c n (run ks (initial c n id, x)).0 ≡ some own)
  unfolding get_active_identity
  get_active_identity-run ks id x = (run-IsIdle ks (initial c n id, x) (initial-IsIdle id)).active
