-- ===== src/Web/Messages.antt =====
-- A message that is posted to the web interface, and the list that is shown next.
use pelagos.Base.{
  length-zero, ℕ, ◌==◌, false, none, ap, Bool-cases, inl, inr, ◌≡◌, refl, List, [], ◌∷◌, ◌++◌,
  length, true, some, ok, Result,
}
use pelagos.Base.Maps.{bytes_equal, lookup, insert, lookup-insert_self}
use pelagos.Client.{
  Network, Manager, thread, ManagerState, Message, get_messages, add_message, get_contact_by_fp,
  announce,
}
use pelagos.Crypto.Library.{GoCrypto}
use pelagos.Http.{answered}
use pelagos.Identity.Format.{hex_encode}
use pelagos.Identity.Hex.{hex_decode}
use pelagos.Web.{
  Body, MessageRequest, get_method, post_method, handle_messages, show_messages, record_message,
  resolve_fingerprint,
}

module _ (c : GoCrypto) (n : Network) (m : Manager c n) (x : Network.World n × GoCrypto.Rng c)
    (req : MessageRequest) (fp : List ℕ)
    (known : resolve_fingerprint c n req.peer_fp m ≡ ok fp) where
  abbrev after : Result Message × ManagerState c n
  after = add_message c n fp req.content true 0 (m, x)

  abbrev recorded : Message
  recorded = record {
    id = n.dashed (n.now x.0).0 0;
    sender_fp = hex_encode fp;
    sender_is_me = true;
    content = req.content;
    sequence = 0;
    timestamp = (n.now (n.now x.0).1).0;
  }

  given : (length req.peer_fp == 0) ≡ false
  unfolding resolve_fingerprint hex_decode
  given = elim (Bool-cases (length req.peer_fp == 0)) [
    | inl none_given ↦ cc (
      known,
      ap (λ (q : List ℕ). resolve_fingerprint c n q m) (length-zero req.peer_fp none_given),
    )
    | inr some_given ↦ some_given
  ]

  -- The contacts are as they were.
  still_known : resolve_fingerprint c n req.peer_fp after.1.0 ≡ ok fp
  unfolding add_message resolve_fingerprint get_contact_by_fp
  still_known = known

  thread_grows :
      (msg : Message)
      → lookup fp (insert fp (thread (lookup fp m.messages) ++ (msg ∷ [])) m.messages)
        ≡ some (thread (lookup fp m.messages) ++ (msg ∷ []))
  thread_grows msg = lookup-insert_self fp _ m.messages

  -- A message that is posted for a peer that the server can name is answered, and the list that is
  -- asked for next with the same text for the peer is the former list with the message at its end,
  -- which has the content that was posted. Posting leaves the sessions and the connections of the
  -- manager, and the random source, as they were, and all that it does to the world is to read the
  -- clock twice and to run the message callback, if one is set, on the recorded message: nothing is
  -- sent unless the callback does so.
  pub posted_is_shown :
      (msg : Message) × (y : ManagerState c n) × (handle_messages c n post_method []
          (some req)
          (m, x)
        ≡ (ok (answered (Body.message msg)), y))
      × (msg.content ≡ req.content)
      × (y.0.sessions ≡ m.sessions)
      × (y.0.active_conns ≡ m.active_conns)
      × (y.1 ≡ ((announce c n m.on_message fp msg (n.now (n.now x.0).1).1).1, x.1))
      × (handle_messages c n get_method req.peer_fp none y
          ≡ (ok (answered (Body.messages (get_messages c n fp m ++ (msg ∷ [])))), y))
  unfolding handle_messages record_message show_messages add_message get_messages bytes_equal
  posted_is_shown = (
    recorded,
    after.1,
    rw (known) refl,
    refl,
    refl,
    refl,
    refl,
    rw (given, still_known, thread_grows) refl,
  )
