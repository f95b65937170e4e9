-- ===== src/Server/Offline.antt =====
-- Store and forward: packets for a client that is offline wait in its mailbox and are delivered when it
-- is back.
use pelagos.Base.{
  ℕ, ◌+◌, ◌≡◌, refl, ap, sym, ◌∙◌, List, [], ◌∷◌, ◌++◌, true, none, ok, length, append_assoc,
  append-nil, All, ◌==◌, Bool-cases, inl, inr,
}
use pelagos.Base.Maps.{lookup, bytes_equal_refl}
use pelagos.Base.State.{◌>>◌, pure}
use pelagos.Packet.{Packet, zero_packet, unmarshal}
use pelagos.Server.{
  Relay, Server, ServerAct, held, send_loop, route_packet, enqueue_mailbox, deliver_mailbox,
  deliver_mailbox_among,
}
use pelagos.Server.Routing.{enqueue_mailbox_lem}
use pelagos.Server.Delivery.{Arrivals, deliver_mailbox_complete}

-- A buffer that decodes to a packet for the recipient `fp`.
abbrev pub IsFor : List ℕ → List ℕ → Type 0
IsFor fp raw =
    (pkt : Packet) × (unmarshal zero_packet raw ≡ (ok tt, pkt)) × (pkt.recipient_fingerprint ≡ fp)

abbrev pub IsReliable : (n : Relay) → Relay.Conn n → Type 0
IsReliable n conn = (p : List ℕ) (w : Relay.World n) → (n.send_packet conn p w).0 ≡ true

-- Routing one packet after another.
unfoldable pub route_all : (n : Relay) → List (List ℕ) → ServerAct n (Unit {0})
route_all n [] = pure tt
route_all n (raw ∷ raws) = do route_packet n raw; route_all n raws

module _ (n : Relay) (fp : List ℕ) where
  -- A packet for an offline client waits behind the others.
  stored :
      (raw : List ℕ) (s : Server (Relay.Conn n)) (w : Relay.World n)
      → lookup fp s.clients ≡ none
      → IsFor fp raw
      → route_packet n raw (s, w) ≡ enqueue_mailbox n fp raw (s, w)
  unfolding route_packet
  stored raw s w offline (pkt, decoded, mine) = rw (decoded, mine, offline) refl

  route_all_lem :
      (raws : List (List ℕ)) (s : Server (Relay.Conn n)) (w : Relay.World n)
      → lookup fp s.clients ≡ none
      → All (IsFor fp) raws
      → ((route_all n raws (s, w)).0 ≡ ok tt)
        × ((route_all n raws (s, w)).1.1 ≡ w)
        × (held n fp (route_all n raws (s, w)).1.0 ≡ held n fp s ++ raws)
  unfolding route_all enqueue_mailbox
  route_all_lem [] s w offline mine = (refl, refl, sym (append-nil (held n fp s)))
  route_all_lem (raw ∷ raws) s w offline (here, mine) =
      let next = enqueue_mailbox n fp raw (s, w) in
      let (good, still, waits) = route_all_lem raws next.1.0 w offline mine in
      rw (stored raw s w offline here) (
        good,
        still,
        waits
            ∙ ap (λ (l : List (List ℕ)). l ++ raws)
                (enqueue_mailbox_lem n fp raw fp s w ∙ rw (bytes_equal_refl fp))
            ∙ append_assoc (held n fp s) (raw ∷ []) raws,
      )

  send_loop-IsReliable :
      (conn : Relay.Conn n) (ps : List (List ℕ)) (k : ℕ) (w : Relay.World n)
      → IsReliable n conn
      → (send_loop n conn ps k w).0 ≡ none
  unfolding send_loop
  send_loop-IsReliable conn [] k w steady = refl
  send_loop-IsReliable conn (p ∷ ps) k w steady =
      rw (steady p w) (send_loop-IsReliable conn ps (k + 1) (n.send_packet conn p w).1 steady)

  deliver_mailbox-IsReliable :
      (conn : Relay.Conn n) (s : Server (Relay.Conn n)) (w : Relay.World n)
      → IsReliable n conn
      → (deliver_mailbox n fp conn (s, w)).0 ≡ ok tt
  unfolding deliver_mailbox_among
  deliver_mailbox-IsReliable conn s w steady = elim (Bool-cases (length (held n fp s) == 0)) [
    | inl unused ↦ rw (unused)
    | inr used ↦ rw (used, send_loop-IsReliable conn (held n fp s) 0 w steady)
  ]

  -- Packets that are routed while their recipient is offline reach it when it is back, if its
  -- connection then works: behind what had waited before, in the order in which they were routed. No
  -- call reports an error, and the mailbox is empty afterwards.
  pub store_and_forward :
      (A : Arrivals n) (conn : Relay.Conn n) (raws : List (List ℕ)) (s : Server (Relay.Conn n))
      (w : Relay.World n)
      → lookup fp s.clients ≡ none
      → All (IsFor fp) raws
      → IsReliable n conn
      → let back = (route_all n raws >> deliver_mailbox n fp conn) (s, w) in
        (back.0 ≡ ok tt)
        × (A.delivered conn back.1.1 ≡ A.delivered conn w ++ (held n fp s ++ raws))
        × (held n fp back.1.0 ≡ [])
  store_and_forward A conn raws s w offline mine steady =
      let (good, still, waits) = route_all_lem raws s w offline mine in
      let (s', w') = (route_all n raws (s, w)).1 in
      let over = deliver_mailbox-IsReliable conn s' w' steady in
      let (sent, left) = deliver_mailbox_complete n A fp conn s' w' fp over in
      rw (good) (
        over,
        sent
            ∙ ap (λ (v : Relay.World n). A.delivered conn v ++ held n fp s') still
            ∙ ap (λ (l : List (List ℕ)). A.delivered conn w ++ l) waits,
        left ∙ rw (bytes_equal_refl fp),
      )
