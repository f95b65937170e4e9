-- ===== src/Server/Delivery.antt =====
-- `DeliverMailbox` of server.go: what a client gets, and what stays in its mailbox.
use pelagos.Base.{
  length-zero, ℕ, suc, ◌+◌, ◌<◌, ◌≡◌, ap, sym, ◌∙◌, List, [], ◌∷◌, ◌++◌, true, false, Option, none,
  some, Error, ok, err, length, take, drop, append_assoc, append-nil, if◌then◌else◌, ◌==◌, ◌↔◌,
  Bool-cases, inl, inr, arith,
}
use pelagos.Base.Maps.{
  lookup, delete, bytes_equal, bytes_equal_iff, lookup-insert_self, lookup-delete,
  lookup-delete_self,
}
use pelagos.Base.State.{continue}
use pelagos.Server.{
  Relay, Server, held, packets_of, enqueue_mailbox, send_loop, finish, deliver_mailbox,
  deliver_mailbox_among,
}
use pelagos.Server.Routing.{packets_of-entry_or_new}

-- What the code relies on of a connection: a packet that was sent arrives behind the earlier ones, and
-- one that was not sent does not arrive.
pub record Arrivals (n : Relay) : Type 1 where
  pub delivered : Relay.Conn n → Relay.World n → List (List ℕ)
  pub sent_arrives :
      (conn : Relay.Conn n) (p : List ℕ) (w : Relay.World n)
      → delivered conn (n.send_packet conn p w).1
        ≡ (if (n.send_packet conn p w).0 then delivered conn w ++ (p ∷ []) else delivered conn w)

module _ (n : Relay) (A : Arrivals n) where
  -- What the loop tells of the packets `ps`, counted from `k`.
  Told : Relay.Conn n → ℕ → List (List ℕ) → Relay.World n → Option ℕ × Relay.World n → Type 0
  Told conn k ps w (none, w') = A.delivered conn w' ≡ A.delivered conn w ++ ps
  Told conn k ps w (some i, w') =
      (j : ℕ) × (i ≡ k + j)
      × (j < length ps)
      × (A.delivered conn w' ≡ A.delivered conn w ++ take j ps)

  send_loop_lem :
      (conn : Relay.Conn n) (k : ℕ) (ps : List (List ℕ)) (w : Relay.World n)
      → Told conn k ps w (send_loop n conn ps k w)
  unfolding send_loop Told
  send_loop_lem conn k [] w = sym (append-nil (A.delivered conn w))
  send_loop_lem conn k (p ∷ ps) w = elim (Bool-cases (n.send_packet conn p w).0) [
    | inr bad ↦ rw (bad) (
      0,
      omega arith,
      omega arith,
      rw (A.sent_arrives conn p w, bad) (sym (append-nil (A.delivered conn w))),
    )
    | inl good ↦
        rw (good)
          (more (arrived good) (send_loop n conn ps (k + 1) w') (send_loop_lem conn (k + 1) ps w'))
  ]
    where
      w' : Relay.World n
      w' = (n.send_packet conn p w).1

      arrived :
          (n.send_packet conn p w).0 ≡ true → A.delivered conn w' ≡ A.delivered conn w ++ (p ∷ [])
      arrived good = A.sent_arrives conn p w ∙ rw (good)

      behind :
          (after : Relay.World n) (qs : List (List ℕ))
          → A.delivered conn w' ≡ A.delivered conn w ++ (p ∷ [])
          → A.delivered conn after ≡ A.delivered conn w' ++ qs
          → A.delivered conn after ≡ A.delivered conn w ++ (p ∷ qs)
      behind after qs e f =
          f ∙ ap (λ (l : List (List ℕ)). l ++ qs) e ∙ append_assoc (A.delivered conn w) (p ∷ []) qs

      more :
          A.delivered conn w' ≡ A.delivered conn w ++ (p ∷ [])
          → (r : Option ℕ × Relay.World n) → Told conn (k + 1) ps w' r
          → Told conn k (p ∷ ps) w r
      more e (none, after) t = behind after ps e t
      more e (some i, after) (j, index, below, got) =
          (suc j, omega arith, omega arith, behind after (take j ps) e got)

  module _ (fp : List ℕ) (conn : Relay.Conn n) (s : Server (Relay.Conn n)) (w : Relay.World n) where
    pkts : List (List ℕ)
    pkts = held n fp s

    emptied :
        (k : List ℕ)
        → packets_of (lookup k (delete fp s.mailboxes))
          ≡ (if bytes_equal fp k then [] else held n k s)
    emptied k = elim (Bool-cases (bytes_equal fp k)) [
      | inl same ↦ rw (lookup-delete, same)
      | inr other ↦ rw (lookup-delete, other)
    ]

    finished :
        (k : List ℕ) (r : Option ℕ × Relay.World n)
        → Told conn 0 pkts w r
        → (finish n fp pkts r.0 (s, r.1)).0 ≡ ok tt
        → (A.delivered conn (finish n fp pkts r.0 (s, r.1)).1.1 ≡ A.delivered conn w ++ pkts)
          × (held n k (finish n fp pkts r.0 (s, r.1)).1.0
              ≡ (if bytes_equal fp k then [] else held n k s))
    unfolding Told
    finished k (none, w') t h = (t, emptied k)
    finished k (some i, w') t h = cc h

    -- A delivery that reports no error has sent every packet that waited, in order, and leaves that
    -- mailbox empty and every other one as it was.
    pub deliver_mailbox_complete :
        (k : List ℕ)
        → (deliver_mailbox n fp conn (s, w)).0 ≡ ok tt
        → (A.delivered conn (deliver_mailbox n fp conn (s, w)).1.1
            ≡ A.delivered conn w ++ held n fp s)
          × (held n k (deliver_mailbox n fp conn (s, w)).1.0
              ≡ (if bytes_equal fp k then [] else held n k s))
    unfolding deliver_mailbox_among pkts
    deliver_mailbox_complete k h = elim (Bool-cases (length (held n fp s) == 0)) [
      | inl unused ↦
          let e : held n fp s ≡ [] = length-zero (held n fp s) unused in
          rw (unused)
            (rw (e) (sym (append-nil (A.delivered conn w))), nothing e (bytes_equal_iff fp k))
      | inr used ↦
          rw (used)
            (finished k (send_loop n conn pkts 0 w) (send_loop_lem conn 0 pkts w) (rw (used) at h))
    ]
      where
        nothing :
            held n fp s ≡ []
            → ((bytes_equal fp k ≡ true) ↔ (fp ≡ k))
            → held n k s ≡ (if bytes_equal fp k then [] else held n k s)
        nothing e same = elim (Bool-cases (bytes_equal fp k)) [
          | inl yes_same ↦ rw (yes_same) (rw (same.0 yes_same) at e)
          | inr other ↦ rw (other)
        ]

    failed :
        (r : Option ℕ × Relay.World n)
        → Told conn 0 pkts w r
        → (finish n fp pkts r.0 (s, r.1)).0 ≡ err Error.delivery_failed
        → (i : ℕ) × (i < length pkts)
          × (A.delivered conn (finish n fp pkts r.0 (s, r.1)).1.1
              ≡ A.delivered conn w ++ take i pkts)
          × (held n fp (finish n fp pkts r.0 (s, r.1)).1.0 ≡ drop i pkts ++ pkts)
    unfolding Told pkts
    failed (none, w') t h = cc h
    failed (some i, w') (j, index, below, got) h = (
      j,
      below,
      got,
      rw (lookup-insert_self, packets_of-entry_or_new)
          (ap (λ (k : ℕ). drop k (held n fp s) ++ held n fp s) {x = i} {y = j} (omega arith)),
    )

    -- A delivery that fails has sent the packets in front of some index, in order, and leaves in the
    -- mailbox the packets from that index on followed by the whole mailbox again: what was sent stays,
    -- and what was not sent is there twice.
    pub deliver_mailbox-duplicates :
        (deliver_mailbox n fp conn (s, w)).0 ≡ err Error.delivery_failed
        → (i : ℕ) × (i < length (held n fp s))
          × (A.delivered conn (deliver_mailbox n fp conn (s, w)).1.1
              ≡ A.delivered conn w ++ take i (held n fp s))
          × (held n fp (deliver_mailbox n fp conn (s, w)).1.0 ≡ drop i (held n fp s) ++ held n fp s)
    unfolding deliver_mailbox_among pkts
    deliver_mailbox-duplicates h = elim (Bool-cases (length (held n fp s) == 0)) [
      | inl unused ↦ cc (rw (unused) at h)
      | inr used ↦
          rw (used)
            (failed (send_loop n conn pkts 0 w) (send_loop_lem conn 0 pkts w) (rw (used) at h))
    ]

    overtaken :
        (raw : List ℕ) (r : Option ℕ × Relay.World n)
        → Told conn 0 pkts w r
        → (continue (enqueue_mailbox n fp raw (s, r.1)) (λ _. finish n fp pkts r.0)).0 ≡ ok tt
        → (A.delivered conn
              (continue (enqueue_mailbox n fp raw (s, r.1)) (λ _. finish n fp pkts r.0)).1.1
            ≡ A.delivered conn w ++ pkts)
          × (held n fp
                (continue (enqueue_mailbox n fp raw (s, r.1)) (λ _. finish n fp pkts r.0)).1.0
              ≡ [])
    unfolding Told enqueue_mailbox
    overtaken raw (none, w') t h = (t, rw (lookup-delete_self))
    overtaken raw (some i, w') t h = cc h

    -- A packet that another goroutine puts into the mailbox while the packets that waited are being
    -- sent is lost if the delivery then reports no error: it has sent only the packets that waited
    -- before, and it leaves the mailbox empty.
    pub deliver_mailbox-loses :
        (raw : List ℕ)
        → (length (held n fp s) == 0) ≡ false
        → (deliver_mailbox_among n (enqueue_mailbox n fp raw) fp conn (s, w)).0 ≡ ok tt
        → (A.delivered conn (deliver_mailbox_among n (enqueue_mailbox n fp raw) fp conn (s, w)).1.1
            ≡ A.delivered conn w ++ held n fp s)
          × (held n fp (deliver_mailbox_among n (enqueue_mailbox n fp raw) fp conn (s, w)).1.0 ≡ [])
    unfolding deliver_mailbox_among pkts
    deliver_mailbox-loses raw used h =
        rw (used)
          (overtaken raw (send_loop n conn pkts 0 w) (send_loop_lem conn 0 pkts w) (rw (used) at h))
