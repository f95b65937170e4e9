-- ===== src/Server/Tests.antt =====
-- A relay with two connections, one of which fails after some packets, and the theorems on server.go
-- at concrete runs.
use pelagos.Base.{
  Error, err, ltb, ltb→le, subst, ℕ, ◌-◌, ◌<◌, ◌==◌, ◌≡◌, refl, List, [], ◌∷◌, ◌++◌, Bool, true,
  false, Option, none, some, ok, length, take, drop, replicate, if◌then◌else◌, ◌⊎◌, inl, inr, arith,
  ◌≤◌, Bool-cases,
}
use pelagos.Base.Bytes.{get_be}
use pelagos.Base.Maps.{lookup, insert, delete, bytes_equal}
use pelagos.Base.State.{◌>>◌}
use pelagos.Crypto.Toy.{toy}
use pelagos.Crypto.Random.{secure_random, verify_signature}
use pelagos.Identity.Toy.{toy_signing, alice}
use pelagos.Packet.{Packet, zero_packet, unmarshal, get_header, get_body, checked_slice}
use pelagos.Server.{
  Relay, Server, held, send_loop, route_packet, enqueue_mailbox, deliver_mailbox,
  deliver_mailbox_among, empty_server, evict_expired_mailboxes, authenticate_client,
  verify_server_identity, check_response,
}
use pelagos.Server.Routing.{route_packet-keeps}
use pelagos.Server.Delivery.{Arrivals, deliver_mailbox-duplicates, deliver_mailbox-loses}
use pelagos.Server.Offline.{IsFor, route_all, store_and_forward}
use pelagos.Server.Reachable.{Event, run}
use pelagos.Server.Command.{handle_client}
use pelagos.Server.Handler.{handle_client-ends}
use pelagos.Server.Receiving.{FiniteClient}
use pelagos.Transport.{max_frame}
use pelagos.Server.Unique.{Unique}
use pelagos.Server.Eviction.{unexpired, evict_expired_mailboxes-run}
use pelagos.Server.Auth.{answer, verify_server_identity_sound, authenticate_client-admits}

record ToyWorld : Type 0 where
  pub steady_log : List (List ℕ)
  pub flaky_log : List (List ℕ)
  pub budget : ℕ
  pub inbox : List (List ℕ)
  pub clock : ℕ

abbrev send_on : Bool → List ℕ → ToyWorld → Bool × ToyWorld
send_on true p w = (true, record w { steady_log = w.steady_log ++ (p ∷ []) })
send_on false p w =
    if w.budget == 0
    then (false, w)
    else (true, record w { flaky_log = w.flaky_log ++ (p ∷ []); budget = w.budget - 1 })

-- A packet above the limit of a frame is not received.
abbrev next_of : List (List ℕ) → Option (List ℕ)
next_of [] = none
next_of (p ∷ ps) = if ltb max_frame (length p) then none else some p

-- The connection `true` never fails, and `false` fails when its budget is used up.
abbrev two_lines : Relay
two_lines = record {
  Conn = Bool;
  World = ToyWorld;
  send_packet = send_on;
  receive_packet = λ conn w. (next_of w.inbox, record w { inbox = drop 1 w.inbox });
  close = λ conn w. w;
  now = λ w. w.clock;
}

abbrev log_of : Bool → ToyWorld → List (List ℕ)
log_of true w = w.steady_log
log_of false w = w.flaky_log

two_lines-arrives :
    (conn : Bool) (p : List ℕ) (w : ToyWorld)
    → log_of conn (send_on conn p w).1
      ≡ (if (send_on conn p w).0 then log_of conn w ++ (p ∷ []) else log_of conn w)
two_lines-arrives true p w = refl
two_lines-arrives false p w = ground arith

abbrev arrivals : Arrivals two_lines
arrivals = record { delivered = log_of; sent_arrives = two_lines-arrives }

abbrev quiet : ToyWorld
quiet = record { steady_log = []; flaky_log = []; budget = 1; inbox = []; clock = 0 }

-- A data packet for the fingerprint of 32 zeros.
abbrev nobody : List ℕ
nobody = replicate 32 0

abbrev buffer : List ℕ
buffer = 1 ∷ 0 ∷ 3 ∷ (replicate 132 0 ++ (0 ∷ 0 ∷ 0 ∷ 2 ∷ 7 ∷ 8 ∷ replicate 64 0))

abbrev parcel : Packet
parcel = record zero_packet { version = 0x0100; type = 3; payload = 7 ∷ 8 ∷ [] }

unmarshal-buffer : unmarshal zero_packet buffer ≡ (ok tt, parcel)
unfolding unmarshal get_header get_body checked_slice get_be
unmarshal-buffer = refl

buffer-IsFor : IsFor nobody buffer
buffer-IsFor = (parcel, unmarshal-buffer, refl)

abbrev fresh : Server Bool
fresh = empty_server two_lines alice

abbrev loaded : Server Bool
loaded = record fresh {
  mailboxes = (nobody, record { packets = (1 ∷ []) ∷ (2 ∷ []) ∷ []; created_at = 0 }) ∷ [];
}

store_and_forward_example :
    let back =
      (route_all two_lines (buffer ∷ buffer ∷ []) >> deliver_mailbox two_lines nobody true)
        (loaded, quiet) in
    (back.0 ≡ ok tt)
    × (back.1.1.steady_log ≡ (1 ∷ []) ∷ (2 ∷ []) ∷ buffer ∷ buffer ∷ [])
    × (held two_lines nobody back.1.0 ≡ [])
unfolding lookup bytes_equal
store_and_forward_example =
    store_and_forward two_lines nobody arrivals true (buffer ∷ buffer ∷ []) loaded quiet refl
      (buffer-IsFor, (buffer-IsFor, tt)) (λ p w. refl)

route_packet-keeps_example :
    ((route_packet two_lines buffer (loaded, quiet)).0 ≡ ok tt)
    × ((route_packet two_lines buffer (loaded, quiet)).1.1 ≡ quiet)
    × (held two_lines nobody (route_packet two_lines buffer (loaded, quiet)).1.0
        ≡ (1 ∷ []) ∷ (2 ∷ []) ∷ buffer ∷ [])
unfolding lookup bytes_equal
route_packet-keeps_example =
    route_packet-keeps two_lines buffer nobody parcel loaded quiet unmarshal-buffer

deliver_mailbox-duplicates_example :
    (i : ℕ) × (i < 2)
    × ((deliver_mailbox two_lines nobody false (loaded, quiet)).1.1.flaky_log
        ≡ take i ((1 ∷ []) ∷ (2 ∷ []) ∷ []))
    × (held two_lines nobody (deliver_mailbox two_lines nobody false (loaded, quiet)).1.0
        ≡ drop i ((1 ∷ []) ∷ (2 ∷ []) ∷ []) ++ ((1 ∷ []) ∷ (2 ∷ []) ∷ []))
unfolding deliver_mailbox_among send_loop lookup bytes_equal insert
deliver_mailbox-duplicates_example =
    deliver_mailbox-duplicates two_lines arrivals nobody false loaded quiet refl

deliver_mailbox-loses_example :
    ((deliver_mailbox_among two_lines
        (enqueue_mailbox two_lines nobody (3 ∷ []))
        nobody
        true
        (loaded, quiet)).1.1.steady_log
      ≡ (1 ∷ []) ∷ (2 ∷ []) ∷ [])
    × (held two_lines nobody
          (deliver_mailbox_among two_lines
            (enqueue_mailbox two_lines nobody (3 ∷ []))
            nobody
            true
            (loaded, quiet)).1.0
        ≡ [])
unfolding deliver_mailbox_among send_loop lookup bytes_equal enqueue_mailbox delete insert
deliver_mailbox-loses_example =
    deliver_mailbox-loses two_lines arrivals nobody true loaded quiet (3 ∷ []) refl refl

abbrev old : ToyWorld
old = record quiet { clock = 300000 }

evict_expired_mailboxes-run_example :
    let x = run two_lines toy (Event.route buffer ∷ []) (fresh, old) in
    let after = evict_expired_mailboxes two_lines x in
    (after.0 ≡ ok tt)
    × (lookup nobody after.1.0.mailboxes ≡ unexpired x.1.clock (lookup nobody x.0.mailboxes))
    × (after.1.0.clients ≡ x.0.clients)
    × (after.1.1 ≡ x.1)
evict_expired_mailboxes-run_example =
    evict_expired_mailboxes-run two_lines toy (Event.route buffer ∷ []) alice old nobody

-- The client's challenge and the relay's answer to it.
abbrev challenge : List ℕ
challenge = replicate 32 5

abbrev answered : ToyWorld
answered = record quiet { inbox = answer toy two_lines true alice challenge ∷ [] }

verify_server_identity_sound_example :
    (sent received : List ℕ) × ((secure_random toy 32 5).0 ≡ ok sent)
    × (some (answer toy two_lines true alice challenge) ≡ some received)
    × (length received ≡ 96)
    × ((false ≡ true) ⊎ (take 32 received ≡ alice.public_key))
    × (verify_signature toy (take 32 received) sent (drop 32 received) ≡ true)
unfolding secure_random verify_server_identity check_response verify_signature bytes_equal
verify_server_identity_sound_example =
    verify_server_identity_sound toy two_lines true alice.public_key answered 5 refl

abbrev greeting : ToyWorld
greeting = record quiet { inbox = challenge ∷ replicate 32 9 ∷ [] }

authenticate_client-admits_example :
    ((authenticate_client two_lines toy true (loaded, greeting)).0
      ≡ ok (toy.sha256 (replicate 32 9)))
    × (lookup
          (toy.sha256 (replicate 32 9))
          (authenticate_client two_lines toy true (loaded, greeting)).1.0.clients
        ≡ some true)
    × ((authenticate_client two_lines toy true (loaded, greeting)).1.0.mailboxes ≡ loaded.mailboxes)
authenticate_client-admits_example =
    authenticate_client-admits toy two_lines true toy_signing challenge (replicate 32 9) loaded
      greeting (refl, refl, refl) refl refl refl refl refl

inbox_limit : (l : List (List ℕ)) (p : List ℕ) → next_of l ≡ some p → length p ≤ max_frame
inbox_limit [] p h = cc h
inbox_limit (q ∷ l) p h = elim (Bool-cases (ltb max_frame (length q))) [
  | inl over ↦ cc (rw (over) at h)
  | inr fits ↦ some_limit q p (ltb→le max_frame (length q) fits) (rw (fits) at h)
]
  where
    some_limit : (q p : List ℕ) → length q ≤ max_frame → some q ≡ some p → length p ≤ max_frame
    some_limit q p h e = subst (λ (r : List ℕ). length r ≤ max_frame) (cc e) h

-- The packets that wait in the inbox are all that comes.
inbox_consumes :
    (l : List (List ℕ)) (p : List ℕ) → next_of l ≡ some p → length (drop 1 l) < length l
inbox_consumes [] p h = cc h
inbox_consumes (q ∷ l) p h = omega arith

inbox_keeps : (l : List (List ℕ)) → length (drop 1 l) ≤ length l
inbox_keeps [] = omega arith
inbox_keeps (q ∷ l) = omega arith

send_on-inbox :
    (to : Bool) (p : List ℕ) (w : ToyWorld) → length ((send_on to p w).1.inbox) ≤ length w.inbox
send_on-inbox true p w = omega arith
send_on-inbox false p w = elim (Bool-cases (w.budget == 0)) [
  | inl over ↦ rw (over) (omega arith)
  | inr left ↦ rw (left) (omega arith)
]

steady_ends : FiniteClient two_lines true
steady_ends = record {
  pending = λ w. length w.inbox;
  receive_consumes = λ w p h. inbox_consumes w.inbox p h;
  receive_limit = λ w p h. inbox_limit w.inbox p h;
  receive_keeps = λ w. inbox_keeps w.inbox;
  send_keeps = send_on-inbox;
}

-- A client that authenticates, and then sends two packets.
abbrev visit : ToyWorld
visit = record quiet { inbox = replicate 32 5 ∷ replicate 32 2 ∷ buffer ∷ (1 ∷ []) ∷ [] }

handle_client-ends_example :
    (e : Error) × (s : Server Bool) × (w : ToyWorld) × (handle_client two_lines toy 5 true
        (fresh, visit)
      ≡ some (err e, (s, w)))
    × ((e ≡ Error.client_gone)
        ⊎ ((authenticate_client two_lines toy true (fresh, visit)).0 ≡ err e))
    × Unique s.mailboxes
    × Unique s.clients
unfolding steady_ends Unique
handle_client-ends_example =
    handle_client-ends two_lines toy true steady_ends 5 (fresh, visit) (omega arith) tt tt
