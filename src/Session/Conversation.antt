-- ===== src/Session/Conversation.antt =====
-- Two sessions of session.go over a whole conversation: any order of speakers, each packet delivered
-- before the next is made.
use pelagos.Base.{
  ℕ, suc, ◌+◌, ◌^◌, ◌<◌, ◌≡◌, refl, ap, List, [], ◌∷◌, map, Bool, true, false, Result, ok, length,
  inl, inr, arith,
}
use pelagos.Crypto.Library.{GoCrypto}
use pelagos.Crypto.Laws.{GoCryptoLaws}
use pelagos.Identity.Laws.{SigningLaws}
use pelagos.Ratchet.{Ratchet}
use pelagos.Ratchet.Sync.{Leads, Known, leader-Delivery, follower-Delivery}
use pelagos.Ratchet.Conversation.{Linked}
use pelagos.Replay.{ReplayWindow}
use pelagos.Session.{Session, keyed_aad}
use pelagos.Session.Delivery.{Channel, up, Hears, transmit, transmit_lem, next_header, next_seq}

-- The results on the receiving side; `true` marks the texts of the first session.
unfoldable pub converse :
    (c : GoCrypto)
    → List (Bool × List ℕ)
    → Session c
    → Session c
    → GoCrypto.Rng c
    → List (Result (List ℕ))
converse c [] a b g = []
converse c ((true, m) ∷ talk) a b g =
    let r = transmit c m a b g in r.0 ∷ converse c talk r.1 r.2 r.3
converse c ((false, m) ∷ talk) a b g =
    let r = transmit c m b a g in r.0 ∷ converse c talk r.2 r.1 r.3

abbrev pub all_read : List (Bool × List ℕ) → List (Result (List ℕ))
all_read = map λ u. ok u.1

-- Both ends can hear one another, and `k` more packets fit the sequence numbers.
pub record CanTalk (c : GoCrypto) (S : SigningLaws c) (k : ℕ) (a b : Channel c) : Type 0 where
  pub a_to_b : Hears c S a b
  pub b_to_a : Hears c S b a
  pub room_a : a.out_sequence + k < 2 ^ 64
  pub room_b : b.out_sequence + k < 2 ^ 64

module _ (c : GoCrypto) (S : SigningLaws c) where
  CanTalk-flip : {k : ℕ} {a b : Channel c} → CanTalk c S k a b → CanTalk c S k b a
  CanTalk-flip t = record {
    a_to_b = t.b_to_a;
    b_to_a = t.a_to_b;
    room_a = t.room_b;
    room_b = t.room_a;
  }

  -- A packet from `a` to `b` leaves both able to talk.
  pub CanTalk-sent :
      (k : ℕ) (a b : Channel c) (ra rb : Ratchet c) (w : ReplayWindow)
      → CanTalk c S (suc k) a b
      → w.max_seq ≡ next_seq c a
      → CanTalk c S k
          (record a { out_sequence = next_seq c a; ratchet = ra })
          (record b { replay_win = w; ratchet = rb })
  CanTalk-sent k a b ra rb w t e = record {
    a_to_b = record { trusted = t.a_to_b.trusted; heard = omega (arith, e) };
    b_to_a = record { trusted = t.b_to_a.trusted; heard = t.b_to_a.heard };
    room_a = omega (arith, t.room_a);
    room_b = omega (arith, t.room_b);
  }

module _ (c : GoCrypto) (L : GoCryptoLaws c) (S : SigningLaws c) (k : ℕ) (m : List ℕ)
    (from to : Channel c) (g : GoCrypto.Rng c) (t : CanTalk c S (suc k) from to) where
  -- The text has arrived, and both can go on.
  abbrev Arrived : Type 0
  Arrived =
      (from' to' : Channel c) × (g' : GoCrypto.Rng c) × (transmit c m (up c from) (up c to) g
        ≡ (ok m, up c from', up c to', g'))
      × CanTalk c S k from' to'
      × Linked c L from'.ratchet to'.ratchet g'

  pub lead_turn : Leads c from.ratchet to.ratchet → Known c L from.ratchet to.ratchet g → Arrived
  lead_turn h kn =
      let (rf, rt, g', d, h', k', n') =
        leader-Delivery c L (keyed_aad c (next_header c from)) m from.ratchet to.ratchet g h kn in
      let (w, e, top) =
        transmit_lem c S from to g m rf rt g' t.a_to_b d (omega (arith, t.room_a)) in
      (
        record from { out_sequence = next_seq c from; ratchet = rf },
        record to { replay_win = w; ratchet = rt },
        g',
        e,
        CanTalk-sent c S k from to rf rt w t top,
        inr (h', k', n'),
      )

  follow_turn :
      Leads c to.ratchet from.ratchet
      → Known c L to.ratchet from.ratchet g
      → length from.ratchet.cks ≡ 32
      → Arrived
  follow_turn h kn n =
      let (rf, rt, g', d, h', k', n') =
        follower-Delivery c L (keyed_aad c (next_header c from)) m to.ratchet from.ratchet g h kn
          n in
      let (w, e, top) =
        transmit_lem c S from to g m rf rt g' t.a_to_b d (omega (arith, t.room_a)) in
      (
        record from { out_sequence = next_seq c from; ratchet = rf },
        record to { replay_win = w; ratchet = rt },
        g',
        e,
        CanTalk-sent c S k from to rf rt w t top,
        inr (h', k', n'),
      )

  pub turn : Linked c L from.ratchet to.ratchet g → Arrived
  turn (inl (h, kn, _)) = lead_turn h kn
  turn (inr (h, kn, n)) = follow_turn h kn n

module _ (c : GoCrypto) (L : GoCryptoLaws c) (S : SigningLaws c) where
  Linked-flip : (a b : Ratchet c) (g : GoCrypto.Rng c) → Linked c L a b g → Linked c L b a g
  Linked-flip a b g (inl l) = inr l
  Linked-flip a b g (inr l) = inl l

  abbrev Talk : List (Bool × List ℕ) → Channel c → Channel c → GoCrypto.Rng c → Type 0
  Talk talk a b g = converse c talk (up c a) (up c b) g ≡ all_read talk

  converse-Linked :
      (talk : List (Bool × List ℕ)) (a b : Channel c) (g : GoCrypto.Rng c)
      → CanTalk c S (length talk) a b
      → Linked c L a.ratchet b.ratchet g
      → Talk talk a b g
  unfolding converse
  converse-Linked [] a b g t l = refl
  converse-Linked ((true, m) ∷ talk) a b g t l =
      let (a', b', g', e, t', l') = turn c L S (length talk) m a b g t l in
      rw e (ap (◌∷◌ (ok m)) (converse-Linked talk a' b' g' t' l'))
  converse-Linked ((false, m) ∷ talk) a b g t l =
      let (b', a', g', e, t', l') =
        turn c L S (length talk) m b a g (CanTalk-flip c S t) (Linked-flip _ _ _ l) in
      rw e (
        ap (◌∷◌ (ok m))
          (converse-Linked talk a' b' g' (CanTalk-flip c S t') (Linked-flip _ _ _ l')))

  -- From sessions of which the first leads, a conversation that it opens is read whole.
  pub converse_led :
      (m : List ℕ) (talk : List (Bool × List ℕ)) (a b : Channel c) (g : GoCrypto.Rng c)
      → CanTalk c S (suc (length talk)) a b
      → Leads c a.ratchet b.ratchet
      → Known c L a.ratchet b.ratchet g
      → Talk ((true, m) ∷ talk) a b g
  unfolding converse
  converse_led m talk a b g t h k =
      let (a', b', g', e, t', l') = lead_turn c L S (length talk) m a b g t h k in
      rw e (ap (◌∷◌ (ok m)) (converse-Linked talk a' b' g' t' l'))
