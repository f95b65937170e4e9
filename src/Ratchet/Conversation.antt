-- ===== src/Ratchet/Conversation.antt =====
-- ratchet.go over a whole conversation: the two ratchets that a handshake makes, and then messages
-- in any order of speakers, each delivered before the next is sent.
use pelagos.Base.{
  ℕ, ◌≡◌, refl, ap₂, sym, ◌∙◌, List, [], ◌∷◌, map, Bool, true, false, Option, some, Result, ok,
  length, ◌⊎◌, inl, inr, overwrite, overwrite_all, replicate,
}
use pelagos.Crypto.Library.{GoCrypto}
use pelagos.Crypto.Random.{rand_reader, compute_ecdh_shared_secret}
use pelagos.Crypto.Laws.{GoCryptoLaws, generate_lem, derive_root_step_lem}
use pelagos.Ratchet.{Ratchet, new_ratchet, initiator_ratchet, responder_ratchet, blank}
use pelagos.Ratchet.Sync.{Leads, Known, exchange, leader-exchange, follower-exchange}

-- A message with the function that makes its associated data from the sender's ephemeral key;
-- `true` marks those of the first peer.
abbrev pub Utterance : Type 0
Utterance = Bool × (List ℕ → List ℕ) × List ℕ

-- What the receivers make of the messages of a conversation.
unfoldable pub converse :
    (c : GoCrypto)
    → List Utterance
    → Ratchet c
    → Ratchet c
    → GoCrypto.Rng c
    → List (Result (List ℕ))
converse c [] a b g = []
converse c ((true, aad, m) ∷ talk) a b g =
    let r = exchange c aad m a b g in r.0 ∷ converse c talk r.1 r.2 r.3
converse c ((false, aad, m) ∷ talk) a b g =
    let r = exchange c aad m b a g in r.0 ∷ converse c talk r.2 r.1 r.3

abbrev pub all_read : List Utterance → List (Result (List ℕ))
all_read = map λ u. ok u.2

module _ (c : GoCrypto) (L : GoCryptoLaws c) where
  -- The ratchets that both ends make of one secret: the initiator, against the responder's
  -- handshake key, is in the lead.
  pub new_ratchet-Leads :
      (secret : List ℕ) (local : GoCrypto.PrivateKey c) (remote : Option (GoCrypto.PublicKey c))
      (own : Option (GoCrypto.PrivateKey c)) (g : GoCrypto.Rng c)
      → length secret ≡ 32
      → L.Drawn g (c.public_key local)
      → (a b : Ratchet c) × (g' : GoCrypto.Rng c) × (new_ratchet c secret true own
            (some (c.public_key local))
            g
          ≡ (ok a, g'))
        × (new_ratchet c secret false (some local) remote g ≡ (ok b, g))
        × Leads c a b
        × Known c L a b g'
  unfolding blank new_ratchet initiator_ratchet responder_ratchet compute_ecdh_shared_secret
  new_ratchet-Leads secret local remote own g size d =
      let (k, e, e') = generate_lem c L g in
      let g' = (c.generate_key (rand_reader c) g).1 in
      let (dh, f, l) = L.ecdh_total k local in
      let (rk, ck, s, _, n) = derive_root_step_lem c L secret dh l in
      let copied : overwrite (replicate 32 0) secret ≡ secret =
        overwrite_all (replicate 32 0) secret (sym size) in
      (
        record (blank c k rk) { dhr_peer = some (c.public_key local); cks = ck },
        blank c local secret,
        g',
        rw (size, copied, e, f, s),
        rw (size, copied),
        record {
          peer = refl;
          unknown = refl;
          secret = dh;
          shared = L.ecdh_comm local k ∙ f;
          root = s;
          chain_size = n;
          reply = refl;
        },
        record { drawn_a = L.generate_drawn g k e'; drawn_b = L.generate_keeps g _ d },
      )

  -- One of the two leads, and the other has a sending chain.
  abbrev pub Linked : Ratchet c → Ratchet c → GoCrypto.Rng c → Type 0
  Linked a b g =
      (Leads c a b × Known c L a b g × (length b.cks ≡ 32))
      ⊎ (Leads c b a × Known c L b a g × (length a.cks ≡ 32))

  converse-Linked :
      (talk : List Utterance) (a b : Ratchet c) (g : GoCrypto.Rng c)
      → Linked a b g
      → converse c talk a b g ≡ all_read talk
  unfolding converse
  converse-Linked [] a b g h = refl
  converse-Linked ((true, aad, m) ∷ talk) a b g (inl (h, k, _)) =
      let (e, (h', k', n)) = leader-exchange c L aad m a b g h k in
      ap₂ ◌∷◌ e (converse-Linked talk _ _ _ (inr (h', k', n)))
  converse-Linked ((true, aad, m) ∷ talk) a b g (inr (h, k, n)) =
      let (e, (h', k', n')) = follower-exchange c L aad m b a g h k n in
      ap₂ ◌∷◌ e (converse-Linked talk _ _ _ (inr (h', k', n')))
  converse-Linked ((false, aad, m) ∷ talk) a b g (inl (h, k, n)) =
      let (e, (h', k', n')) = follower-exchange c L aad m a b g h k n in
      ap₂ ◌∷◌ e (converse-Linked talk _ _ _ (inl (h', k', n')))
  converse-Linked ((false, aad, m) ∷ talk) a b g (inr (h, k, _)) =
      let (e, (h', k', n)) = leader-exchange c L aad m b a g h k in
      ap₂ ◌∷◌ e (converse-Linked talk _ _ _ (inl (h', k', n)))

  -- A conversation that the leading peer opens, of any length and with any order of speakers: every
  -- message is opened as it was written.
  pub conversation :
      (aad : List ℕ → List ℕ) (m : List ℕ) (talk : List Utterance) (a b : Ratchet c)
      (g : GoCrypto.Rng c)
      → Leads c a b
      → Known c L a b g
      → converse c ((true, aad, m) ∷ talk) a b g ≡ all_read ((true, aad, m) ∷ talk)
  unfolding converse
  conversation aad m talk a b g h k =
      let (e, (h', k', n)) = leader-exchange c L aad m a b g h k in
      ap₂ ◌∷◌ e (converse-Linked talk _ _ _ (inr (h', k', n)))
