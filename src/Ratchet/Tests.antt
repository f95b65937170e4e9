-- ===== src/Ratchet/Tests.antt =====
-- A conversation over the concrete functions of Crypto/Toy, and the theorems there.
use pelagos.Base.{ℕ, ◌≡◌, refl, List, [], ◌∷◌, replicate, none, some, ok, true, false, arith}
use pelagos.Crypto.Toy.{toy, toy_laws}
use pelagos.Ratchet.{Ratchet, new_ratchet}
use pelagos.Ratchet.Sync.{Leads, Known}
use pelagos.Ratchet.Conversation.{Utterance, converse, new_ratchet-Leads, conversation}

abbrev master : List ℕ
master = replicate 32 7

abbrev talk : List Utterance
talk =
    (false, (λ k. k), 4 ∷ [])
    ∷ (true, (λ k. 9 ∷ k), 5 ∷ 6 ∷ [])
    ∷ (true, (λ k. k), [])
    ∷ (false, (λ k. k), 8 ∷ [])
    ∷ []

-- The two ratchets of the conversation: the responder's key 0 was drawn first.
ratchets :
    (a b : Ratchet toy) × (g' : ℕ) × (new_ratchet toy master true none (some 0) 1 ≡ (ok a, g'))
    × (new_ratchet toy master false (some 0) none 1 ≡ (ok b, 1))
    × Leads toy a b
    × Known toy toy_laws a b g'
ratchets = new_ratchet-Leads toy toy_laws master 0 none none 1 refl (omega arith)

abbrev alice : Ratchet toy
alice = ratchets.0

abbrev bob : Ratchet toy
bob = ratchets.1

conversation_example :
    converse toy ((true, (λ k. k), 1 ∷ 2 ∷ []) ∷ talk) alice bob ratchets.2
    ≡ ok (1 ∷ 2 ∷ []) ∷ ok (4 ∷ []) ∷ ok (5 ∷ 6 ∷ []) ∷ ok [] ∷ ok (8 ∷ []) ∷ []
conversation_example =
    conversation toy toy_laws (λ k. k) (1 ∷ 2 ∷ []) talk alice bob ratchets.2 ratchets.5 ratchets.6
