-- ===== src/Peer/Typing.antt =====
-- What is typed at `send` of main.go is what `listen` prints.
use pelagos.Base.{ℕ, ◌+◌, ◌≤◌, ◌≡◌, List, ◌++◌, ok, length, ◌⊎◌}
use pelagos.Crypto.Library.{GoCrypto}
use pelagos.Crypto.Laws.{GoCryptoLaws}
use pelagos.Identity.{Identity}
use pelagos.Identity.Laws.{SigningLaws}
use pelagos.Peer.{Line}
use pelagos.Ratchet.{Ratchet}
use pelagos.Ratchet.Sync
use pelagos.Ratchet.Sync.{Leads, Known}
use pelagos.Session.{Session}
use pelagos.Session.Delivery.{Channel, up}
use pelagos.Transport.{max_frame}
use pelagos.Peer.Dialogue.{texts_of, numbered, dialogue, sending, listening}

-- A text whose frame is within the limit.
abbrev pub FitsFrame : List ℕ → Type 0
FitsFrame m = length m + 219 ≤ max_frame

module _ (c : GoCrypto) (L : GoCryptoLaws c) (S : SigningLaws c) where
  -- Either end is in the lead; the sender, if it is not, has a chain key.
  abbrev Ahead : Ratchet c → Ratchet c → GoCrypto.Rng c → Type 0
  Ahead a b g =
      (Leads c a b × Known c L a b g) ⊎ (Leads c b a × Known c L b a g × (length a.cks ≡ 32))

  -- What the dialogue comes to from two channels.
  abbrev Prints :
      (List ℕ → List ℕ)
      → List (List ℕ)
      → Channel c
      → Channel c
      → GoCrypto.Rng c
      → List Line
      → Type 0
  Prints trim lines a b g printed =
      (s t : Session c) × (g' : GoCrypto.Rng c) × (dialogue c trim lines
          (sending c (up c a) g, listening c (up c b) g printed)
        ≡ (
          ok tt,
          (
            sending c s g',
            listening c t g' (printed ++ numbered a.out_sequence (texts_of trim lines)),
          ),
        ))
