-- ===== src/Peer/Dialogue.antt =====
-- The loops of `send` and `listen` of main.go in turn, over one connection.
use pelagos.Base.{
  ℕ, ◌+◌, ◌==◌, ◌≡◌, refl, ap, ◌∙◌, Result-cases, List, [], ◌∷◌, ◌++◌, Result, Error, ok, err,
  panic, length, append_assoc, if◌then◌else◌, Bool-cases, inl, inr,
}
use pelagos.Base.State.{Act, ◌>>◌, pure, continue}
use pelagos.Crypto.Library.{GoCrypto}
use pelagos.Peer.{Line, shown, Sender, Listener, send_lines, send_encrypted_message, listen_round}
use pelagos.Peer.Conversation.{in_frame}
use pelagos.Session.{Session}
use pelagos.Transport.{PacketConn}

abbrev put_frame : Result (List ℕ) → Act (List (List ℕ)) (Unit {0})
put_frame (ok raw) q = (ok tt, q ++ (raw ∷ []))
put_frame (err e) q = (err e, q)
put_frame panic q = (panic, q)

abbrev take_frame : Act (List (List ℕ)) (List ℕ)
take_frame [] = (err Error.read_failure, [])
take_frame (raw ∷ q) = (ok raw, q)

-- A connection that does not fail, seen from both ends: the frames on their way, oldest first.
abbrev pub link : PacketConn
link = record {
  Conn = List (List ℕ);
  send_packet = λ raw. put_frame (in_frame raw);
  receive_packet = take_frame;
}

-- The texts among the lines: trimmed, and without those that are empty then.
abbrev pub texts_of : (List ℕ → List ℕ) → List (List ℕ) → List (List ℕ)
texts_of trim [] = []
texts_of trim (line ∷ lines) =
    if length (trim line) == 0 then texts_of trim lines else trim line ∷ texts_of trim lines

-- The texts as they are printed, with the numbers that follow `k`.
abbrev pub numbered : ℕ → List (List ℕ) → List Line
numbered k [] = []
numbered k (m ∷ texts) = shown (k + 1) m ∷ numbered (k + 1) texts

pub grown :
    (printed : List Line) (m : List ℕ) (texts : List (List ℕ)) (j k : ℕ)
    → j ≡ k
    → (printed ++ (shown j m ∷ [])) ++ numbered j texts ≡ printed ++ (shown k m ∷ numbered k texts)
grown printed m texts j k e =
    append_assoc printed (shown j m ∷ []) (numbered j texts)
    ∙ ap (λ (i : ℕ). printed ++ (shown i m ∷ numbered i texts)) e

module _ (c : GoCrypto) where
  -- Both ends, on one random source and one connection, which the one that runs next has.
  abbrev pub Ends : Type 0
  Ends = Sender c link × Listener c link

  -- The loop of `send` over one line.
  unfoldable pub sender_types : (List ℕ → List ℕ) → List ℕ → Act Ends (Unit {0})
  sender_types trim line (a, b) =
      let r = send_lines c link trim (line ∷ []) a in
      (r.0, (r.1, record b { rng = r.1.rng; conn = r.1.conn }))

  -- A round of the loop of `listen` for each frame that waits.
  abbrev rounds : List (List ℕ) → Act (Listener c link) (Unit {0})
  rounds [] b = (ok tt, b)
  rounds (_ ∷ waiting) b = continue (listen_round c link b) (λ _. rounds waiting)

  unfoldable pub listener_hears : Act Ends (Unit {0})
  listener_hears (a, b) =
      let r = rounds b.conn b in (r.0, (record a { rng = r.1.rng; conn = r.1.conn }, r.1))

  -- Line after line is typed, and printed before the next one.
  unfoldable pub dialogue : (List ℕ → List ℕ) → List (List ℕ) → Act Ends (Unit {0})
  dialogue trim [] = pure tt
  dialogue trim (line ∷ lines) = do sender_types trim line; listener_hears; dialogue trim lines

  -- Typing lines one after the other is what the loop of `send` does with all of them.
  send_lines-append :
      (trim : List ℕ → List ℕ) (xs ys : List (List ℕ)) (a : Sender c link)
      → send_lines c link trim (xs ++ ys) a
        ≡ continue (send_lines c link trim xs a) (λ _. send_lines c link trim ys)
  unfolding send_lines
  send_lines-append trim [] ys a = refl
  send_lines-append trim (x ∷ xs) ys a = elim (Bool-cases (length (trim x) == 0)) [
    | inl blank ↦ rw (blank) (send_lines-append trim xs ys a)
    | inr text ↦
        let y = (send_encrypted_message c link (trim x) a).1 in
        elim (Result-cases (send_encrypted_message c link (trim x) a).0) [
          | inl (seq, e) ↦ rw (text, e) (send_lines-append trim xs ys y)
          | inr (inl (problem, e)) ↦ rw (text, e) (send_lines-append trim xs ys y)
          | inr (inr e) ↦ rw (text, e) refl
        ]
  ]

  abbrev pub sending : Session c → GoCrypto.Rng c → Sender c link
  sending s g = record { session = s; rng = g; conn = [] }

  abbrev pub listening : Session c → GoCrypto.Rng c → List Line → Listener c link
  listening s g printed = record { session = s; rng = g; conn = []; printed = printed }
