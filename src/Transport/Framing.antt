-- ===== src/Transport/Framing.antt =====
-- The framing of transport.go: what one end sends, the other receives, packet by packet.
use pelagos.Base.{
  ℕ, zero, suc, ◌%◌, ◌^◌, ◌≤◌, ◌≡◌, refl, ap, sym, ◌∙◌, List, [], ◌∷◌, ◌++◌, true, false, All, some,
  ok, length, length-append, take, drop, take-append, drop-append, append_assoc, append-nil, ltb,
  ltb→le, Bool-cases, inl, inr, arith,
}
use pelagos.Base.Bytes.{put_be, get_be, length-put_be, get_be-put_be}
use pelagos.Base.State.{Act, ◌>>=◌, ◌>>◌, pure, continue-ok}
use pelagos.Transport.{NetConn, max_frame, send_packet, receive_packet}

-- What the code relies on of a stream: a successful write appends to what was sent, and a read takes
-- from the front of what arrives, if that is enough.
pub record StreamLaws (n : NetConn) : Type 1 where
  pub sent : NetConn.Conn n → List ℕ
  pub arriving : NetConn.Conn n → List ℕ
  pub write_appends :
      (b : List ℕ) (s : NetConn.Conn n)
      → (n.write b s).0 ≡ true
      → sent (n.write b s).1 ≡ sent s ++ b
  pub read_takes :
      (k : ℕ) (s : NetConn.Conn n)
      → k ≤ length (arriving s)
      → ((n.read_full k s).0 ≡ some (take k (arriving s)))
        × (arriving (n.read_full k s).1 ≡ drop k (arriving s))
  pub read_size :
      (k : ℕ) (s : NetConn.Conn n) (b : List ℕ) → (n.read_full k s).0 ≡ some b → length b ≡ k

-- The bytes of a packet on the stream.
abbrev pub frame : List ℕ → List ℕ
frame p = put_be 4 (length p) ++ p

abbrev pub frames : List (List ℕ) → List ℕ
frames [] = []
frames (p ∷ ps) = frame p ++ frames ps

-- Sending one packet after another, and receiving a number of them; both stop at an error.
unfoldable pub send_all : (n : NetConn) → List (List ℕ) → Act (NetConn.Conn n) (Unit {0})
send_all n [] = pure tt
send_all n (p ∷ ps) = do send_packet n p; send_all n ps

unfoldable pub receive_all : (n : NetConn) → ℕ → Act (NetConn.Conn n) (List (List ℕ))
receive_all n zero = pure []
receive_all n (suc k) = do p ← receive_packet n; ps ← receive_all n k; pure (p ∷ ps)

module _ (n : NetConn) (L : StreamLaws n) where
  send_packet_lem :
      (p : List ℕ) (s : NetConn.Conn n)
      → (send_packet n p s).0 ≡ ok tt
      → (length p ≤ max_frame) × (L.sent (send_packet n p s).1 ≡ L.sent s ++ frame p)
  unfolding send_packet
  send_packet_lem p s h = elim (Bool-cases (ltb max_frame (length p))) [
    | inl big ↦ cc (rw big at h)
    | inr small ↦
        let fits : length p ≤ max_frame = ltb→le _ _ small in
        let lens : length p % 2 ^ 32 ≡ length p = omega arith in
        elim (Bool-cases (n.write (put_be 4 (length p % 2 ^ 32)) s).0) [
          | inr e ↦ cc (simp (small, e) at h)
          | inl e ↦
              let s1 = (n.write (put_be 4 (length p % 2 ^ 32)) s).1 in
              elim (Bool-cases (n.write p s1).0) [
                | inr f ↦ cc (simp (small, e, f) at h)
                | inl f ↦ (
                  fits,
                  simp (small, e)
                      (L.write_appends p s1 f
                        ∙ ap (λ (b : List ℕ). b ++ p) (L.write_appends _ s e)
                        ∙ append_assoc (L.sent s) (put_be 4 (length p % 2 ^ 32)) p
                        ∙ ap (λ (k : ℕ). L.sent s ++ (put_be 4 k ++ p)) lens),
                )
              ]
        ]
  ]

  -- With enough bytes of a frame in front, the packet of the frame is received and its bytes are gone.
  pub receive_packet_lem :
      (p rest : List ℕ) (s : NetConn.Conn n)
      → length p ≤ max_frame
      → L.arriving s ≡ frame p ++ rest
      → ((receive_packet n s).0 ≡ ok p) × (L.arriving (receive_packet n s).1 ≡ rest)
  unfolding receive_packet
  receive_packet_lem p rest s fits h = simp (head_ok.0, number, small, body_ok.0) (refl, body_ok.1)
    where
      four : length (put_be 4 (length p)) ≡ 4
      four = length-put_be 4 (length p)

      front : L.arriving s ≡ put_be 4 (length p) ++ (p ++ rest)
      front = h ∙ append_assoc (put_be 4 (length p)) p rest

      enough : 4 ≤ length (L.arriving s)
      enough = rw (front, length-append (put_be 4 (length p)) (p ++ rest), four) (omega arith)

      head_ok :
          ((n.read_full 4 s).0 ≡ some (put_be 4 (length p)))
          × (L.arriving (n.read_full 4 s).1 ≡ p ++ rest)
      head_ok = (
        (L.read_takes 4 s enough).0
            ∙ ap some (ap (take 4) front ∙ take-append (put_be 4 (length p)) (p ++ rest) 4 four),
        (L.read_takes 4 s enough).1
            ∙ ap (drop 4) front
            ∙ drop-append (put_be 4 (length p)) (p ++ rest) 4 four,
      )

      number : get_be (put_be 4 (length p)) ≡ length p
      number = get_be-put_be 4 (length p) (omega arith)

      small : ltb max_frame (length p) ≡ false
      small = ground arith

      s1 : NetConn.Conn n
      s1 = (n.read_full 4 s).1

      body_enough : length p ≤ length (L.arriving s1)
      body_enough = rw (head_ok.1, length-append p rest) (omega arith)

      body_ok :
          ((n.read_full (length p) s1).0 ≡ some p)
          × (L.arriving (n.read_full (length p) s1).1 ≡ rest)
      body_ok = (
        (L.read_takes (length p) s1 body_enough).0
            ∙ ap some (ap (take (length p)) head_ok.1 ∙ take-append p rest (length p) refl),
        (L.read_takes (length p) s1 body_enough).1
            ∙ ap (drop (length p)) head_ok.1
            ∙ drop-append p rest (length p) refl,
      )

  send_all_lem :
      (ps : List (List ℕ)) (s : NetConn.Conn n)
      → (send_all n ps s).0 ≡ ok tt
      → All (λ p. length p ≤ max_frame) ps × (L.sent (send_all n ps s).1 ≡ L.sent s ++ frames ps)
  unfolding send_all
  send_all_lem [] s h = (tt, sym (append-nil (L.sent s)))
  send_all_lem (p ∷ ps) s h =
      let e : (send_packet n p s).0 ≡ ok tt =
        (continue-ok (send_packet n p s) (λ _. send_all n ps) tt h).1 in
      let one = send_packet_lem p s e in
      let others = send_all_lem ps (send_packet n p s).1 (rw (e) at h) in
      (
        (one.0, others.0),
        rw (e) (
            others.1
            ∙ ap (λ (b : List ℕ). b ++ frames ps) one.1
            ∙ append_assoc (L.sent s) (frame p) (frames ps)),
      )

  receive_all_lem :
      (ps : List (List ℕ)) (rest : List ℕ) (r : NetConn.Conn n)
      → All (λ p. length p ≤ max_frame) ps
      → L.arriving r ≡ frames ps ++ rest
      → ((receive_all n (length ps) r).0 ≡ ok ps)
        × (L.arriving (receive_all n (length ps) r).1 ≡ rest)
  unfolding receive_all
  receive_all_lem [] rest r fits h = (refl, h)
  receive_all_lem (p ∷ ps) rest r (here, fits) h =
      let one =
        receive_packet_lem p (frames ps ++ rest) r here
          (h ∙ append_assoc (frame p) (frames ps) rest) in
      let others = receive_all_lem ps rest (receive_packet n r).1 fits one.1 in
      rw (one.0, others.0) (refl, others.1)

  -- When every packet of a list could be sent on a fresh stream, a peer whose stream carries those
  -- bytes receives the same packets, in order and cut at the same places, and nothing behind them
  -- is consumed.
  pub receive_all-send_all :
      (ps : List (List ℕ)) (rest : List ℕ) (s r : NetConn.Conn n)
      → L.sent s ≡ []
      → (send_all n ps s).0 ≡ ok tt
      → L.arriving r ≡ L.sent (send_all n ps s).1 ++ rest
      → ((receive_all n (length ps) r).0 ≡ ok ps)
        × (L.arriving (receive_all n (length ps) r).1 ≡ rest)
  receive_all-send_all ps rest s r fresh sent carried =
      let (fits, bytes) = send_all_lem ps s sent in
      receive_all_lem ps rest r fits (
        carried
        ∙ ap (λ (b : List ℕ). b ++ rest) (bytes ∙ ap (λ (b : List ℕ). b ++ frames ps) fresh))
