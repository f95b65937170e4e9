-- ===== src/Session/Replays.antt =====
-- The replay protection of a whole session of session.go, over any stream of packets.
use pelagos.Base.{
  ℕ, ◌≡◌, refl, List, [], ◌∷◌, Bool, true, false, Result, ok, err, panic, if◌then◌else◌, Bool-cases,
  Option-cases, inl, inr, arith, ◌⊎◌,
}
use pelagos.Crypto.Library.{GoCrypto}
use pelagos.Identity.{verify_signature}
use pelagos.Packet.{Packet, signed_bytes}
use pelagos.Replay.{check_and_add, verify_replay_window, new_replay_window}
use pelagos.Replay.Spec.{has, is_fresh, Tracks}
use pelagos.Replay.Refinement.{check_and_add-refines}
use pelagos.Replay.History.{Distinct, new_replay_window-Tracks}
use pelagos.Session.{Session, established, decrypt_message}

abbrev is_ok {ℓ} : {A : Type ℓ} → Result A → Bool
is_ok (ok a) = true
is_ok (err e) = false
is_ok panic = false

-- The sequence numbers of the packets of a stream that a session decrypts, in order.
unfoldable pub opened_from : (c : GoCrypto) → List Packet → Session c → GoCrypto.Rng c → List ℕ
opened_from c [] s g = []
opened_from c (pkt ∷ pkts) s g =
    let (r, (s', g')) = decrypt_message c pkt (s, g) in
    let rest = opened_from c pkts s' g' in if is_ok r then pkt.sequence ∷ rest else rest

module _ (c : GoCrypto) (pkt : Packet) (s : Session c) (g : GoCrypto.Rng c) where
  -- Either the call fails before the window, which stays, or the window has been asked; then a
  -- packet is decrypted only if it was accepted.
  window_asked :
      ((is_ok (decrypt_message c pkt (s, g)).0 ≡ false)
        × ((decrypt_message c pkt (s, g)).1.0.replay_win ≡ s.replay_win))
      ⊎ (((decrypt_message c pkt (s, g)).1.0.replay_win
            ≡ (check_and_add s.replay_win pkt.sequence).1)
          × (is_ok (decrypt_message c pkt (s, g)).0 ≡ true
              → (check_and_add s.replay_win pkt.sequence).0 ≡ true))
  unfolding decrypt_message verify_replay_window
  window_asked = elim (Option-cases (established c s)) [
    | inl e ↦ inl (simp e, simp e)
    | inr (r, e) ↦ elim (Bool-cases (check_and_add s.replay_win pkt.sequence).0) [
      | inr old ↦ inr (simp (e, old), λ h. cc (simp (e, old) at h))
      | inl fresh ↦ elim (Option-cases s.peer_id) [
        | inl p ↦ inr (simp (e, fresh, p), λ h. fresh)
        | inr (peer, p) ↦
            elim (Bool-cases (verify_signature c peer (signed_bytes pkt) pkt.signature)) [
              | inl v ↦ inr (simp (e, fresh, p, v), λ h. fresh)
              | inr v ↦ inr (simp (e, fresh, p, v), λ h. fresh)
            ]
      ]
    ]
  ]

  -- The window goes on tracking what it has accepted; what is decrypted is new to it.
  tracked :
      (accepted : List ℕ)
      → Tracks s.replay_win accepted
      → (accepted' : List ℕ) × Tracks (decrypt_message c pkt (s, g)).1.0.replay_win accepted'
        × ((x : ℕ) → has x accepted ≡ true → has x accepted' ≡ true)
        × (is_ok (decrypt_message c pkt (s, g)).0 ≡ true → has pkt.sequence accepted' ≡ true)
        × (is_ok (decrypt_message c pkt (s, g)).0 ≡ true → has pkt.sequence accepted ≡ false)
  tracked accepted t = elim window_asked [
    | inl (failed, same) ↦
        (accepted, rw same t, (λ x h. h), (λ h. cc (failed, h)), λ h. cc (failed, h))
    | inr (asked, passes) ↦
        let (verdict, kept, _) = check_and_add-refines s.replay_win accepted t pkt.sequence in
        elim (Bool-cases (is_fresh accepted pkt.sequence)) [
          | inl f ↦ (
            pkt.sequence ∷ accepted,
            rw asked (rw f at kept),
            (λ x h. ground arith),
            (λ h. ground arith),
            λ h. ground (arith, f),
          )
          | inr f ↦ (
            accepted,
            rw asked (rw f at kept),
            (λ x h. h),
            (λ h. cc (passes h, verdict, f)),
            λ h. cc (passes h, verdict, f),
          )
        ]
  ]

module _ (c : GoCrypto) where
  opened-not_again :
      (pkts : List Packet) (s : Session c) (g : GoCrypto.Rng c) (accepted : List ℕ)
      → Tracks s.replay_win accepted
      → (x : ℕ) → has x accepted ≡ true
      → has x (opened_from c pkts s g) ≡ false
  unfolding opened_from
  opened-not_again [] s g accepted t x h = refl
  opened-not_again (pkt ∷ pkts) s g accepted t x h =
      let (accepted', t', keeps, _, new) = tracked c pkt s g accepted t in
      let r = decrypt_message c pkt (s, g) in
      let rest = opened-not_again pkts r.1.0 r.1.1 accepted' t' x (keeps x h) in
      elim (Bool-cases (is_ok r.0)) [
        | inl e ↦ rw e (ground (arith, rest, new e))
        | inr e ↦ rw e rest
      ]

  opened-Distinct :
      (pkts : List Packet) (s : Session c) (g : GoCrypto.Rng c) (accepted : List ℕ)
      → Tracks s.replay_win accepted
      → Distinct (opened_from c pkts s g)
  unfolding opened_from
  opened-Distinct [] s g accepted t = tt
  opened-Distinct (pkt ∷ pkts) s g accepted t =
      let (accepted', t', _, has_it, _) = tracked c pkt s g accepted t in
      let r = decrypt_message c pkt (s, g) in
      let rest = opened-Distinct pkts r.1.0 r.1.1 accepted' t' in
      elim (Bool-cases (is_ok r.0)) [
        | inl e ↦
            rw e (opened-not_again pkts r.1.0 r.1.1 accepted' t' pkt.sequence (has_it e), rest)
        | inr e ↦ rw e rest
      ]

  -- Whatever packets reach a session whose replay window is new, repeated and reordered
  -- in any way, it decrypts no two with the same sequence number.
  pub no_message_twice :
      (pkts : List Packet) (s : Session c) (g : GoCrypto.Rng c)
      → s.replay_win ≡ new_replay_window
      → Distinct (opened_from c pkts s g)
  no_message_twice pkts s g e = opened-Distinct pkts s g [] (rw e new_replay_window-Tracks)
