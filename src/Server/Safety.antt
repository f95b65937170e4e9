-- ===== src/Server/Safety.antt =====
-- What the relay does for one connection does not panic.
use pelagos.Base.{
  ℕ, ◌≡◌, ◌≢◌, refl, sym, subst, List, ◌++◌, Bool, true, false, ltb, ◌==◌, Option, none, some,
  Result, Error, ok, err, panic, length, if◌then◌else◌, guard, ◌≤◌, Bool-cases, Result-cases, inl,
  inr, arith,
}
use pelagos.Base.Maps.{lookup}
use pelagos.Base.State.{Act, continue}
use pelagos.Base.Text.{codes}
use pelagos.Crypto.Library.{GoCrypto}
use pelagos.Crypto.Random.{sign_message, ed25519_private_key_size}
use pelagos.Identity.{Identity, new_peer_identity, sign}
use pelagos.Packet.{Packet, filled, zero_packet, unmarshal, min_header_size}
use pelagos.Packet.Accepts.{unmarshal_verdict, zero_packet-HasArrays}
use pelagos.Server.{
  Relay, authenticate_client, greet_client, deliver_mailbox, deliver_mailbox_among, route_packet,
  route_to, enqueue_mailbox, of_length, held, finish,
}
use pelagos.Server.Command.{State}
use pelagos.Transport.{max_frame}

filled-Safe : (r : Result (Unit {0}) × Packet) → r.0 ≢ panic → filled r ≢ panic
filled-Safe (ok _, p) h e = cc e
filled-Safe (err _, p) h e = cc e
filled-Safe (panic, p) h e = h refl

continue-Safe :
    {S A B : Type 0} (m : Result A × S) (f : A → Act S B)
    → m.0 ≢ panic
    → ((a : A) (s : S) → (f a s).0 ≢ panic)
    → (continue m f).0 ≢ panic
continue-Safe (ok a, s) f h k p = k a s p
continue-Safe (err e, s) f h k p = cc p
continue-Safe (panic, s) f h k p = h refl

module _ (n : Relay) (c : GoCrypto) (conn : Relay.Conn n) where
  -- No packet within the limit of a frame makes routing panic.
  parse-Safe : (raw : List ℕ) → length raw ≤ max_frame → filled (unmarshal zero_packet raw) ≢ panic
  parse-Safe raw h = filled-Safe _ (
      subst (λ r. r ≢ panic)
        (sym (unmarshal_verdict zero_packet raw zero_packet-HasArrays (omega arith)))
        (verdict-Safe (ltb (length raw) min_header_size) _ _))
    where
      verdict-Safe :
          (a b d : Bool)
          → ◌≢◌ {A = Result (Unit {0})}
              (if a
                then err Error.short_buffer
                else if b
                then err Error.unsupported_version
                else if d
                then ok tt
                else err Error.length_mismatch)
              panic
      verdict-Safe true b d e = cc e
      verdict-Safe false true d e = cc e
      verdict-Safe false false true e = cc e
      verdict-Safe false false false e = cc e

  route_to-Returns :
      (o : Option (Relay.Conn n)) (fp raw : List ℕ) (x : State n c)
      → (route_to n o fp raw x).0 ≡ ok tt
  unfolding enqueue_mailbox
  route_to-Returns none fp raw x = refl
  route_to-Returns (some to) fp raw (s, w) = elim (Bool-cases (n.send_packet to raw w).0) [
    | inl good ↦ rw (good) refl
    | inr bad ↦ rw (bad) refl
  ]

  pub route_packet-Safe :
      (raw : List ℕ) (x : State n c) → length raw ≤ max_frame → (route_packet n raw x).0 ≢ panic
  unfolding route_packet
  route_packet-Safe raw (s, w) h = elim (Result-cases (filled (unmarshal zero_packet raw))) [
    | inl (pkt, e) ↦
        let done =
          route_to-Returns (lookup pkt.recipient_fingerprint s.clients) pkt.recipient_fingerprint
            raw (s, w) in
        rw (e) (λ p. cc (p, done))
    | inr (inl (problem, e)) ↦ rw (e) (λ p. cc p)
    | inr (inr e) ↦ absurd (parse-Safe raw h e)
  ]

  of_length-Safe : (k : ℕ) (o : Option (List ℕ)) (e : Error) → of_length k o e ≢ panic
  of_length-Safe k none e p = cc p
  of_length-Safe k (some b) e p = elim (Bool-cases (length b == k)) [
    | inl fit ↦ cc (rw (fit) at p)
    | inr off ↦ cc (rw (off) at p)
  ]

  sign-Safe : (id : Identity) (m : List ℕ) → sign c id m ≢ panic
  unfolding sign sign_message
  sign-Safe id m p = elim (Bool-cases (length id.private_key == ed25519_private_key_size)) [
    | inl fit ↦ cc (rw (fit) at p)
    | inr off ↦ cc (rw (off) at p)
  ]

  new_peer_identity-Safe : (b alias : List ℕ) → new_peer_identity b alias ≢ panic
  unfolding new_peer_identity
  new_peer_identity-Safe b alias p = elim (Bool-cases (length b == 32)) [
    | inl fit ↦ cc (rw (fit) at p)
    | inr off ↦ cc (rw (off) at p)
  ]

  guard-Safe : (b : Bool) (e : Error) → guard b e ≢ panic
  guard-Safe true e p = cc p
  guard-Safe false e p = cc p

  greet_client-Safe : (id : Identity) (w : Relay.World n) → (greet_client n c id conn w).0 ≢ panic
  unfolding greet_client
  greet_client-Safe id w =
      continue-Safe (of_length 32 (n.receive_packet conn w).0 Error.bad_challenge, _) _
        (of_length-Safe 32 (n.receive_packet conn w).0 Error.bad_challenge)
        (λ challenge w1.
          continue-Safe (sign c id challenge, _) _ (sign-Safe _ _)
            (λ sig w2.
              continue-Safe
                (guard (n.send_packet conn (id.public_key ++ sig) w2).0 Error.send_failure, _) _
                (guard-Safe _ _)
                (λ sent w3.
                  continue-Safe
                    (of_length 32 (n.receive_packet conn w3).0 Error.no_client_identity, _) _
                    (of_length-Safe 32 (n.receive_packet conn w3).0 Error.no_client_identity)
                    (λ auth w4.
                      continue-Safe (new_peer_identity auth (codes "client"), _) _
                        (new_peer_identity-Safe _ _) (λ peer w5 p. cc p)))))

  pub authenticate_client-Safe : (x : State n c) → (authenticate_client n c conn x).0 ≢ panic
  unfolding authenticate_client
  authenticate_client-Safe (s, w) =
      continue-Safe ((greet_client n c s.server_id conn w).0, _) _ (greet_client-Safe s.server_id w)
        (λ fp y p. cc p)

  finish-Safe :
      (fp : List ℕ) (pkts : List (List ℕ)) (k : Option ℕ) (x : State n c)
      → (finish n fp pkts k x).0 ≢ panic
  finish-Safe fp pkts none x p = cc p
  finish-Safe fp pkts (some k) x p = cc p

  pub deliver_mailbox-Safe :
      (fp : List ℕ) (to : Relay.Conn n) (x : State n c) → (deliver_mailbox n fp to x).0 ≢ panic
  unfolding deliver_mailbox_among
  deliver_mailbox-Safe fp to (s, w) = elim (Bool-cases (length (held n fp s) == 0)) [
    | inl unused ↦ rw (unused) (λ p. cc p)
    | inr used ↦ rw (used) (finish-Safe fp (held n fp s) _ _)
  ]
