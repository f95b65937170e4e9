-- ===== src/Peer/Tests.antt =====
-- Runs of the commands of main.go over the concrete functions of Crypto/Toy.
use pelagos.Base.{
  if◌then◌else◌, ◌==◌, ℕ, ◌*◌, ◌+◌, ◌≤◌, ◌≡◌, refl, List, [], ◌∷◌, ◌++◌, some, none, Result, ok,
  err, panic, length, replicate, copy_at, arith,
}
use mathlib.Core.List.{reverse}
use pelagos.Base.Bytes.{put_be, get_be}
use pelagos.Crypto.Random
use pelagos.Crypto.Random.{
  generate_ecdh_key_pair, compute_ecdh_shared_secret, sign_message, generate_ed25519_key_pair,
}
use pelagos.Crypto.Keys.{hkdf_extract_expand, derive_root_step, domain_root_key}
use pelagos.Crypto.Toy.{toy}
use pelagos.Identity.{Identity, PeerIdentity, sign, verify_signature, generate_identity}
use pelagos.Identity.Format.{hex_encode}
use pelagos.Identity.Toy.{toy_signing, alice, bob, of_alice, of_bob}
use pelagos.Packet.{
  Packet, signed_bytes, marshal, unmarshal, get_header, get_body, checked_slice,
  message_type_handshake_init,
}
use pelagos.Peer.{
  gen_identity, identity_of_key, peer_of_flag, Listener, listen_loop, answer_init, initiate,
  remote_peer, parsed,
}
use pelagos.Peer.Keys.{printed_keys-Trusted, answer_init-checks}
use pelagos.Peer.Listening.{Ended, listen_loop-ends}
use pelagos.Ratchet.{new_ratchet, initiator_ratchet, responder_ratchet}
use pelagos.Session.{
  Session, new_session, create_handshake_init, process_handshake_init, handshake_packet,
  handshake_master, sign_packet, verified_key,
}
use pelagos.Session.Guard.{Vouched}
use pelagos.Session.Steps.{Trusted}
use pelagos.Transport.{new_framed_conn}
use pelagos.Transport.Pipe.{pipe, pipe_ends}

-- Spaces around a line are not sent, as with `strings.TrimSpace`.
abbrev trim_left : List ℕ → List ℕ
trim_left [] = []
trim_left (x ∷ xs) = if x == 32 then trim_left xs else x ∷ xs

abbrev trim_space : List ℕ → List ℕ
trim_space s = reverse (trim_left (reverse (trim_left s)))

abbrev typed : List (List ℕ)
typed = (32 ∷ 6 ∷ 7 ∷ []) ∷ (32 ∷ 32 ∷ []) ∷ [] ∷ (8 ∷ 32 ∷ []) ∷ []

-- A listener that is about to read two short frames and half a length.
abbrev idle : Listener toy (new_framed_conn pipe)
idle = record {
  session = new_session toy bob (some of_alice);
  rng = 0;
  conn = ([], 0 ∷ 0 ∷ 0 ∷ 1 ∷ 9 ∷ 0 ∷ 0 ∷ 0 ∷ 0 ∷ 0 ∷ 0 ∷ []);
  printed = [];
}

listen_loop-ends_example :
    (r : Result (Unit {0})) × (l' : Listener toy (new_framed_conn pipe)) × (listen_loop toy
        (new_framed_conn pipe)
        12
        idle
      ≡ some (r, l'))
    × Ended r
    × (4 * length l'.printed ≤ 4 * 0 + 11)
unfolding pipe_ends
listen_loop-ends_example = listen_loop-ends toy pipe pipe_ends 12 idle (omega arith)

printed_keys-Trusted_example :
    (id : Identity) × (peer : PeerIdentity) × (identity_of_key
        (hex_encode (replicate 32 0 ++ replicate 32 2))
      ≡ ok id)
    × (peer_of_flag (hex_encode (replicate 32 2)) ≡ ok peer)
    × Trusted toy toy_signing id peer
unfolding gen_identity generate_identity generate_ed25519_key_pair
printed_keys-Trusted_example =
    printed_keys-Trusted toy toy_signing 3 (hex_encode (replicate 32 2))
      (hex_encode (replicate 32 0 ++ replicate 32 2)) refl

abbrev bytes_in : {A : Type 0} → Result (List ℕ × A) → List ℕ
bytes_in (ok (raw, _)) = raw
bytes_in (err e) = []
bytes_in panic = []

abbrev session_in : {A : Type 0} → Result (A × Session toy) → Session toy
session_in (ok (_, s)) = s
session_in (err e) = new_session toy bob none
session_in panic = new_session toy bob none

-- All that the two calls use.
program : Unit {0}
unfolding create_handshake_init process_handshake_init new_session handshake_packet handshake_master
    sign_packet verified_key generate_ecdh_key_pair compute_ecdh_shared_secret hkdf_extract_expand
    new_ratchet initiator_ratchet responder_ratchet derive_root_step domain_root_key sign
    sign_message verify_signature Random.verify_signature signed_bytes copy_at put_be get_be marshal
    unmarshal get_header get_body checked_slice initiate answer_init remote_peer
program = tt

abbrev first_frame : List ℕ
first_frame = bytes_in (initiate toy (new_session toy alice (some of_bob), 5)).0

abbrev the_answer : Result (List ℕ × Session toy)
the_answer = (answer_init toy bob (some of_alice) first_frame 6).0

first_answered : the_answer ≡ ok (bytes_in the_answer, session_in the_answer)
unfolding program
first_answered = refl

answer_init-checks_example :
    (pkt : Packet) × (peer : PeerIdentity) × (parsed first_frame ≡ ok pkt)
    × (remote_peer (some of_alice) pkt ≡ ok peer)
    × Vouched toy (some peer) message_type_handshake_init pkt
answer_init-checks_example =
    answer_init-checks toy bob (some of_alice) first_frame (bytes_in the_answer)
      (session_in the_answer) 6 first_answered
