-- ===== src/Session/Tests.antt =====
-- Runs of two sessions over the concrete functions of Crypto/Toy, and the theorems there.
use pelagos.Base.{
  ℕ, ◌≡◌, refl, List, [], ◌∷◌, Bool, true, false, some, Result, ok, err, panic, copy_at, Error,
  replicate, arith, if◌then◌else◌,
}
use pelagos.Base.Bytes.{put_be}
use pelagos.Crypto.Random
use pelagos.Crypto.Random.{generate_ecdh_key_pair, compute_ecdh_shared_secret, sign_message}
use pelagos.Crypto.Keys.{hkdf_extract_expand, derive_root_step, domain_root_key}
use pelagos.Crypto.Toy.{toy, toy_laws}
use pelagos.Identity.{sign, verify_signature}
use pelagos.Identity.Toy.{toy_signing, alice, bob, of_alice, of_bob}
use pelagos.Packet.{
  Packet, zero_packet, signed_bytes, message_type_handshake_init, message_type_handshake_resp,
}
use pelagos.Ratchet.{Ratchet, new_ratchet, initiator_ratchet, responder_ratchet}
use pelagos.Replay.{new_replay_window, check_and_add}
use pelagos.Replay.History.{Distinct}
use pelagos.Session.{
  encrypt_message, Session, new_session, decrypt_message, create_handshake_init,
  process_handshake_init, complete_initiator_handshake, handshake_packet, handshake_master,
  sign_packet, verified_key,
}
use pelagos.Session.Steps.{Trusted}
use pelagos.Session.Delivery.{Channel, up}
use pelagos.Session.Conversation.{converse, all_read}
use pelagos.Session.Handshake.{handshake, handshake_then_talk}
use pelagos.Session.Guard.{
  forged_refused, forged-closes_window, Vouched, process_handshake_init-authentic,
  complete_handshake-authentic,
}
use pelagos.Session.Replays.{opened_from, no_message_twice}

trust_alice : Trusted toy toy_signing alice of_alice
trust_alice = record { pair = (refl, refl, refl); on_record = refl }

trust_bob : Trusted toy toy_signing bob of_bob
trust_bob = record { pair = (refl, refl, refl); on_record = refl }

abbrev talk : List (Bool × List ℕ)
talk = (true, 6 ∷ []) ∷ (false, 7 ∷ 8 ∷ []) ∷ (false, []) ∷ (true, 9 ∷ []) ∷ []

handshake_then_talk_example :
    (a b : Session toy) × (g' : ℕ) × (handshake toy
        (new_session toy alice (some of_bob))
        (new_session toy bob (some of_alice))
        5
      ≡ (ok tt, a, b, g'))
    × (converse toy ((true, 1 ∷ 2 ∷ []) ∷ talk) a b g' ≡ all_read ((true, 1 ∷ 2 ∷ []) ∷ talk))
handshake_then_talk_example =
    handshake_then_talk toy toy_laws toy_signing alice bob of_alice of_bob trust_alice trust_bob 5
      (1 ∷ 2 ∷ []) talk (omega arith)

-- A ratchet and a channel in the middle of a session.
abbrev some_ratchet : Ratchet toy
some_ratchet = record {
  dhs_local = 1;
  dhr_peer = some 2;
  rk = replicate 32 1;
  cks = replicate 32 2;
  ckr = replicate 32 3;
  ns = 4;
  nr = 4;
  pn = 0;
  skipped_keys = [];
}

abbrev middle : Channel toy
middle = record {
  local_id = bob;
  peer = of_alice;
  ratchet = some_ratchet;
  replay_win = record { max_seq = 3; bitmap = 7 };
  out_sequence = 3;
  epoch = 1;
}

abbrev forgery : Packet
forgery = record zero_packet { sequence = 100; signature = replicate 64 1 }

forgery_fails : verify_signature toy of_alice (signed_bytes forgery) forgery.signature ≡ false
unfolding verify_signature Random.verify_signature signed_bytes copy_at put_be
forgery_fails = refl

abbrev late : Packet
late = record zero_packet { sequence = 4 }

forged_refused_example : decrypt_message toy forgery (up toy middle, 0) ≡ (
  (if (check_and_add (middle.replay_win) 100).0
      then err Error.bad_packet_signature
      else err Error.replayed),
  (up toy (record middle { replay_win = (check_and_add (middle.replay_win) 100).1 }), 0),
)
forged_refused_example = forged_refused toy middle 0 forgery forgery_fails

forged-closes_window_example :
    (decrypt_message toy late ((decrypt_message toy forgery (up toy middle, 0)).1.0, 0)).0
    ≡ err Error.replayed
forged-closes_window_example =
    forged-closes_window toy middle 0 0 forgery late forgery_fails (omega arith) (omega arith)

abbrev packet_in : {A : Type 0} → Result (Packet × A) → Packet
packet_in (ok (p, _)) = p
packet_in (err e) = zero_packet
packet_in panic = zero_packet

abbrev result_in : Result Packet → Packet
result_in (ok p) = p
result_in (err e) = zero_packet
result_in panic = zero_packet

-- The first two packets of a handshake.
abbrev first : Packet
first = packet_in (create_handshake_init toy (new_session toy alice (some of_bob), 5)).0

abbrev answer : Result Packet × (Session toy × ℕ)
answer = process_handshake_init toy first (new_session toy bob (some of_alice), 6)

-- All that a handshake calls.
program : Unit {0}
unfolding create_handshake_init process_handshake_init complete_initiator_handshake new_session
    handshake_packet handshake_master sign_packet verified_key generate_ecdh_key_pair
    compute_ecdh_shared_secret hkdf_extract_expand new_ratchet initiator_ratchet responder_ratchet
    derive_root_step domain_root_key sign sign_message verify_signature Random.verify_signature
    signed_bytes copy_at put_be
program = tt

answered : answer.0 ≡ ok (result_in answer.0)
unfolding program
answered = refl

process_handshake_init-authentic_example :
    Vouched toy (new_session toy bob (some of_alice)).peer_id message_type_handshake_init first
process_handshake_init-authentic_example =
    process_handshake_init-authentic toy (new_session toy bob (some of_alice)) 6 first
      (result_in answer.0) answered

completed :
    (complete_initiator_handshake toy
      (result_in answer.0)
      (some 5)
      (new_session toy alice (some of_bob), 7)).0
    ≡ ok tt
unfolding program
completed = refl

complete_handshake-authentic_example :
    Vouched toy
      (new_session toy alice (some of_bob)).peer_id
      message_type_handshake_resp
      (result_in answer.0)
complete_handshake-authentic_example =
    complete_handshake-authentic toy (new_session toy alice (some of_bob)) 7 (result_in answer.0)
      (some 5) completed

-- Both sessions after the handshake, and two packets from the first to the second.
abbrev caller : Session toy
caller =
    (complete_initiator_handshake toy (result_in answer.0) (some 5)
      (new_session toy alice (some of_bob), 7)).1.0

abbrev called : Session toy
called = answer.1.0

abbrev one : Result Packet × (Session toy × ℕ)
one = encrypt_message toy (4 ∷ []) (caller, 8)

abbrev two : Result Packet × (Session toy × ℕ)
two = encrypt_message toy (5 ∷ []) one.1

-- The first packet comes three times.
abbrev replayed : List Packet
replayed = result_in one.0 ∷ forgery ∷ result_in one.0 ∷ result_in two.0 ∷ result_in one.0 ∷ []

called_new : called.replay_win ≡ new_replay_window
unfolding program
called_new = refl

no_message_twice_example : Distinct (opened_from toy replayed called 20)
no_message_twice_example = no_message_twice toy replayed called 20 called_new
