-- ===== src/Server/Auth.antt =====
-- The challenge and response of server.go: `AuthenticateClient` at the relay and
-- `VerifyServerIdentity` at the client.
use pelagos.Base.{
  ℕ, ◌⊎◌, ◌≡◌, refl, ap, sym, ◌∙◌, List, [], ◌++◌, Bool, true, Option, none, some, Error, ok,
  length, length-append, take, drop, take-append, drop-append, ◌==◌, replicate, overwrite_all,
  ==_iff, Bool-cases, Result-cases, inl, inr, arith,
}
use pelagos.Base.Maps.{bytes_equal, bytes_equal_iff, bytes_equal_refl, lookup, lookup-insert_self}
use pelagos.Crypto.Library.{GoCrypto}
use pelagos.Crypto.Random.{secure_random, verify_signature}
use pelagos.Identity.{Identity, new_peer_identity}
use pelagos.Identity.Laws.{SigningLaws, sign_lem}
use pelagos.Server.{
  Relay, Server, of_length, authenticate_client, greet_client, check_response,
  verify_server_identity,
}

module _ (c : GoCrypto) where
  -- The client accepts an answer only if the key in it is the expected one, where one is expected,
  -- and has signed the challenge.
  Proves : List ℕ → List ℕ → List ℕ → Type 0
  Proves expected challenge resp =
      (((length expected == 0) ≡ true) ⊎ (take 32 resp ≡ expected))
      × (verify_signature c (take 32 resp) challenge (drop 32 resp) ≡ true)

  check_response-Proves :
      (expected challenge resp : List ℕ)
      → check_response c expected challenge resp ≡ ok tt
      → Proves expected challenge resp
  unfolding check_response Proves
  check_response-Proves expected challenge resp h =
      elim (Bool-cases (verify_signature c (take 32 resp) challenge (drop 32 resp))) [
        | inl good ↦ elim (Bool-cases (length expected == 0)) [
          | inl unused ↦ (inl unused, good)
          | inr used ↦ elim (Bool-cases (bytes_equal (take 32 resp) expected)) [
            | inl same ↦ (inr ((bytes_equal_iff (take 32 resp) expected).0 same), good)
            | inr other ↦ cc (rw (used, other) at h)
          ]
        ]
        | inr bad ↦ elim (Bool-cases (length expected == 0)) [
          | inl unused ↦ cc (rw (unused, bad) at h)
          | inr used ↦ elim (Bool-cases (bytes_equal (take 32 resp) expected)) [
            | inl same ↦ cc (rw (used, same, bad) at h)
            | inr other ↦ cc (rw (used, other) at h)
          ]
        ]
      ]

  of_length-ok :
      (k : ℕ) (o : Option (List ℕ)) (e : Error) (b : List ℕ)
      → of_length k o e ≡ ok b
      → (o ≡ some b) × (length b ≡ k)
  of_length-ok k none e b h = cc h
  of_length-ok k (some x) e b h = elim (Bool-cases (length x == k)) [
    | inl same ↦
        let f : ok x ≡ ok b = rw (same) at h in
        let g : x ≡ b = cc in (ap some g, ap length (sym g) ∙ (==_iff (length x) k).0 same)
    | inr other ↦ cc (rw (other) at h)
  ]

  module _ (n : Relay) (conn : Relay.Conn n) where
    -- A client that finds no fault with the relay has drawn a challenge of its own, and has received an
    -- answer of 96 bytes to it: a key, the expected one where one is expected, and that key's
    -- signature of the challenge.
    pub verify_server_identity_sound :
        (expected : List ℕ) (w : Relay.World n) (g : GoCrypto.Rng c)
        → (verify_server_identity n c conn expected (w, g)).0 ≡ ok tt
        → (challenge resp : List ℕ) × ((secure_random c 32 g).0 ≡ ok challenge)
          × ((n.receive_packet conn (n.send_packet conn challenge w).1).0 ≡ some resp)
          × (length resp ≡ 96)
          × (((length expected == 0) ≡ true) ⊎ (take 32 resp ≡ expected))
          × (verify_signature c (take 32 resp) challenge (drop 32 resp) ≡ true)
    unfolding verify_server_identity Proves
    verify_server_identity_sound expected w g h = elim (Result-cases (secure_random c 32 g).0) [
      | inr (inl (e, fails)) ↦ cc (rw (fails) at h)
      | inr (inr fails) ↦ cc (rw (fails) at h)
      | inl (ch, drawn) ↦
          let h1 = rw (drawn) at h in
          elim (Bool-cases (n.send_packet conn ch w).0) [
            | inr bad ↦ cc (rw (bad) at h1)
            | inl good ↦
                let h2 = rw (good) at h1 in
                let w1 = (n.send_packet conn ch w).1 in
                let o = (n.receive_packet conn w1).0 in
                elim (Result-cases (of_length 96 o Error.bad_auth_response)) [
                  | inr (inl (e, fails)) ↦ cc (rw (fails) at h2)
                  | inr (inr fails) ↦ cc (rw (fails) at h2)
                  | inl (resp, got) ↦
                      let (received, size) = of_length-ok 96 o Error.bad_auth_response resp got in
                      let (key, signature) =
                        check_response-Proves expected ch resp (rw (got) at h2) in
                      (ch, resp, drawn, received, size, key, signature)
                ]
          ]
    ]

    -- The answer of a relay to a challenge.
    abbrev pub answer : Identity → List ℕ → List ℕ
    answer id challenge = id.public_key ++ c.ed25519_sign id.private_key challenge

    module _ (S : SigningLaws c) (id : Identity) (k : S.IsPair id.public_key id.private_key) where
      -- A client that expects the key of a relay, or expects no key, finds no fault with the answer that
      -- the relay makes to the client's challenge, if that answer comes through.
      verify_server_identity-accepts :
          (expected challenge : List ℕ) (w : Relay.World n) (g : GoCrypto.Rng c)
          → (expected ≡ []) ⊎ (expected ≡ id.public_key)
          → (secure_random c 32 g).0 ≡ ok challenge
          → (n.send_packet conn challenge w).0 ≡ true
          → (n.receive_packet conn (n.send_packet conn challenge w).1).0
            ≡ some (answer id challenge)
          → (verify_server_identity n c conn expected (w, g)).0 ≡ ok tt
      unfolding verify_server_identity check_response verify_signature
      verify_server_identity-accepts expected challenge w g trust drawn sent received =
          rw (drawn, sent, received, size) (accepted trust)
        where
          sig : List ℕ
          sig = c.ed25519_sign id.private_key challenge

          key_size : length id.public_key ≡ 32
          key_size = (S.pair_sizes id.public_key id.private_key k).0

          size : length (answer id challenge) ≡ 96
          size = omega (
            arith,
            length-append id.public_key sig,
            S.signature_size id.private_key challenge,
            key_size,
          )

          valid : verify_signature c id.public_key challenge sig ≡ true
          valid = rw (
            key_size,
            S.signature_size id.private_key challenge,
            S.verify-sign id.public_key id.private_key challenge k,
          )

          accepted :
              (expected ≡ []) ⊎ (expected ≡ id.public_key)
              → check_response c expected challenge (answer id challenge) ≡ ok tt
          accepted (inl e) = rw (
            e,
            take-append id.public_key sig 32 key_size,
            drop-append id.public_key sig 32 key_size,
            valid,
          )
          accepted (inr e) = rw (
            e,
            key_size,
            take-append id.public_key sig 32 key_size,
            drop-append id.public_key sig 32 key_size,
            bytes_equal_refl id.public_key,
            valid,
          )

    -- The world after the challenge was received, and the outcome of sending the answer to it.
    abbrev pub asked : Relay.World n → Relay.World n
    asked w = (n.receive_packet conn w).1

    abbrev pub told : Identity → List ℕ → Relay.World n → Bool × Relay.World n
    told id challenge w = n.send_packet conn (answer id challenge) (asked w)

    -- What the relay does with a client that sends a challenge of 32 bytes and, after the relay's answer
    -- could be sent, any 32 bytes as its key: the answer is the relay's key and its signature of the
    -- challenge, and the connection is registered under the fingerprint of the key that the client
    -- named, without any proof that the client holds it. The mailboxes stay as they are.
    pub authenticate_client-admits :
        (S : SigningLaws c) (challenge key : List ℕ) (s : Server (Relay.Conn n)) (w : Relay.World n)
        → S.IsPair s.server_id.public_key s.server_id.private_key
        → length challenge ≡ 32
        → length key ≡ 32
        → (n.receive_packet conn w).0 ≡ some challenge
        → (told s.server_id challenge w).0 ≡ true
        → (n.receive_packet conn (told s.server_id challenge w).1).0 ≡ some key
        → ((authenticate_client n c conn (s, w)).0 ≡ ok (c.sha256 key))
          × (lookup (c.sha256 key) (authenticate_client n c conn (s, w)).1.0.clients ≡ some conn)
          × ((authenticate_client n c conn (s, w)).1.0.mailboxes ≡ s.mailboxes)
    unfolding authenticate_client greet_client new_peer_identity
    authenticate_client-admits S challenge key s w pair size key_size first sent second =
        rw
          (
            first,
            size,
            sign_lem c S s.server_id pair challenge,
            sent,
            second,
            key_size,
            overwrite_all (replicate 32 0) key (sym key_size),
            key_size,
          )
          (refl, lookup-insert_self (c.sha256 key) conn s.clients, refl)
