-- ===== src/Peer/Keys.antt =====
-- The keys of main.go: what `gen-identity` prints is read by `-key` and `-peer-pub`, and whose first
-- frame the listener answers.
use pelagos.Base.{
  ℕ, ◌==◌, ◌≡◌, ap, ◌∙◌, List, Option, some, Result, ok, length, drop, overwrite_all, replicate,
  Option-cases, Bool-cases, Result-cases, inl, inr, sym,
}
use pelagos.Base.State.{continue}
use pelagos.Base.Text.{codes}
use pelagos.Crypto.Library.{GoCrypto}
use pelagos.Crypto.Random.{generate_ed25519_key_pair}
use pelagos.Identity.{Identity, PeerIdentity, new_peer_identity, generate_identity}
use pelagos.Identity.Laws.{SigningLaws}
use pelagos.Base.{All}
use pelagos.Base.Bytes.{IsByte}
use pelagos.Identity.Format.{hex_encode}
use pelagos.Identity.Hex.{hex_decode-hex_encode}
use pelagos.Packet.{Packet, message_type_handshake_init}
use pelagos.Peer.{
  gen_identity, hex_argument, identity_of_key, peer_of_flag, answer_init, remote_peer, parsed,
  SessionAct, on_session,
}
use pelagos.Session.{Session, new_session, process_handshake_init}
use pelagos.Session.Steps.{Trusted}
use pelagos.Session.Guard.{Vouched, process_handshake_init-authentic}

-- A private key is read as the identity that it holds.
identity_of_key_lem :
    (priv : List ℕ)
    → length priv ≡ 64
    → All IsByte priv
    → identity_of_key (hex_encode priv)
      ≡ ok (record { private_key = priv; public_key = drop 32 priv })
unfolding identity_of_key hex_argument
identity_of_key_lem priv size bytes = rw (hex_decode-hex_encode priv bytes, size)

peer_of_flag_lem :
    (pub_key : List ℕ)
    → length pub_key ≡ 32
    → All IsByte pub_key
    → peer_of_flag (hex_encode pub_key)
      ≡ ok (record { public_key = pub_key; alias = codes "remote-peer" })
unfolding peer_of_flag hex_argument new_peer_identity
peer_of_flag_lem pub_key size bytes = rw (
  hex_decode-hex_encode pub_key bytes,
  size,
  overwrite_all (replicate 32 0) pub_key (sym size),
  size,
)

gen_identity_lem :
    (c : GoCrypto) (g : GoCrypto.Rng c) (pub_hex priv_hex : List ℕ)
    → (gen_identity c g).0 ≡ ok (pub_hex, priv_hex)
    → (pub_key priv : List ℕ) × ((c.ed25519_generate g).0 ≡ some (pub_key, priv))
      × (pub_hex ≡ hex_encode pub_key)
      × (priv_hex ≡ hex_encode priv)
unfolding gen_identity generate_identity generate_ed25519_key_pair
gen_identity_lem c g pub_hex priv_hex h = elim (Option-cases (c.ed25519_generate g).0) [
  | inl e ↦ cc (rw (e) at h)
  | inr ((pub_key, priv), e) ↦
      let k : ok (hex_encode pub_key, hex_encode priv) ≡ ok (pub_hex, priv_hex) = rw (e) at h in
      (pub_key, priv, e, cc k, cc k)
]

module _ (c : GoCrypto) (S : SigningLaws c) where
  -- The key pair that `gen-identity` prints is usable by the other commands: the private key given
  -- to `-key` makes an identity, the public key given to `-peer-pub` makes a peer, and that peer is
  -- the right record of that identity.
  pub printed_keys-Trusted :
      (g : GoCrypto.Rng c) (pub_hex priv_hex : List ℕ)
      → (gen_identity c g).0 ≡ ok (pub_hex, priv_hex)
      → (id : Identity) × (peer : PeerIdentity) × (identity_of_key priv_hex ≡ ok id)
        × (peer_of_flag pub_hex ≡ ok peer)
        × Trusted c S id peer
  printed_keys-Trusted g pub_hex priv_hex h =
      let (pub_key, priv, e, p, q) = gen_identity_lem c g pub_hex priv_hex h in
      let pair = S.generated_pair g pub_key priv e in
      let (pub_size, priv_size) = S.pair_sizes pub_key priv pair in
      let (pub_bytes, priv_bytes) = S.generated_bytes g pub_key priv e in
      let holds = S.holds_public g pub_key priv e in
      (
        record { private_key = priv; public_key = drop 32 priv },
        record { public_key = pub_key; alias = codes "remote-peer" },
        ap identity_of_key q ∙ identity_of_key_lem priv priv_size priv_bytes,
        ap peer_of_flag p ∙ peer_of_flag_lem pub_key pub_size pub_bytes,
        record { pair = rw holds pair; on_record = sym holds },
      )

module _ (c : GoCrypto) where
  -- A chain that begins with a call on a session and ends well.
  on_session-ok :
      {A B : Type 0} (f : SessionAct c A) (s : Session c) (g : GoCrypto.Rng c)
      (next : A × Session c → GoCrypto.Rng c → Result B × GoCrypto.Rng c) (b : B)
      → (continue (on_session c f s g) next).0 ≡ ok b
      → (a : A) × ((f (s, g)).0 ≡ ok a)
  on_session-ok f s g next b h = elim (Result-cases (f (s, g)).0) [
    | inl r ↦ r
    | inr (inl (e, p)) ↦ cc (rw (p) at h)
    | inr (inr p) ↦ cc (rw (p) at h)
  ]

  -- A listener answers a first frame only if it is a handshake-init packet whose signatures, of the
  -- packet and of the key in it, verify under the pinned key; where no key is pinned, under the
  -- first 32 bytes of the payload, which are the sender's ephemeral X25519 key and not its identity
  -- key.
  pub answer_init-checks :
      (local_id : Identity) (peer_id : Option PeerIdentity) (raw resp : List ℕ) (s : Session c)
      (g : GoCrypto.Rng c)
      → (answer_init c local_id peer_id raw g).0 ≡ ok (resp, s)
      → (pkt : Packet) × (peer : PeerIdentity) × (parsed raw ≡ ok pkt)
        × (remote_peer peer_id pkt ≡ ok peer)
        × Vouched c (some peer) message_type_handshake_init pkt
  unfolding answer_init
  answer_init-checks local_id peer_id raw resp s g h = elim (Result-cases (parsed raw)) [
    | inr (inl (e, p)) ↦ cc (rw (p) at h)
    | inr (inr p) ↦ cc (rw (p) at h)
    | inl (pkt, p) ↦ elim (Bool-cases (pkt.type == message_type_handshake_init)) [
      | inr other ↦ cc (rw (p, other) at h)
      | inl type ↦ elim (Result-cases (remote_peer peer_id pkt)) [
        | inr (inl (e, q)) ↦ cc (rw (p, type, q) at h)
        | inr (inr q) ↦ cc (rw (p, type, q) at h)
        | inl (peer, q) ↦
            let (answer, f) =
              on_session-ok (process_handshake_init c pkt) (new_session c local_id (some peer)) g _
                (resp, s) (rw (p, type, q) at h) in
            (
              pkt,
              peer,
              p,
              q,
              unfold new_session in
                  process_handshake_init-authentic c (new_session c local_id (some peer)) g pkt
                    answer f,
            )
      ]
    ]
  ]
