-- ===== src/Session/Delivery.antt =====
-- One data packet of session.go from one end to the other.
use pelagos.Base.{
  ℕ, ◌+◌, ◌%◌, ◌^◌, ◌<◌, ◌≤◌, ◌≡◌, refl, ap, sym, ◌∙◌, List, ◌++◌, true, some, Result, ok, err,
  panic, length, length-take, take, drop, take-append-drop, replicate, overwrite, overwrite_all,
  arith,
}
use pelagos.Crypto.Library.{GoCrypto}
use pelagos.Identity.{Identity, PeerIdentity, verify_signature}
use pelagos.Identity.Laws.{SigningLaws}
use pelagos.Packet.{Packet, compute_aad, signed_bytes}
use pelagos.Ratchet.{Ratchet, ratchet_decrypt}
use pelagos.Ratchet.Sync
use pelagos.Replay.{ReplayWindow, verify_replay_window}
use pelagos.Replay.History.{verify-above}
use pelagos.Session.{Session, data_packet, keyed_aad, fill_packet, encrypt_message, decrypt_message}
use pelagos.Session.Steps.{Trusted, signed, signed-verifies, sign_packet_lem}

-- What the receiving session makes of what the sending one returned.
receive :
    (c : GoCrypto)
    → Session c
    → Result Packet × (Session c × GoCrypto.Rng c)
    → Result (List ℕ) × Session c × Session c × GoCrypto.Rng c
receive c to (ok pkt, (from, g)) =
    let (m, (to', g')) = decrypt_message c pkt (to, g) in (m, from, to', g')
receive c to (err e, (from, g)) = (err e, from, to, g)
receive c to (panic, (from, g)) = (panic, from, to, g)

-- A text from one session to the other: `EncryptMessage`, then `DecryptMessage` of the packet.
unfoldable pub transmit :
    (c : GoCrypto)
    → List ℕ
    → Session c
    → Session c
    → GoCrypto.Rng c
    → Result (List ℕ) × Session c × Session c × GoCrypto.Rng c
unfolding receive
transmit c m from to g = receive c to (encrypt_message c m (from, g))

-- What an established session holds.
pub record Channel (c : GoCrypto) : Type 0 where
  pub local_id : Identity
  pub peer : PeerIdentity
  pub ratchet : Ratchet c
  pub replay_win : ReplayWindow
  pub out_sequence : ℕ
  pub epoch : ℕ

-- The established session of a channel.
abbrev pub up : (c : GoCrypto) → Channel c → Session c
up c ch = record {
  local_id = ch.local_id;
  peer_id = some ch.peer;
  ratchet = some ch.ratchet;
  replay_win = ch.replay_win;
  out_sequence = ch.out_sequence;
  epoch = ch.epoch;
  is_established = true;
}

compute_aad-filled :
    (c : GoCrypto) (pkt : Packet) (epub sealed sig : List ℕ)
    → compute_aad (record (fill_packet c pkt epub sealed) { signature = sig })
      ≡ keyed_aad c pkt epub
unfolding compute_aad
compute_aad-filled c pkt epub sealed sig = refl

module _ (c : GoCrypto) (s : Session c) (peer : PeerIdentity) (seq : ℕ) where
  data_packet-sequence : (data_packet c s peer seq).sequence ≡ seq
  unfolding data_packet
  data_packet-sequence = refl

  data_packet-signature : length (data_packet c s peer seq).signature ≡ 64
  unfolding data_packet
  data_packet-signature = refl

  data_packet-key :
      (epub : List ℕ)
      → length epub ≡ 32
      → overwrite (data_packet c s peer seq).ephemeral_public_key epub ≡ epub
  unfolding data_packet
  data_packet-key epub h = overwrite_all (replicate 32 0) epub (sym h)

  data_packet-sealed :
      (sealed : List ℕ)
      → 24 ≤ length sealed
      → overwrite (data_packet c s peer seq).nonce (take 24 sealed) ++ drop 24 sealed ≡ sealed
  unfolding data_packet
  data_packet-sealed sealed h =
      ap (λ (l : List ℕ). l ++ drop 24 sealed)
        (overwrite_all (replicate 24 0) (take 24 sealed) (omega (arith, length-take 24 sealed)))
      ∙ take-append-drop 24 sealed

-- Two channels with the right keys of one another on record; `to` has heard no number above those
-- that `from` has used.
pub record Hears (c : GoCrypto) (S : SigningLaws c) (from to : Channel c) : Type 0 where
  pub trusted : Trusted c S from.local_id to.peer
  pub heard : to.replay_win.max_seq ≤ from.out_sequence

module _ (c : GoCrypto) (from : Channel c) where
  abbrev pub next_seq : ℕ
  next_seq = (from.out_sequence + 1) % 2 ^ 64

  -- The header of the next packet.
  abbrev pub next_header : Packet
  next_header = data_packet c (up c from) from.peer next_seq

-- A packet that passes the window and the signature check is handed to the ratchet.
decrypt_message_lem :
    (c : GoCrypto) (to : Channel c) (pkt : Packet) (g : GoCrypto.Rng c) (w : ReplayWindow)
    (r : Ratchet c) (g' : GoCrypto.Rng c) (m : List ℕ)
    → verify_replay_window to.replay_win pkt.sequence ≡ (ok tt, w)
    → verify_signature c to.peer (signed_bytes pkt) pkt.signature ≡ true
    → ratchet_decrypt c pkt.ephemeral_public_key
        (pkt.nonce ++ pkt.payload)
        (compute_aad pkt)
        0
        (to.ratchet, g)
      ≡ (ok m, (r, g'))
    → decrypt_message c pkt (up c to, g)
      ≡ (ok m, (up c (record to { replay_win = w; ratchet = r }), g'))
unfolding decrypt_message
decrypt_message_lem c to pkt g w r g' m e v o = rw (e, v, o)

module _ (c : GoCrypto) (S : SigningLaws c) (from to : Channel c) (g : GoCrypto.Rng c) (m : List ℕ)
    (rf rt : Ratchet c) (g' : GoCrypto.Rng c) (h : Hears c S from to)
    (d : Sync.Delivery c
      (keyed_aad c (next_header c from))
      m
      from.ratchet
      to.ratchet
      g
      rf
      rt
      g') where
  -- The packet before it is signed.
  abbrev pub sealed_packet : Packet
  sealed_packet = fill_packet c (next_header c from) d.epub d.sealed

  abbrev pub sent_channel : Channel c
  sent_channel = record from { out_sequence = next_seq c from; ratchet = rf }

  pub encrypt_message_lem :
      encrypt_message c m (up c from, g)
      ≡ (ok (signed c from.local_id sealed_packet), (up c sent_channel, d.between))
  unfolding encrypt_message
  encrypt_message_lem = rw (
    d.sent,
    sign_packet_lem c S from.local_id to.peer h.trusted sealed_packet
        (data_packet-signature c (up c from) from.peer (next_seq c from)),
  )

  -- The ratchet is handed what the sender's ratchet returned.
  opened_lem :
      let pkt = signed c from.local_id sealed_packet in
      ratchet_decrypt c pkt.ephemeral_public_key
        (pkt.nonce ++ pkt.payload)
        (compute_aad pkt)
        0
        (to.ratchet, d.between)
      ≡ (ok m, (rt, g'))
  opened_lem =
      let pkt = signed c from.local_id sealed_packet in
      let s = up c from in
      let n = next_seq c from in
      ap
        (λ (k : List ℕ).
          ratchet_decrypt c k (pkt.nonce ++ pkt.payload) (compute_aad pkt) 0
            (to.ratchet, d.between))
        (data_packet-key c s from.peer n d.epub d.key_size)
      ∙ ap (λ (l : List ℕ). ratchet_decrypt c d.epub l (compute_aad pkt) 0 (to.ratchet, d.between))
          (data_packet-sealed c s from.peer n d.sealed (omega (arith, d.sealed_size)))
      ∙ ap (λ (a : List ℕ). ratchet_decrypt c d.epub d.sealed a 0 (to.ratchet, d.between))
          (compute_aad-filled c (next_header c from) d.epub d.sealed pkt.signature)
      ∙ d.opened

  -- The packet is decrypted to the text.
  pub decrypted_lem :
      from.out_sequence + 1 < 2 ^ 64
      → (w : ReplayWindow) × (decrypt_message c
            (signed c from.local_id sealed_packet)
            (up c to, d.between)
          ≡ (ok m, (up c (record to { replay_win = w; ratchet = rt }), g')))
        × (w.max_seq ≡ next_seq c from)
  decrypted_lem room =
      let n = next_seq c from in
      let pkt = signed c from.local_id sealed_packet in
      let (w, e, k) = verify-above to.replay_win n (omega (arith, h.heard)) in
      let same : pkt.sequence ≡ n = data_packet-sequence c (up c from) from.peer n in
      (
        w,
        decrypt_message_lem c to pkt d.between w rt g' m
            (ap (verify_replay_window to.replay_win) same ∙ e)
            (signed-verifies c S from.local_id to.peer h.trusted sealed_packet) opened_lem,
        k,
      )

  -- The text arrives, and both channels are ready for the next one.
  pub transmit_lem :
      from.out_sequence + 1 < 2 ^ 64
      → (w : ReplayWindow) × (transmit c m (up c from) (up c to) g
          ≡ (ok m, up c sent_channel, up c (record to { replay_win = w; ratchet = rt }), g'))
        × (w.max_seq ≡ next_seq c from)
  unfolding transmit
  transmit_lem room = let (w, e, k) = decrypted_lem room in (w, rw (encrypt_message_lem, e), k)
