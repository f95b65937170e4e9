-- ===== src/Transport/Limits.antt =====
-- The 10 MB limits: of a frame in transport.go, and of a payload in packet.go.
use pelagos.Base.{
  ℕ, ◌+◌, ◌<◌, ◌≤◌, ◌≡◌, ◌∙◌, List, Option, none, some, Error, ok, err, length, ltb, ltb→le,
  Bool-cases, inl, inr, arith, or_fail,
}
use pelagos.Base.Bytes.{get_be}
use pelagos.Packet.{Packet, HasArrays, marshal, max_payload}
use pelagos.Packet.Wire.{wire, length-wire, marshal-wire}
use pelagos.Base.State.{continue-ok}
use pelagos.Transport.{NetConn, read, max_frame, send_packet, receive_packet}
use pelagos.Transport.Framing.{StreamLaws}

or_fail-ok : {A : Type 0} (o : Option A) (e : Error) (a : A) → or_fail o e ≡ ok a → o ≡ some a
or_fail-ok none e a h = cc h
or_fail-ok (some x) e a h = cc h

module _ (n : NetConn) where
  -- A packet above the limit is refused by the sender before anything is written.
  send_packet-refuses :
      (p : List ℕ) (s : NetConn.Conn n)
      → max_frame < length p
      → send_packet n p s ≡ (err Error.frame_limit, s)
  unfolding send_packet
  send_packet-refuses p s h = ground arith

  -- Whatever a peer sends, a packet that is received is within the limit, and nothing is read of a
  -- frame that announces more than the limit.
  receive_packet-limit :
      (L : StreamLaws n) (p : List ℕ) (s : NetConn.Conn n)
      → (receive_packet n s).0 ≡ ok p
      → length p ≤ max_frame
  unfolding receive_packet
  receive_packet-limit L p s h = elim (Bool-cases (ltb max_frame (get_be head))) [
    | inl big ↦ cc (rw (first.1, big) at h)
    | inr small ↦ omega (
      arith,
      ltb→le _ _ small,
      L.read_size (get_be head) s1 p (or_fail-ok _ _ p (rw (first.1, small) at h)),
    )
  ]
    where
      s1 : NetConn.Conn n
      s1 = (read n 4 s).1

      first : (b : List ℕ) × ((read n 4 s).0 ≡ ok b)
      first = continue-ok (read n 4 s) _ p h

      head : List ℕ
      head = first.0

  -- A packet whose payload is at most 10 MB but at most 202 bytes short of it is encoded without an
  -- error, and its encoding can never be sent.
  pub marshal-unsendable :
      (p : Packet) (s : NetConn.Conn n)
      → HasArrays p
      → length p.payload ≤ max_payload
      → max_payload < length p.payload + 203
      → (marshal p ≡ ok (wire p)) × (send_packet n (wire p) s ≡ (err Error.frame_limit, s))
  marshal-unsendable p s a fits close = (
    marshal-wire p a ∙ ground arith,
    send_packet-refuses (wire p) s (rw (length-wire p a) (omega arith)),
  )
