-- ===== src/Transport/Tests.antt =====
-- A pipe as a stream, and the theorems on transport.go at concrete packets.
use pelagos.Base.{
  ℕ, ◌≡◌, refl, List, [], ◌∷◌, ◌++◌, Error, ok, err, length, replicate, length-replicate, arith,
}
use pelagos.Base.Bytes.{put_be, get_be}
use pelagos.Packet.{Packet, HasArrays, zero_packet, marshal, max_payload}
use pelagos.Packet.Wire.{wire}
use pelagos.Transport.{send_packet, receive_packet}
use pelagos.Transport.Pipe.{pipe, pipe_laws}
use pelagos.Transport.Framing.{send_all, receive_all, receive_all-send_all}
use pelagos.Transport.Limits.{marshal-unsendable}

abbrev two_packets : List (List ℕ)
two_packets = (1 ∷ 2 ∷ 3 ∷ []) ∷ [] ∷ []

abbrev carried : List ℕ
carried = 0 ∷ 0 ∷ 0 ∷ 3 ∷ 1 ∷ 2 ∷ 3 ∷ 0 ∷ 0 ∷ 0 ∷ 0 ∷ []

receive_all-send_all_example :
    ((receive_all pipe 2 ([], carried ++ (9 ∷ []))).0 ≡ ok two_packets)
    × ((receive_all pipe 2 ([], carried ++ (9 ∷ []))).1.1 ≡ 9 ∷ [])
unfolding send_all receive_all send_packet receive_packet put_be get_be pipe_laws
receive_all-send_all_example =
    receive_all-send_all pipe pipe_laws two_packets (9 ∷ []) ([], []) ([], carried ++ (9 ∷ [])) refl
      refl refl

unfoldable zeros : ℕ → List ℕ
zeros k = replicate k 0

length-zeros : (k : ℕ) → length (zeros k) ≡ k
unfolding zeros
length-zeros k = length-replicate k 0

-- A packet with a payload of exactly 10 MB.
abbrev large : Packet
large = record zero_packet { payload = zeros max_payload }

marshal-unsendable_example :
    (marshal large ≡ ok (wire large))
    × (send_packet pipe (wire large) ([], []) ≡ (err Error.frame_limit, ([], [])))
marshal-unsendable_example =
    marshal-unsendable pipe large ([], []) large_arrays
      (rw (length-zeros max_payload) (omega arith)) (rw (length-zeros max_payload) (omega arith))
  where
    large_arrays : HasArrays large
    large_arrays = record {
      sender_size = refl;
      recipient_size = refl;
      key_size = refl;
      nonce_size = refl;
      signature_size = refl;
    }
