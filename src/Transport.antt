-- ===== src/Transport.antt =====
-- pkg/transport/transport.go: packets on a byte stream, each behind its length in four bytes.
pub mod Framing
pub mod Limits
pub mod Finite
pub mod Pipe
pub mod TorControl
pub mod Onion
mod Tests
use pelagos.Base.{
  ℕ, ◌*◌, ◌%◌, ◌^◌, List, Bool, true, false, Option, none, some, Result, Error, ok, err, length,
  ltb, if◌then◌else◌, or_fail, guard,
}
use pelagos.Base.Bytes.{put_be, get_be}
use pelagos.Base.State.{Act, ◌>>=◌, ◌>>◌, pure, lift, continue}

-- The calls on the stream below: `net.Conn.Write`, which reports an error by `false`, and
-- `io.ReadFull` into a new slice of a given size, which reports one by `none`.
pub record NetConn : Type 1 where
  pub Conn : Type 0
  pub write : List ℕ → Conn → Bool × Conn
  pub read_full : ℕ → Conn → Option (List ℕ) × Conn

-- The interface `Conn`: packets on some transport.
pub record PacketConn : Type 1 where
  pub Conn : Type 0
  pub send_packet : List ℕ → Act Conn (Unit {0})
  pub receive_packet : Act Conn (List ℕ)

-- The 10 MB limit on a frame.
abbrev pub max_frame : ℕ
max_frame = 10 * 1024 * 1024

module _ (n : NetConn) where
  open n use {Conn, write, read_full}

  abbrev pub written : List ℕ → Act Conn (Unit {0})
  written b s = (guard (write b s).0 Error.write_failure, (write b s).1)

  abbrev pub read : ℕ → Act Conn (List ℕ)
  read k s = (or_fail (read_full k s).0 Error.read_failure, (read_full k s).1)

  unfoldable pub send_packet : List ℕ → Act Conn (Unit {0})
  send_packet packet =
      if ltb max_frame (length packet)
      then lift (err Error.frame_limit)
      else do written (put_be 4 (length packet % 2 ^ 32)); written packet

  unfoldable pub receive_packet : Act Conn (List ℕ)
  receive_packet = do
    len_buf ← read 4
    let payload_len = get_be len_buf
    if ltb max_frame payload_len then lift (err Error.frame_limit) else read payload_len

-- `NewFramedConn`: the stream as a connection.
abbrev pub new_framed_conn : NetConn → PacketConn
new_framed_conn n = record {
  Conn = NetConn.Conn n;
  send_packet = send_packet n;
  receive_packet = receive_packet n;
}
