-- ===== src/Peer/Flags.antt =====
-- The hexadecimal arguments of the commands in cmd/palagos/main.go.
use pelagos.Base.{
  ℕ, List, Option, none, some, Result, Error, ok, length, ◌==◌, if◌then◌else◌, or_fail, guard, drop,
  ◌>>=◌, ◌>>◌,
}
use pelagos.Base.Text.{codes}
use pelagos.Identity.{Identity, PeerIdentity, new_peer_identity}
use pelagos.Identity.Hex.{hex_decode}

-- A hexadecimal argument that must have `n` bytes.
unfoldable pub hex_argument : ℕ → Error → List ℕ → Result (List ℕ)
hex_argument n e text = do b ← or_fail (hex_decode text) e; guard (length b == n) e; ok b

-- The identity behind the flag `-key`.
unfoldable pub identity_of_key : List ℕ → Result Identity
identity_of_key text = do
  priv ← hex_argument 64 Error.bad_private_key_hex text
  ok (record { private_key = priv; public_key = drop 32 priv })

-- The peer behind the flag `-peer-pub`.
unfoldable pub peer_of_flag : List ℕ → Result PeerIdentity
peer_of_flag text = do
  b ← hex_argument 32 Error.bad_peer_key_hex text
  new_peer_identity b (codes "remote-peer")

-- In listen mode the flag may be left out.
unfoldable pub pinned_peer : List ℕ → Result (Option PeerIdentity)
pinned_peer text = if length text == 0 then ok none else do p ← peer_of_flag text; ok (some p)
