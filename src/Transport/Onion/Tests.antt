-- ===== src/Transport/Onion/Tests.antt =====
-- A control port that replies with fixed lines, and the Tor transport there.
use pelagos.Base.{
  ℕ, ◌<◌, ◌≤◌, ◌≡◌, List, [], ◌∷◌, ◌++◌, true, Option, none, some, length, drop, arith,
}
use pelagos.Base.Text.{codes}
use pelagos.Transport.TorControl.{ControlPort}
use pelagos.Transport.TorControl.Replies.{FinitePort}
use pelagos.Transport.Onion.{OnionNet, OnionTransport, provision_ephemeral_onion}
use pelagos.Transport.Onion.Lifecycle.{Quiet, Provisioned, provision-all_or_nothing}

abbrev next_line : List (List ℕ) → Option (List ℕ)
next_line [] = none
next_line (l ∷ ls) = some l

-- The world is what the control port still writes.
abbrev script : ControlPort
script = record {
  World = List (List ℕ);
  Socket = Unit {0};
  dial = λ addr w. (some tt, w);
  write = λ s b w. (true, w);
  read_string = λ s w. (next_line w, drop 1 w);
  close = λ s w. (true, w);
  read_file = λ path w. none;
  cookie_in_home = λ w. [];
  decimal = λ k. k ∷ [];
}

next_line-less :
    (w : List (List ℕ)) (l : List ℕ) → next_line w ≡ some l → length (drop 1 w) < length w
next_line-less [] l h = cc h
next_line-less (x ∷ w) l h = omega arith

next_line-keeps : (w : List (List ℕ)) → length (drop 1 w) ≤ length w
next_line-keeps [] = omega arith
next_line-keeps (x ∷ w) = omega arith

unfoldable script_ends : FinitePort script
script_ends = record {
  pending = length;
  read_consumes = λ s w l h. next_line-less w l h;
  read_keeps = λ s w. next_line-keeps w;
  write_keeps = λ s b w. omega arith;
}

-- A listener is its address.
abbrev local_net : OnionNet
local_net = record {
  port = script;
  Listener = List ℕ;
  Stream = Unit {0};
  Dialer = List ℕ;
  socks5 = λ addr. some addr;
  dial_through = λ d addr w. (some tt, w);
  listen = λ addr w. (some addr, w);
  accept = λ l w. (some tt, w);
  close_listener = λ l w. (true, w);
  addr_of = λ l. l;
}

local_quiet : Quiet local_net script_ends
unfolding script_ends
local_quiet = record { dial_keeps = λ addr w. omega arith; listen_keeps = λ addr w. omega arith }

abbrev line : List ℕ → List ℕ
line s = s ++ (13 ∷ 10 ∷ [])

abbrev replies : List (List ℕ)
replies =
    line (codes "250 OK")
    ∷ line (codes "250-ServiceID=ab")
    ∷ line (codes "250-PrivateKey=k")
    ∷ line (codes "250 OK")
    ∷ []

abbrev idle : OnionTransport local_net
idle = record { socks_proxy_addr = []; listener = none; active_onion = none; dialer = [] }

provision-all_or_nothing_example :
    Provisioned local_net script_ends local_quiet
      (some (codes "here"))
      idle
      (provision_ephemeral_onion local_net 5 [] [] [] 0 (codes "here") (idle, replies))
unfolding script_ends
provision-all_or_nothing_example =
    provision-all_or_nothing local_net script_ends local_quiet 5 [] [] [] 0 (codes "here") idle
      replies (omega arith)
