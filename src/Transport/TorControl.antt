-- ===== src/Transport/TorControl.antt =====
-- pkg/transport/tor_control.go: the client of Tor's control port. A method runs on the client
-- together with the world of its sockets; the mutex is held for the whole of each method.
pub mod Replies
pub mod Service
use pelagos.Base.{
  ℕ, zero, suc, ◌==◌, List, [], ◌∷◌, ◌++◌, Bool, true, false, not, ◌&&◌, ◌||◌, Option, none, some,
  Result, Error, ok, err, panic, length, if◌then◌else◌, or_fail, guard, take, drop,
}
use pelagos.Base.Maps.{bytes_equal}
use pelagos.Base.State.{Act, ◌>>=◌, ◌>>◌, pure, lift, continue}
use pelagos.Base.Text.{codes}
use pelagos.Identity.Format.{hex_encode}

-- The calls into `net`, `os` and `bufio`: dialling, writing a line, reading up to the next '\n', which
-- comes with it, closing, and reading a file. `decimal` is the verb %d, and `cookie_in_home` the
-- path of the cookie file below the home directory.
pub record ControlPort : Type 1 where
  pub World : Type 0
  pub Socket : Type 0
  pub dial : List ℕ → World → Option Socket × World
  pub write : Socket → List ℕ → World → Bool × World
  pub read_string : Socket → World → Option (List ℕ) × World
  pub close : Socket → World → Bool × World
  pub read_file : List ℕ → World → Option (List ℕ)
  pub cookie_in_home : World → List ℕ
  pub decimal : ℕ → List ℕ

pub record OnionServiceInfo : Type 0 where
  pub service_id : List ℕ
  pub onion_address : List ℕ
  pub private_key : List ℕ
  pub virtual_port : ℕ
  pub target_addr : List ℕ

-- `strings.HasPrefix`.
unfoldable pub has_prefix : List ℕ → List ℕ → Bool
has_prefix s prefix = bytes_equal (take (length prefix) s) prefix

-- `strings.TrimRight(line, "\r\n")`.
abbrev pub is_line_end : ℕ → Bool
is_line_end ch = ch == 10 || ch == 13

abbrev pub kept_head : ℕ → List ℕ → List ℕ
kept_head ch [] = if is_line_end ch then [] else ch ∷ []
kept_head ch (x ∷ rest) = ch ∷ x ∷ rest

unfoldable pub trim_line : List ℕ → List ℕ
trim_line [] = []
trim_line (ch ∷ s) = kept_head ch (trim_line s)

unfoldable pub final_reply : List ℕ
final_reply = codes "250 OK"

unfoldable pub service_id_field : List ℕ
service_id_field = codes "250-ServiceID="

unfoldable pub private_key_field : List ℕ
private_key_field = codes "250-PrivateKey="

-- What a line says of the reply that it belongs to.
pub data Verdict : Type 0 where
  accepted : Verdict
  rejected : Verdict
  unfinished : Verdict

unfoldable pub verdict : List ℕ → Verdict
verdict line =
    if has_prefix line final_reply || bytes_equal line final_reply
    then Verdict.accepted
    else if has_prefix line (codes "5") || has_prefix line (codes "4")
    then Verdict.rejected
    else Verdict.unfinished

-- The loop over the lines of the reply to ADD_ONION.
abbrev pub named : OnionServiceInfo → List ℕ → OnionServiceInfo
named info service_id = record info {
  service_id = service_id;
  onion_address = service_id ++ codes ".onion";
}

unfoldable pub read_field : OnionServiceInfo → List ℕ → OnionServiceInfo
read_field info line =
    if has_prefix line service_id_field
    then named info (drop (length service_id_field) line)
    else if has_prefix line private_key_field
    then record info { private_key = drop (length private_key_field) line }
    else info

unfoldable pub read_fields : OnionServiceInfo → List (List ℕ) → OnionServiceInfo
read_fields info [] = info
read_fields info (line ∷ lines) = read_fields (read_field info line) lines

abbrev pub blank_info : ℕ → List ℕ → OnionServiceInfo
blank_info virt_port target_addr = record {
  service_id = [];
  onion_address = [];
  private_key = [];
  virtual_port = virt_port;
  target_addr = target_addr;
}

-- What `CreateEphemeralOnion` makes of the reply.
unfoldable pub service_of : ℕ → List ℕ → List (List ℕ) → Result OnionServiceInfo
service_of virt_port target_addr lines =
    let info : OnionServiceInfo = read_fields (blank_info virt_port target_addr) lines in
    if length info.service_id == 0 then err Error.missing_service_id else ok info

module _ (p : ControlPort) where
  open p use {World, Socket, dial, write, read_string, close, read_file, cookie_in_home, decimal}

  pub record TorControlClient : Type 0 where
    pub conn : Option Socket
    pub control_addr : List ℕ

  unfoldable pub new_tor_control_client : List ℕ → TorControlClient
  new_tor_control_client control_addr = record {
    conn = none;
    control_addr = if length control_addr == 0 then codes "127.0.0.1:9051" else control_addr;
  }

  abbrev pub ClientAct : Type 0 → Type 0
  ClientAct A = Act (TorControlClient × World) A

  abbrev get_client : ClientAct TorControlClient
  get_client (t, w) = (ok t, (t, w))

  abbrev on_world : {A : Type 0} → (World → A × World) → ClientAct A
  on_world f (t, w) = (ok (f w).0, (t, (f w).1))

  unfoldable pub connect : ClientAct (Unit {0})
  connect = do
    t ← get_client
    dialled ← on_world (dial t.control_addr)
    socket ← lift (or_fail dialled Error.control_dial)
    λ x. (ok tt, (record x.0 { conn = some socket }, x.1))

  unfoldable pub send_cmd : List ℕ → ClientAct (Unit {0})
  send_cmd cmd = do
    t ← get_client
    socket ← lift (or_fail t.conn Error.socket_closed)
    written ← on_world (write socket (cmd ++ (13 ∷ 10 ∷ [])))
    lift (guard written Error.control_write)

  -- What becomes of the reply after a line; `again` reads on.
  abbrev pub after_line :
      (List (List ℕ) → ClientAct (List (List ℕ)))
      → Verdict
      → List (List ℕ)
      → ClientAct (List (List ℕ))
  after_line again Verdict.accepted lines x = (ok lines, x)
  after_line again Verdict.rejected lines x = (err Error.command_refused, x)
  after_line again Verdict.unfinished lines x = again lines x

  -- The loop of `readResponse`, after the lines `lines`; it panics only where the fuel is used up.
  unfoldable pub read_lines : ℕ → Socket → List (List ℕ) → ClientAct (List (List ℕ))
  read_lines zero socket lines = lift panic
  read_lines (suc fuel) socket lines =
      let again = read_lines fuel socket in
      do
        read ← on_world (read_string socket)
        raw ← lift (or_fail read Error.control_read)
        after_line again (verdict (trim_line raw)) (lines ++ (trim_line raw ∷ []))

  -- The reader belongs to the connection: where that is nil, the call is a panic.
  abbrev reading : ℕ → Option Socket → ClientAct (List (List ℕ))
  reading fuel none x = (panic, x)
  reading fuel (some socket) x = read_lines fuel socket [] x

  unfoldable pub read_response : ℕ → ClientAct (List (List ℕ))
  read_response fuel = do t ← get_client; reading fuel t.conn

  -- A command, and its reply.
  abbrev pub command : ℕ → List ℕ → ClientAct (List (List ℕ))
  command fuel cmd = do send_cmd cmd; read_response fuel

  -- An attempt that fails is followed by the rest.
  abbrev pub or_else :
      Result (List (List ℕ)) × (TorControlClient × World)
      → ClientAct (Unit {0})
      → Result (Unit {0}) × (TorControlClient × World)
  or_else (ok _, x) others = (ok tt, x)
  or_else (err e, x) others = others x
  or_else (panic, x) others = (panic, x)

  -- An attempt with the contents of a cookie file, if it could be read and is not empty.
  abbrev pub try_cookie : ℕ → Option (List ℕ) → ClientAct (Unit {0}) → ClientAct (Unit {0})
  try_cookie fuel none rest x = rest x
  try_cookie fuel (some cookie) rest x =
      if length cookie == 0
      then rest x
      else or_else (command fuel (codes "AUTHENTICATE " ++ hex_encode cookie) x) rest

  -- The loop over the cookie files.
  unfoldable pub try_cookies : ℕ → List (List ℕ) → ClientAct (Unit {0}) → ClientAct (Unit {0})
  try_cookies fuel [] others x = others x
  try_cookies fuel (path ∷ paths) others x =
      try_cookie fuel (read_file path x.1) (try_cookies fuel paths others) x

  abbrev pub try_password : ℕ → List ℕ → ClientAct (Unit {0})
  try_password fuel password x =
      if length password == 0
      then (err Error.authentication_failed, x)
      else or_else (command fuel (codes "AUTHENTICATE \"" ++ (password ++ codes "\"")) x)
          (λ y. (err Error.authentication_failed, y))

  abbrev pub cookie_paths : List ℕ → World → List (List ℕ)
  cookie_paths custom_cookie_path w =
      (if length custom_cookie_path == 0 then [] else custom_cookie_path ∷ [])
      ++ (codes "/var/lib/tor/control_auth_cookie"
          ∷ codes "/run/tor/control.authcookie"
          ∷ cookie_in_home w
          ∷ [])

  abbrev pub if_connected : Option Socket → ClientAct (Unit {0}) → ClientAct (Unit {0})
  if_connected none attempts x = (err Error.not_connected, x)
  if_connected (some socket) attempts x = attempts x

  -- The three attempts of `Authenticate`.
  abbrev pub attempts : ℕ → List ℕ → List ℕ → ClientAct (Unit {0})
  attempts fuel password custom_cookie_path x =
      or_else (command fuel (codes "AUTHENTICATE \"\"") x)
        λ y. try_cookies fuel (cookie_paths custom_cookie_path y.1) (try_password fuel password) y

  unfoldable pub authenticate : ℕ → List ℕ → List ℕ → ClientAct (Unit {0})
  authenticate fuel password custom_cookie_path x =
      if_connected x.0.conn (attempts fuel password custom_cookie_path) x

  unfoldable pub create_ephemeral_onion : ℕ → ℕ → List ℕ → List ℕ → ClientAct OnionServiceInfo
  create_ephemeral_onion fuel virt_port target_addr key_blob = do
    let key_spec = if length key_blob == 0 then codes "NEW:ED25519-V3" else key_blob
    lines ← command fuel (
        codes "ADD_ONION "
        ++ (key_spec ++ (codes " Port=" ++ (decimal virt_port ++ (codes "," ++ target_addr)))))
    lift (service_of virt_port target_addr lines)

  unfoldable pub destroy_ephemeral_onion : ℕ → List ℕ → ClientAct (Unit {0})
  destroy_ephemeral_onion fuel service_id = do
    lines ← command fuel (codes "DEL_ONION " ++ service_id)
    pure tt

  abbrev hang_up : Option Socket → ClientAct (Unit {0})
  hang_up none x = (ok tt, x)
  hang_up (some socket) (t, w) =
      let w' = (send_cmd (codes "QUIT") (t, w)).1.1 in
      (
        guard (close socket w').0 Error.close_failure,
        (record t { conn = none }, (close socket w').1),
      )

  -- `Close`.
  unfoldable pub close_client : ClientAct (Unit {0})
  close_client = do t ← get_client; hang_up t.conn
