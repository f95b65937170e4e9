-- ===== src/Transport/TorControl/Replies.antt =====
-- The calls of the control client return: no reply is waited for without end.
use pelagos.Base.{
  ℕ, zero, suc, ◌<◌, ◌≤◌, ◌==◌, ◌≡◌, ◌≢◌, refl, List, [], ◌∷◌, ◌++◌, Option, none, some, Result,
  Error, ok, err, panic, length, Bool-cases, Option-cases, inl, inr, arith,
}
use pelagos.Base.State.{continue}
use pelagos.Base.Text.{codes}
use pelagos.Identity.Format.{hex_encode}
use pelagos.Transport.TorControl.{
  ControlPort, TorControlClient, ClientAct, Verdict, verdict, trim_line, after_line, read_lines,
  read_response, send_cmd, command, or_else, try_cookie, try_cookies, try_password, attempts,
  if_connected, cookie_paths, authenticate, service_of, create_ephemeral_onion,
  destroy_ephemeral_onion,
}

-- What the loop relies on of the control port: it writes finitely many lines, each is read once, and
-- no other call adds to them.
pub record FinitePort (p : ControlPort) : Type 1 where
  pub pending : ControlPort.World p → ℕ
  pub read_consumes :
      (s : ControlPort.Socket p) (w : ControlPort.World p) (line : List ℕ)
      → (p.read_string s w).0 ≡ some line
      → pending (p.read_string s w).1 < pending w
  pub read_keeps :
      (s : ControlPort.Socket p) (w : ControlPort.World p)
      → pending (p.read_string s w).1 ≤ pending w
  pub write_keeps :
      (s : ControlPort.Socket p) (b : List ℕ) (w : ControlPort.World p)
      → pending (p.write s b w).1 ≤ pending w

module _ (p : ControlPort) (F : FinitePort p) where
  abbrev pub ClientState : Type 0
  ClientState = TorControlClient p × ControlPort.World p

  -- A call that has returned, and has left no more lines.
  abbrev pub Returned : {A : Type 0} → ClientState → Result A × ClientState → Type 0
  Returned x r = (r.0 ≢ panic) × (F.pending r.1.1 ≤ F.pending x.1)

  abbrev pub Returns : {A : Type 0} → ℕ → ClientAct p A → Type 0
  Returns fuel f = (x : ClientState) → F.pending x.1 < fuel → Returned x (f x)

  ok-Returned :
      {A : Type 0} (a : A) (x y : ClientState)
      → F.pending y.1 ≤ F.pending x.1
      → Returned x (ok a, y)
  ok-Returned a x y h = (λ e. cc e, h)

  err-Returned :
      {A : Type 0} (x y : ClientState) (problem : Error)
      → F.pending y.1 ≤ F.pending x.1
      → Returned {A = A} x (err problem, y)
  err-Returned x y problem h = (λ e. cc e, h)

  after_line-Returned :
      (again : List (List ℕ) → ClientAct p (List (List ℕ))) (v : Verdict) (lines : List (List ℕ))
      (x y : ClientState)
      → F.pending y.1 ≤ F.pending x.1
      → Returned y (again lines y)
      → Returned x (after_line p again v lines y)
  after_line-Returned again Verdict.accepted lines x y h r = ok-Returned lines x y h
  after_line-Returned again Verdict.rejected lines x y h r = err-Returned x y _ h
  after_line-Returned again Verdict.unfinished lines x y h r = (r.0, omega (arith, r.1))

  read_lines-Returns :
      (fuel : ℕ) (s : ControlPort.Socket p) (lines : List (List ℕ))
      → Returns fuel (read_lines p fuel s lines)
  unfolding read_lines
  read_lines-Returns zero s lines x h = elim h [ ]
  read_lines-Returns (suc fuel) s lines (t, w) h = elim (Option-cases (p.read_string s w).0) [
    | inl gone ↦ rw (gone) (err-Returned (t, w) (t, (p.read_string s w).1) _ (F.read_keeps s w))
    | inr (raw, got) ↦
        let used = F.read_consumes s w raw got in
        let y : ClientState = (t, (p.read_string s w).1) in
        let more : List (List ℕ) = lines ++ (trim_line raw ∷ []) in
        rw (got) (
          after_line-Returned (read_lines p fuel s) (verdict (trim_line raw)) more (t, w) y
            (omega (arith, used)) (read_lines-Returns fuel s more y (omega (arith, used))))
  ]

  -- A command on a client with the given connection.
  sent_on :
      (fuel : ℕ) (cmd : List ℕ) (o : Option (ControlPort.Socket p)) (addr : List ℕ)
      (w : ControlPort.World p)
      → F.pending w < fuel
      → Returned
          (record { conn = o; control_addr = addr }, w)
          (command p fuel cmd (record { conn = o; control_addr = addr }, w))
  unfolding send_cmd read_response
  sent_on fuel cmd none addr w h = (λ e. cc e, omega arith)
  sent_on fuel cmd (some s) addr w h =
      let line : List ℕ = cmd ++ (13 ∷ 10 ∷ []) in
      let t : TorControlClient p = record { conn = some s; control_addr = addr } in
      let w' = (p.write s line w).1 in
      let kept = F.write_keeps s line w in
      elim (Bool-cases (p.write s line w).0) [
        | inr failed ↦ rw (failed) (err-Returned (t, w) (t, w') _ kept)
        | inl written ↦
            let r = read_lines-Returns fuel s [] (t, w') (omega (arith, kept)) in
            rw (written) (r.0, omega (arith, r.1, kept))
      ]

  -- A command is refused, or its reply is read to its end.
  command-Returns : (fuel : ℕ) (cmd : List ℕ) → Returns fuel (command p fuel cmd)
  command-Returns fuel cmd (t, w) h = sent_on fuel cmd t.conn t.control_addr w h

  or_else-Returned :
      (x : ClientState) (r : Result (List (List ℕ))) (y : ClientState)
      (others : ClientAct p (Unit {0}))
      → Returned x (r, y)
      → Returned y (others y)
      → Returned x (or_else p (r, y) others)
  or_else-Returned x (ok _) y others a b = ok-Returned tt x y a.1
  or_else-Returned x (err e) y others a b = (b.0, omega (arith, a.1, b.1))
  or_else-Returned x panic y others a b = absurd (a.0 refl)

  try_cookie-Returned :
      (fuel : ℕ) (o : Option (List ℕ)) (rest : ClientAct p (Unit {0}))
      → Returns fuel rest
      → Returns fuel (try_cookie p fuel o rest)
  try_cookie-Returned fuel none rest ends x h = ends x h
  try_cookie-Returned fuel (some cookie) rest ends x h = elim (Bool-cases (length cookie == 0)) [
    | inl blank ↦ rw (blank) (ends x h)
    | inr full ↦
        let cmd : List ℕ = codes "AUTHENTICATE " ++ hex_encode cookie in
        let a = command-Returns fuel cmd x h in
        let y = (command p fuel cmd x).1 in
        rw (full)
          (or_else-Returned x (command p fuel cmd x).0 y rest a (ends y (omega (arith, a.1))))
  ]

  try_cookies-Returns :
      (fuel : ℕ) (paths : List (List ℕ)) (others : ClientAct p (Unit {0}))
      → Returns fuel others
      → Returns fuel (try_cookies p fuel paths others)
  unfolding try_cookies
  try_cookies-Returns fuel [] others ends x h = ends x h
  try_cookies-Returns fuel (path ∷ paths) others ends x h =
      try_cookie-Returned fuel (p.read_file path x.1) (try_cookies p fuel paths others)
        (try_cookies-Returns fuel paths others ends) x h

  try_password-Returns :
      (fuel : ℕ) (password : List ℕ) → Returns fuel (try_password p fuel password)
  try_password-Returns fuel password x h = elim (Bool-cases (length password == 0)) [
    | inl blank ↦ rw (blank) (err-Returned x x _ (omega arith))
    | inr full ↦
        let cmd = codes "AUTHENTICATE \"" ++ (password ++ codes "\"") in
        let a = command-Returns fuel cmd x h in
        let y = (command p fuel cmd x).1 in
        rw (full) (
          or_else-Returned x (command p fuel cmd x).0 y (λ z. (err Error.authentication_failed, z))
            a (err-Returned y y _ (omega arith)))
  ]

  attempts-Returns :
      (fuel : ℕ) (password cookie_path : List ℕ)
      → Returns fuel (attempts p fuel password cookie_path)
  attempts-Returns fuel password cookie_path x h =
      let cmd : List ℕ = codes "AUTHENTICATE \"\"" in
      let a = command-Returns fuel cmd x h in
      let y = (command p fuel cmd x).1 in
      or_else-Returned x (command p fuel cmd x).0 y
        (λ z. try_cookies p fuel (cookie_paths p cookie_path z.1) (try_password p fuel password) z)
        a
        (try_cookies-Returns fuel (cookie_paths p cookie_path y.1) (try_password p fuel password)
          (try_password-Returns fuel password) y (omega (arith, a.1)))

  if_connected-Returned :
      (fuel : ℕ) (o : Option (ControlPort.Socket p)) (f : ClientAct p (Unit {0}))
      → Returns fuel f
      → Returns fuel (if_connected p o f)
  if_connected-Returned fuel none f ends x h = err-Returned x x _ (omega arith)
  if_connected-Returned fuel (some s) f ends x h = ends x h

  -- Whatever a control port writes, if it writes finitely many lines, `Authenticate` returns after
  -- its attempts, a nil connection being an error: fuel above the number of those lines is enough.
  pub authenticate-Returns :
      (fuel : ℕ) (password cookie_path : List ℕ)
      → Returns fuel (authenticate p fuel password cookie_path)
  unfolding authenticate
  authenticate-Returns fuel password cookie_path x h =
      if_connected-Returned fuel x.0.conn (attempts p fuel password cookie_path)
        (attempts-Returns fuel password cookie_path) x h

  -- What follows a command without another call of the control port.
  then-Returned :
      {A : Type 0} (x : ClientState) (r : Result (List (List ℕ))) (y : ClientState)
      (f : List (List ℕ) → Result A)
      → Returned x (r, y)
      → ((lines : List (List ℕ)) → f lines ≢ panic)
      → Returned x (continue (r, y) (λ lines z. (f lines, z)))
  then-Returned x (ok lines) y f a safe = (safe lines, a.1)
  then-Returned x (err e) y f a safe = err-Returned x y e a.1
  then-Returned x panic y f a safe = absurd (a.0 refl)

  service_of-ne-panic :
      (virt_port : ℕ) (target_addr : List ℕ) (lines : List (List ℕ))
      → service_of virt_port target_addr lines ≢ panic
  unfolding service_of
  service_of-ne-panic virt_port target_addr lines e = ground arith

  -- So do `CreateEphemeralOnion` and `DestroyEphemeralOnion`.
  pub create_ephemeral_onion-Returns :
      (fuel virt_port : ℕ) (target_addr key_blob : List ℕ)
      → Returns fuel (create_ephemeral_onion p fuel virt_port target_addr key_blob)
  unfolding create_ephemeral_onion
  create_ephemeral_onion-Returns fuel virt_port target_addr key_blob x h =
      then-Returned x _ _ (service_of virt_port target_addr) (command-Returns fuel _ x h)
        (service_of-ne-panic virt_port target_addr)

  pub destroy_ephemeral_onion-Returns :
      (fuel : ℕ) (service_id : List ℕ) → Returns fuel (destroy_ephemeral_onion p fuel service_id)
  unfolding destroy_ephemeral_onion
  destroy_ephemeral_onion-Returns fuel service_id x h =
      then-Returned x _ _ (λ lines. ok tt) (command-Returns fuel _ x h) (λ lines e. cc e)
