-- ===== src/Transport/Onion/Lifecycle.antt =====
-- The life of a hidden service in onion.go: provisioning is all or nothing, and closing ends it.
use pelagos.Base.{
  ℕ, ◌<◌, ◌≤◌, ◌==◌, ◌≡◌, ◌≢◌, refl, ap, sym, List, [], Option, none, some, Result, Error, ok, err,
  panic, length, Option-cases, inl, inr, ◌⊎◌, arith, if◌then◌else◌,
}
use pelagos.Base.State.{continue}
use pelagos.Base.Text.{codes}
use pelagos.Transport.TorControl.{
  TorControlClient, OnionServiceInfo, new_tor_control_client, connect, authenticate,
  create_ephemeral_onion, service_of,
}
use pelagos.Transport.TorControl.Replies.{
  FinitePort, Returned, authenticate-Returns, create_ephemeral_onion-Returns,
}
use pelagos.Transport.TorControl.Service.{service_of-ok}
use pelagos.Transport.Onion.{
  OnionNet, World, OnionListener, OnionTransport, after_create, after_authenticate, after_connect,
  keep_onion, provision_on, provision_ephemeral_onion, accept_onion, close_transport, close_active,
  transport_addr,
}

-- Dialling and listening write nothing on the control port.
pub record Quiet (n : OnionNet) (F : FinitePort n.port) : Type 0 where
  pub dial_keeps : (addr : List ℕ) (w : World n) → F.pending (n.port.dial addr w).1 ≤ F.pending w
  pub listen_keeps : (addr : List ℕ) (w : World n) → F.pending (n.listen addr w).1 ≤ F.pending w

lifted-ok :
    {S A B : Type 0} (r : Result A × S) (f : A → Result B) (b : B)
    → (continue r (λ a s. (f a, s))).0 ≡ ok b
    → (a : A) × (f a ≡ ok b)
lifted-ok (ok a, s) f b h = (a, h)
lifted-ok (err e, s) f b h = cc h
lifted-ok (panic, s) f b h = cc h

module _ (n : OnionNet) (F : FinitePort n.port) (q : Quiet n F) where
  -- What is known of a service that was provisioned.
  abbrev pub IsService : OnionListener n → Type 0
  IsService ol =
      (0 < length ol.service_info.service_id)
      × (ol.service_info.target_addr ≡ n.addr_of ol.listener)

  -- A step behind the opening of `l`: an error has closed it.
  abbrev Step : OnionNet.Listener n → Result (OnionListener n) × World n → Type 0
  Step l (ok ol, w) = (ol.listener ≡ l) × IsService ol
  Step l (err e, w) = (w' : World n) × (w ≡ (n.close_listener l w').1)
  Step l (panic, w) = ⊥

  abbrev ClientState : Type 0
  ClientState = TorControlClient n.port × World n

  create-IsService :
      (fuel virt_port : ℕ) (target key : List ℕ) (x : ClientState) (info : OnionServiceInfo)
      → (create_ephemeral_onion n.port fuel virt_port target key x).0 ≡ ok info
      → (0 < length info.service_id) × (info.target_addr ≡ target)
  unfolding create_ephemeral_onion
  create-IsService fuel virt_port target key x info h =
      let (lines, e) = lifted-ok _ (service_of virt_port target) info h in
      let (name, _, leads) = service_of-ok virt_port target lines info e in (name, leads)

  after_create-Step :
      (fuel : ℕ) (l : OnionNet.Listener n) (r : Result OnionServiceInfo) (x : ClientState)
      → r ≢ panic
      → ((info : OnionServiceInfo)
          → r ≡ ok info
          → (0 < length info.service_id) × (info.target_addr ≡ n.addr_of l))
      → Step l (after_create n fuel l (r, x))
  after_create-Step fuel l (ok info) (t, w) safe facts = (refl, facts info refl)
  after_create-Step fuel l (err e) x safe facts = (_, refl)
  after_create-Step fuel l panic x safe facts = absurd (safe refl)

  after_authenticate-Step :
      (fuel : ℕ) (l : OnionNet.Listener n) (virt_port : ℕ) (r : Result (Unit {0})) (x : ClientState)
      → r ≢ panic
      → F.pending x.1 < fuel
      → Step l (after_authenticate n fuel l virt_port (r, x))
  after_authenticate-Step fuel l virt_port (ok _) x safe h =
      let created = create_ephemeral_onion-Returns n.port F fuel virt_port (n.addr_of l) [] x h in
      let r = create_ephemeral_onion n.port fuel virt_port (n.addr_of l) [] x in
      after_create-Step fuel l r.0 r.1 created.0
        (create-IsService fuel virt_port (n.addr_of l) [] x)
  after_authenticate-Step fuel l virt_port (err e) x safe h = (_, refl)
  after_authenticate-Step fuel l virt_port panic x safe h = absurd (safe refl)

  after_connect-Step :
      (fuel : ℕ) (l : OnionNet.Listener n) (password cookie_path : List ℕ) (virt_port : ℕ)
      (r : Result (Unit {0})) (x : ClientState)
      → r ≢ panic
      → F.pending x.1 < fuel
      → Step l (after_connect n fuel l password cookie_path virt_port (r, x))
  after_connect-Step fuel l password cookie_path virt_port (ok _) x safe h =
      let a = authenticate-Returns n.port F fuel password cookie_path x h in
      let r = authenticate n.port fuel password cookie_path x in
      after_authenticate-Step fuel l virt_port r.0 r.1 a.0 (omega (arith, a.1))
  after_connect-Step fuel l password cookie_path virt_port (err e) (t, w) safe h = (_, refl)
  after_connect-Step fuel l password cookie_path virt_port panic x safe h = absurd (safe refl)

  connect-Returned : (x : ClientState) → Returned n.port F x (connect n.port x)
  unfolding connect
  connect-Returned (t, w) = elim (Option-cases (n.port.dial t.control_addr w).0) [
    | inl e ↦ rw (e) (λ f. cc f, q.dial_keeps t.control_addr w)
    | inr (s, e) ↦ rw (e) (λ f. cc f, q.dial_keeps t.control_addr w)
  ]

  -- The outcome for the transport, where `opened` is what listening opened.
  abbrev pub Provisioned :
      Option (OnionNet.Listener n)
      → OnionTransport n
      → Result (OnionListener n) × (OnionTransport n × World n)
      → Type 0
  Provisioned opened ot (ok ol, (ot', w)) =
      (opened ≡ some ol.listener)
      × (ot' ≡ record ot { active_onion = some ol; listener = some ol.listener })
      × IsService ol
  Provisioned opened ot (err e, (ot', w)) =
      (ot' ≡ ot)
      × (((opened ≡ none) × (e ≡ Error.listen_failure))
          ⊎ ((l : OnionNet.Listener n) × (w' : World n) × (opened ≡ some l)
              × (w ≡ (n.close_listener l w').1)))
  Provisioned opened ot (panic, x) = ⊥

  keep_onion-Provisioned :
      (ot : OnionTransport n) (l : OnionNet.Listener n) (r : Result (OnionListener n)) (w : World n)
      → Step l (r, w)
      → Provisioned (some l) ot (keep_onion n ot (r, w))
  keep_onion-Provisioned ot l (ok ol) w (e, k) = (ap some (sym e), refl, k)
  keep_onion-Provisioned ot l (err e) w (w', k) = (refl, inr (l, w', refl, k))
  keep_onion-Provisioned ot l panic w h = absurd h

  provision_on-Provisioned :
      (fuel : ℕ) (control_addr password cookie_path : List ℕ) (virt_port : ℕ)
      (o : Option (OnionNet.Listener n)) (ot : OnionTransport n) (w : World n)
      → F.pending w < fuel
      → Provisioned o ot (provision_on n fuel control_addr password cookie_path virt_port o (ot, w))
  provision_on-Provisioned fuel control_addr password cookie_path virt_port none ot w h =
      (refl, inl (refl, refl))
  provision_on-Provisioned fuel control_addr password cookie_path virt_port (some l) ot w h =
      let x : ClientState = (new_tor_control_client n.port control_addr, w) in
      let a = connect-Returned x in
      let r = connect n.port x in
      keep_onion-Provisioned ot l _ _
        (after_connect-Step fuel l password cookie_path virt_port r.0 r.1 a.0 (omega (arith, a.1)))

  -- Where the local listener is opened.
  abbrev pub local_target : List ℕ → List ℕ
  local_target target = if length target == 0 then codes "127.0.0.1:0" else target

  -- Provisioning a hidden service is all or nothing, with enough fuel for the lines of the control
  -- port. It returns; on success the transport holds the new service, which has a name, stands on
  -- the listener that was opened on the way and leads to the address of that listener; on an error
  -- the transport is as it was, and either no listener could be opened, or the one that was opened
  -- has been closed as the last thing.
  pub provision-all_or_nothing :
      (fuel : ℕ) (control_addr password cookie_path : List ℕ) (virt_port : ℕ) (target : List ℕ)
      (ot : OnionTransport n) (w : World n)
      → F.pending w < fuel
      → Provisioned (n.listen (local_target target) w).0 ot (
          provision_ephemeral_onion n fuel control_addr password cookie_path virt_port target
            (ot, w))
  unfolding provision_ephemeral_onion
  provision-all_or_nothing fuel control_addr password cookie_path virt_port target ot w h =
      provision_on-Provisioned fuel _ password cookie_path _ _ ot _
        (omega (arith, q.listen_keeps (local_target target) w))

module _ (n : OnionNet) where
  -- A transport with nothing open.
  abbrev pub shut : OnionTransport n → OnionTransport n
  shut ot = record ot { active_onion = none; listener = none }

  close_active-shut :
      (fuel : ℕ) (addr : List ℕ) (l : Option (OnionNet.Listener n)) (o : Option (OnionListener n))
      (d : OnionNet.Dialer n) (w : World n)
      → let ot : OnionTransport n = record {
        socks_proxy_addr = addr;
        listener = l;
        active_onion = o;
        dialer = d;
      } in
        (close_active n fuel o (ot, w)).1.0 ≡ shut ot
  close_active-shut fuel addr none none d w = refl
  close_active-shut fuel addr (some l) none d w = refl
  close_active-shut fuel addr l (some ol) d w = refl

  shut_lem :
      (again : ℕ) (t : OnionTransport n) (w : World n)
      → t.listener ≡ none
      → t.active_onion ≡ none
      → (accept_onion n (t, w) ≡ (err Error.not_listening, (t, w)))
        × (transport_addr n t ≡ [])
        × (close_transport n again (t, w) ≡ (ok tt, (t, w)))
  unfolding close_transport accept_onion transport_addr
  shut_lem again t w h k = (simp h, simp (k, h), simp (k, h))

  -- `Close` leaves nothing open, whatever was open and whatever fails in it: the transport has neither
  -- a service nor a listener, `Accept` refuses, there is no address, and another `Close` does
  -- nothing and reports no error.
  close_transport-shuts :
      (fuel again : ℕ) (ot : OnionTransport n) (w : World n)
      → let y = (close_transport n fuel (ot, w)).1 in
        (y.0 ≡ shut ot)
        × (accept_onion n y ≡ (err Error.not_listening, y))
        × (transport_addr n y.0 ≡ [])
        × (close_transport n again y ≡ (ok tt, y))
  unfolding close_transport accept_onion transport_addr
  close_transport-shuts fuel again ot w =
      let e : (close_transport n fuel (ot, w)).1.0 ≡ shut ot =
        close_active-shut fuel ot.socks_proxy_addr ot.listener ot.active_onion ot.dialer w in
      let (a, b, d) =
        shut_lem again (close_transport n fuel (ot, w)).1.0 (close_transport n fuel (ot, w)).1.1
          (ap (λ (t : OnionTransport n). t.listener) e)
          (ap (λ (t : OnionTransport n). t.active_onion) e) in
      (e, a, b, d)
