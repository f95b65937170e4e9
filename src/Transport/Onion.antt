-- ===== src/Transport/Onion.antt =====
-- pkg/transport/onion.go: the transport over Tor. Its mutex is held for the whole of each method but
-- for the waiting in `Accept`. A connection is the stream below its framing.
pub mod Lifecycle
mod Tests
use pelagos.Base.{
  ℕ, ◌==◌, List, [], ◌∷◌, ◌++◌, Bool, true, false, Option, none, some, Result, Error, ok, err,
  panic, length, if◌then◌else◌, or_fail, guard, not, ◌&&◌,
}
use pelagos.Base.State.{Act, ◌>>=◌, ◌>>◌, pure, lift, continue}
use pelagos.Base.Text.{codes}
use pelagos.Transport.TorControl.{
  ControlPort, OnionServiceInfo, TorControlClient, new_tor_control_client, connect, authenticate,
  create_ephemeral_onion, destroy_ephemeral_onion, close_client,
}

-- The calls into `net` and `golang.org/x/net/proxy`, beside those of the control port.
pub record OnionNet : Type 1 where
  pub port : ControlPort
  pub Listener : Type 0
  pub Stream : Type 0
  pub Dialer : Type 0
  pub socks5 : List ℕ → Option Dialer
  pub dial_through :
      Dialer → List ℕ → ControlPort.World port → Option Stream × ControlPort.World port
  pub listen : List ℕ → ControlPort.World port → Option Listener × ControlPort.World port
  pub accept : Listener → ControlPort.World port → Option Stream × ControlPort.World port
  pub close_listener : Listener → ControlPort.World port → Bool × ControlPort.World port
  pub addr_of : Listener → List ℕ

module _ (n : OnionNet) where
  open n use {
    port, Listener, Stream, Dialer, socks5, dial_through, listen, accept, close_listener, addr_of,
  }

  abbrev pub World : Type 0
  World = ControlPort.World port

  pub record OnionListener : Type 0 where
    pub listener : Listener
    pub control_client : TorControlClient port
    pub service_info : OnionServiceInfo

  pub record OnionTransport : Type 0 where
    pub socks_proxy_addr : List ℕ
    pub listener : Option Listener
    pub active_onion : Option OnionListener
    pub dialer : Dialer

  abbrev or_default : List ℕ → List ℕ → List ℕ
  or_default given default = if length given == 0 then default else given

  unfoldable pub new_onion_transport : List ℕ → Result OnionTransport
  new_onion_transport socks_addr =
      let addr : List ℕ = or_default socks_addr (codes "127.0.0.1:9050") in
      let made : Option Dialer = socks5 addr in
      elim made [
        | none ↦ err Error.socks_failure
        | some dialer ↦ ok (record {
          socks_proxy_addr = addr;
          listener = none;
          active_onion = none;
          dialer = dialer;
        })
      ]

  abbrev pub onion_address : OnionListener → List ℕ
  onion_address ol =
      let info = ol.service_info in
      info.onion_address ++ (codes ":" ++ port.decimal info.virtual_port)

  -- The end of `OnionListener.Close`, with the errors that there were before.
  abbrev close_socket : OnionListener → Bool → World → Result (Unit {0}) × World
  close_socket ol fine w = (
    guard ((close_listener ol.listener w).0 && fine) Error.close_failure,
    (close_listener ol.listener w).1,
  )

  abbrev after_destroy :
      OnionListener
      → Result (Unit {0}) × (TorControlClient port × World)
      → Result (Unit {0}) × World
  after_destroy ol (ok _, x) = close_socket ol true (close_client port x).1.1
  after_destroy ol (err e, x) = close_socket ol false (close_client port x).1.1
  after_destroy ol (panic, x) = (panic, x.1)

  unfoldable pub close_onion : ℕ → OnionListener → World → Result (Unit {0}) × World
  close_onion fuel ol w =
      after_destroy ol
        (destroy_ephemeral_onion port fuel ol.service_info.service_id (ol.control_client, w))

  abbrev pub TransportAct : Type 0 → Type 0
  TransportAct A = Act (OnionTransport × World) A

  abbrev get_transport : TransportAct OnionTransport
  get_transport (ot, w) = (ok ot, (ot, w))

  abbrev on_world : {A : Type 0} → (World → A × World) → TransportAct A
  on_world f (ot, w) = (ok (f w).0, (ot, (f w).1))

  unfoldable pub dial_onion : List ℕ → TransportAct Stream
  dial_onion address = do
    ot ← get_transport
    dialled ← on_world (dial_through ot.dialer address)
    lift (or_fail dialled Error.dial_failure)

  unfoldable pub listen_onion : List ℕ → TransportAct (Unit {0})
  listen_onion address = do
    opened ← on_world (listen address)
    l ← lift (or_fail opened Error.listen_failure)
    λ x. (ok tt, (record x.0 { listener = some l }, x.1))

  -- The steps of `ProvisionEphemeralOnion` behind the opening of the listener `l`, last one first; a
  -- step that fails closes what is open.
  module _ (fuel : ℕ) (l : Listener) where
    abbrev pub after_create :
        Result OnionServiceInfo × (TorControlClient port × World) → Result OnionListener × World
    after_create (ok info, (t, w)) =
        (ok (record { listener = l; control_client = t; service_info = info }), w)
    after_create (err e, x) = (err e, (close_listener l (close_client port x).1.1).1)
    after_create (panic, x) = (panic, x.1)

    abbrev pub after_authenticate :
        ℕ → Result (Unit {0}) × (TorControlClient port × World) → Result OnionListener × World
    after_authenticate virt_port (ok _, x) =
        after_create (create_ephemeral_onion port fuel virt_port (addr_of l) [] x)
    after_authenticate virt_port (err e, x) =
        (err e, (close_listener l (close_client port x).1.1).1)
    after_authenticate virt_port (panic, x) = (panic, x.1)

    abbrev pub after_connect :
        List ℕ
        → List ℕ
        → ℕ
        → Result (Unit {0}) × (TorControlClient port × World)
        → Result OnionListener × World
    after_connect password cookie_path virt_port (ok _, x) =
        after_authenticate virt_port (authenticate port fuel password cookie_path x)
    after_connect password cookie_path virt_port (err e, (t, w)) = (err e, (close_listener l w).1)
    after_connect password cookie_path virt_port (panic, x) = (panic, x.1)

  -- What the transport keeps of it.
  abbrev pub keep_onion :
      OnionTransport
      → Result OnionListener × World
      → Result OnionListener × (OnionTransport × World)
  keep_onion ot (ok ol, w) =
      (ok ol, (record ot { active_onion = some ol; listener = some ol.listener }, w))
  keep_onion ot (err e, w) = (err e, (ot, w))
  keep_onion ot (panic, w) = (panic, (ot, w))

  abbrev pub provision_on :
      ℕ → List ℕ → List ℕ → List ℕ → ℕ → Option Listener → TransportAct OnionListener
  provision_on fuel control_addr password cookie_path virt_port none x =
      (err Error.listen_failure, x)
  provision_on fuel control_addr password cookie_path virt_port (some l) (ot, w) = keep_onion ot (
      after_connect fuel l password cookie_path virt_port
        (connect port (new_tor_control_client port control_addr, w)))

  -- A port is a natural number here: a negative one is taken for 0.
  unfoldable pub provision_ephemeral_onion :
      ℕ → List ℕ → List ℕ → List ℕ → ℕ → List ℕ → TransportAct OnionListener
  provision_ephemeral_onion fuel control_addr password cookie_path virt_port local_target_addr = do
    opened ← on_world (listen (or_default local_target_addr (codes "127.0.0.1:0")))
    provision_on fuel (or_default control_addr (codes "127.0.0.1:9051")) password cookie_path
        (if virt_port == 0 then 9090 else virt_port) opened

  unfoldable pub accept_onion : TransportAct Stream
  accept_onion = do
    ot ← get_transport
    l ← lift (or_fail ot.listener Error.not_listening)
    accepted ← on_world (accept l)
    lift (or_fail accepted Error.accept_failure)

  abbrev pub close_plain : Option Listener → TransportAct (Unit {0})
  close_plain none x = (ok tt, x)
  close_plain (some l) (ot, w) = (
    guard (close_listener l w).0 Error.close_failure,
    (record ot { listener = none }, (close_listener l w).1),
  )

  abbrev pub close_active : ℕ → Option OnionListener → TransportAct (Unit {0})
  close_active fuel none (ot, w) = close_plain ot.listener (ot, w)
  close_active fuel (some ol) (ot, w) = (
    (close_onion fuel ol w).0,
    (record ot { active_onion = none; listener = none }, (close_onion fuel ol w).1),
  )

  unfoldable pub close_transport : ℕ → TransportAct (Unit {0})
  close_transport fuel (ot, w) = close_active fuel ot.active_onion (ot, w)

  abbrev pub plain_addr : Option Listener → List ℕ
  plain_addr none = []
  plain_addr (some l) = addr_of l

  abbrev pub active_addr : Option OnionListener → Option Listener → List ℕ
  active_addr none l = plain_addr l
  active_addr (some ol) l = onion_address ol

  unfoldable pub transport_addr : OnionTransport → List ℕ
  transport_addr ot = active_addr ot.active_onion ot.listener

  -- The start of the relay in cmd/palagos-server/main.go: a service that cannot be provisioned is
  -- replaced by a plain listener.
  abbrev pub or_listen :
      List ℕ
      → Result OnionListener × (OnionTransport × World)
      → Result (Unit {0}) × (OnionTransport × World)
  or_listen addr (ok ol, x) = (ok tt, x)
  or_listen addr (err e, x) = listen_onion addr x
  or_listen addr (panic, x) = (panic, x)

  unfoldable pub open_relay : ℕ → List ℕ → List ℕ → List ℕ → List ℕ → TransportAct (Unit {0})
  open_relay fuel control_addr password cookie_path addr x =
      or_listen addr (provision_ephemeral_onion fuel control_addr password cookie_path 9090 addr x)
