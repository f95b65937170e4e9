-- ===== src/Client.antt =====
-- pkg/client/manager.go: the profiles, contacts, sessions and messages of one user. A method runs on
-- the manager together with the world of its connections and the random source. The sessions are
-- shared through pointers: what a method does to a session is written back under the peer's
-- fingerprint.
pub mod Runs
pub mod Profiles
pub mod Contacts
mod Tests
use pelagos.Base.{
  ℕ, ◌==◌, List, [], ◌∷◌, ◌++◌, map, Bool, true, false, not, ◌&&◌, Option, none, some, Result,
  Error, ok, err, panic, length, if◌then◌else◌, or_fail, guard,
}
use pelagos.Base.Maps.{Map, lookup, insert, delete, bytes_equal}
use pelagos.Base.State.{Act, ◌>>=◌, ◌>>◌, pure, lift, continue}
use pelagos.Base.Text.{codes}
use pelagos.Crypto.Library.{GoCrypto}
use pelagos.Identity.{
  Identity, PeerIdentity, new_peer_identity, peer_fingerprint, generate_identity,
}
use pelagos.Identity.Format.{hex_encode, format_fingerprint}
use pelagos.Packet.{Packet, marshal}
use pelagos.Session.{Session, present, new_session, encrypt_message}

-- The surroundings: the onion transport and its connections, the clock, and `fmt.Sprintf("%d-%d")`.
pub record Network : Type 1 where
  pub Conn : Type 0
  pub World : Type 0
  pub dial : List ℕ → World → Option Conn × World
  pub send_packet : Conn → List ℕ → World → Bool × World
  pub close : Conn → World → World
  pub now : World → ℕ × World
  pub dashed : ℕ → ℕ → List ℕ

abbrev pub mode_relay : List ℕ
mode_relay = codes "relay"

abbrev pub mode_direct_p2p : List ℕ
mode_direct_p2p = codes "direct_p2p"

pub record Contact : Type 0 where
  pub fingerprint : List ℕ
  pub formatted_fp : List ℕ
  pub public_key_hex : List ℕ
  pub custom_alias : List ℕ
  pub onion_address : List ℕ
  pub peer_identity : PeerIdentity
  pub created_at : ℕ

pub record Message : Type 0 where
  pub id : List ℕ
  pub sender_fp : List ℕ
  pub sender_is_me : Bool
  pub content : List ℕ
  pub sequence : ℕ
  pub timestamp : ℕ

-- `TorSocksAddr` and `OnionTransport` are only used through the dialling of `Network`.
pub record Manager (c : GoCrypto) (n : Network) : Type 0 where
  pub identities : Map Identity
  pub active_profile : List ℕ
  pub contacts : Map Contact
  pub sessions : Map (Session c)
  pub messages : Map (List Message)
  pub active_conns : Map (Network.Conn n)
  pub relay_addr : List ℕ
  pub mode : List ℕ
  pub on_message : Option (List ℕ → Message → Network.World n → Network.World n)

-- `m.Messages[fp]`.
abbrev pub thread : Option (List Message) → List Message
thread none = []
thread (some ms) = ms

module _ (c : GoCrypto) (n : Network) where
  open n use {Conn, World, dial, send_packet, close, now, dashed}

  abbrev pub ManagerState : Type 0
  ManagerState = Manager c n × (World × GoCrypto.Rng c)

  abbrev pub ManagerAct : Type 0 → Type 0
  ManagerAct A = Act ManagerState A

  abbrev pub get_manager : ManagerAct (Manager c n)
  get_manager (m, x) = (ok m, (m, x))

  abbrev pub set_manager : Manager c n → ManagerAct (Unit {0})
  set_manager m (_, x) = (ok tt, (m, x))

  abbrev pub on_rng : {A : Type 0} → Act (GoCrypto.Rng c) A → ManagerAct A
  on_rng f (m, (w, g)) = ((f g).0, (m, (w, (f g).1)))

  abbrev pub on_world : {A : Type 0} → (World → A × World) → ManagerAct A
  on_world f (m, (w, g)) = (ok (f w).0, (m, ((f w).1, g)))

  -- A value found in a map, or else what a call yields.
  abbrev pub found_or : {A : Type 0} → ManagerAct A → Option A → ManagerAct A
  found_or make none x = make x
  found_or make (some a) x = (ok a, x)

  -- The manager that `NewManager` makes around its first identity.
  abbrev pub initial : Identity → Manager c n
  initial id = record {
    identities = (codes "Default", id) ∷ [];
    active_profile = codes "Default";
    contacts = [];
    sessions = [];
    messages = [];
    active_conns = [];
    relay_addr = [];
    mode = mode_relay;
    on_message = none;
  }

  -- `NewManager`, behind the onion transport.
  unfoldable pub new_manager : Act (GoCrypto.Rng c) (Manager c n)
  new_manager = do id ← generate_identity c; pure (initial id)

  unfoldable pub set_connection_mode : List ℕ → List ℕ → ManagerAct (Unit {0})
  set_connection_mode mode relay_addr (m, x) =
      (ok tt, (record m { mode = mode; relay_addr = relay_addr }, x))

  unfoldable pub set_on_message_callback :
      Option (List ℕ → Message → World → World) → ManagerAct (Unit {0})
  set_on_message_callback callback (m, x) = (ok tt, (record m { on_message = callback }, x))

  unfoldable pub add_identity_profile : List ℕ → Identity → ManagerAct (Unit {0})
  add_identity_profile name id (m, x) =
      (ok tt, (record m { identities = insert name id m.identities }, x))

  unfoldable pub switch_profile : List ℕ → ManagerAct (Unit {0})
  switch_profile name = do
    m ← get_manager
    id ← lift (or_fail (lookup name m.identities) Error.no_profile)
    set_manager (record m { active_profile = name })

  unfoldable pub get_active_identity : Manager c n → Option Identity
  get_active_identity m = lookup m.active_profile m.identities

  -- The contact that `SaveContact` makes.
  abbrev pub contact_of : List ℕ → PeerIdentity → List ℕ → List ℕ → ℕ → Contact
  contact_of pub_key peer custom_alias onion_addr t = record {
    fingerprint = c.sha256 pub_key;
    formatted_fp = format_fingerprint (peer_fingerprint c peer);
    public_key_hex = hex_encode pub_key;
    custom_alias = custom_alias;
    onion_address = onion_addr;
    peer_identity = peer;
    created_at = t;
  }

  unfoldable pub save_contact : List ℕ → List ℕ → List ℕ → ManagerAct Contact
  save_contact pub_key custom_alias onion_addr = do
    lift (guard (length pub_key == 32) Error.contact_key_size)
    peer ← lift (new_peer_identity pub_key custom_alias)
    t ← on_world now
    let contact = contact_of pub_key peer custom_alias onion_addr t
    m ← get_manager
    set_manager (record m { contacts = insert contact.fingerprint contact m.contacts })
    pure contact

  unfoldable pub get_contact_by_fp : List ℕ → Manager c n → Option Contact
  get_contact_by_fp fp m = lookup fp m.contacts

  unfoldable pub list_contacts : Manager c n → List Contact
  list_contacts m = map (λ entry. entry.1) m.contacts

  -- Behind the look-up of the session. An active profile without an identity, which no manager has, is
  -- a panic here.
  unfoldable pub create_session : List ℕ → ManagerAct (Session c)
  create_session fp = do
    m ← get_manager
    contact ← lift (or_fail (lookup fp m.contacts) Error.no_contact)
    local_id ← lift (present (lookup m.active_profile m.identities))
    let s = new_session c local_id (some contact.peer_identity)
    set_manager (record m { sessions = insert fp s m.sessions })
    pure s

  unfoldable pub get_or_create_session : List ℕ → ManagerAct (Session c)
  get_or_create_session fp (m, x) = found_or (create_session fp) (lookup fp m.sessions) (m, x)

  -- A method of the session that is kept under a fingerprint.
  abbrev pub on_session :
      {A : Type 0} → List ℕ → Session c → Act (Session c × GoCrypto.Rng c) A → ManagerAct A
  on_session fp s f (m, (w, g)) = (
    (f (s, g)).0,
    (record m { sessions = insert fp (f (s, g)).1.0 m.sessions }, (w, (f (s, g)).1.1)),
  )

  -- The address to dial, if there is one.
  unfoldable pub dial_address : List ℕ → Manager c n → Option (List ℕ)
  dial_address fp m =
      let target : List ℕ = elim (lookup fp m.contacts) [ none ↦ [] | some k ↦ k.onion_address ] in
      if bytes_equal m.mode mode_relay && not (length m.relay_addr == 0)
      then some m.relay_addr
      else if not (length target == 0)
      then some target
      else none

  unfoldable pub dial_peer : List ℕ → ManagerAct Conn
  dial_peer fp = do
    m ← get_manager
    addr ← lift (or_fail (dial_address fp m) Error.no_address)
    dialled ← on_world (dial addr)
    conn ← lift (or_fail dialled Error.dial_failure)
    m ← get_manager
    set_manager (record m { active_conns = insert fp conn m.active_conns })
    pure conn

  unfoldable pub connection : List ℕ → ManagerAct Conn
  connection fp (m, x) = found_or (dial_peer fp) (lookup fp m.active_conns) (m, x)

  abbrev pub announce :
      Option (List ℕ → Message → World → World) → List ℕ → Message → World → Unit {0} × World
  announce none fp msg w = (tt, w)
  announce (some callback) fp msg w = (tt, callback fp msg w)

  unfoldable pub add_message : List ℕ → List ℕ → Bool → ℕ → ManagerAct Message
  add_message fp content is_me seq = do
    t ← on_world now
    t' ← on_world now
    let msg : Message = record {
      id = dashed t seq;
      sender_fp = hex_encode fp;
      sender_is_me = is_me;
      content = content;
      sequence = seq;
      timestamp = t';
    }
    m ← get_manager
    set_manager
        (record m { messages = insert fp (thread (lookup fp m.messages) ++ (msg ∷ [])) m.messages })
    on_world (announce m.on_message fp msg)
    pure msg

  -- A connection on which sending failed is dropped and closed.
  abbrev pub drop_conn : List ℕ → Conn → ManagerAct Message
  drop_conn fp conn (m, (w, g)) = (
    err Error.send_failure,
    (record m { active_conns = delete fp m.active_conns }, (close conn w, g)),
  )

  unfoldable pub send_text_message : List ℕ → List ℕ → ManagerAct Message
  send_text_message fp text = do
    s ← get_or_create_session fp
    data_pkt ← on_session fp s (encrypt_message c text)
    raw ← lift (marshal data_pkt)
    conn ← connection fp
    sent ← on_world (send_packet conn raw)
    if sent then add_message fp text true data_pkt.sequence else drop_conn fp conn

  unfoldable pub get_messages : List ℕ → Manager c n → List Message
  get_messages fp m = thread (lookup fp m.messages)
