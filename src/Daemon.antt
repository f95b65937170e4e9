-- ===== src/Daemon.antt =====
-- pkg/daemon/daemon.go: the local RPC service. A handler runs on the client manager; the decoding of a
-- body from JSON is its argument, with `none` for a body that is refused.
pub mod Access
mod Tests
use pelagos.Base.{
  ℕ, ◌==◌, List, [], Bool, true, false, not, ◌&&◌, Option, none, some, Result, Error, ok, err,
  panic, length, if◌then◌else◌, or_fail, take, drop,
}
use pelagos.Base.Maps.{bytes_equal}
use pelagos.Base.State.{Act, ◌>>=◌, ◌>>◌, pure, lift, continue}
use pelagos.Base.Text.{codes}
use pelagos.Client.{
  Network, Manager, Contact, ManagerAct, get_manager, get_active_identity, list_contacts,
  set_connection_mode,
}
use pelagos.Crypto.Library.{GoCrypto}
use pelagos.Crypto.Random.{secure_random}
use pelagos.Http.{
  Reply, answered, refused, answer, refuse, is_method, status_bad_request, status_unauthorized,
  status_forbidden, status_method_not_allowed,
}
use pelagos.Identity.{Identity, fingerprint}
use pelagos.Identity.Format.{hex_encode, format_fingerprint}
use pelagos.Session.{present}
use pelagos.Transport.TorControl.{has_prefix}

-- What a handler reads of a request; a header that is missing reads as the empty text.
pub record Request : Type 0 where
  pub method : List ℕ
  pub origin : List ℕ
  pub authorization : List ℕ

pub record ModeRequest : Type 0 where
  pub mode : List ℕ
  pub relay_addr : List ℕ

pub record Status : Type 0 where
  pub mode : List ℕ
  pub relay_addr : List ℕ
  pub fingerprint : List ℕ

unfoldable pub bearer : List ℕ
bearer = codes "Bearer "

-- `authMiddleware` around the handler `next`.
unfoldable pub auth_middleware :
    {S A : Type 0} → List ℕ → (Request → Act S (Reply A)) → Request → Act S (Reply A)
auth_middleware auth_token next r =
    if not (length r.origin == 0) && not (bytes_equal r.origin (codes "null"))
    then refuse status_forbidden
    else if not (has_prefix r.authorization bearer)
    then refuse status_unauthorized
    else if bytes_equal (drop (length bearer) r.authorization) auth_token
    then next r
    else refuse status_unauthorized

module _ (c : GoCrypto) where
  -- The token of `NewDaemon`.
  unfoldable pub new_auth_token : Act (GoCrypto.Rng c) (List ℕ)
  new_auth_token = do token_bytes ← secure_random c 32; pure (hex_encode token_bytes)

module _ (c : GoCrypto) (n : Network) where
  -- A manager whose active profile has no identity makes the handler panic.
  unfoldable pub handle_status : Request → ManagerAct c n (Reply Status)
  handle_status r = do
    m ← get_manager c n
    active_id ← lift (present (get_active_identity c n m))
    answer (record {
      mode = m.mode;
      relay_addr = m.relay_addr;
      fingerprint = format_fingerprint (fingerprint c active_id);
    })

  unfoldable pub handle_contacts : Request → ManagerAct c n (Reply (List Contact))
  handle_contacts r = do m ← get_manager c n; answer (list_contacts c n m)

  abbrev pub set_mode : Option ModeRequest → ManagerAct c n (Reply (List ℕ))
  set_mode none = refuse status_bad_request
  set_mode (some req) = do set_connection_mode c n req.mode req.relay_addr; answer req.mode

  unfoldable pub handle_mode : Option ModeRequest → Request → ManagerAct c n (Reply (List ℕ))
  handle_mode body r =
      if is_method r.method (codes "POST") then set_mode body else refuse status_method_not_allowed

  -- The routes that `Start` registers.
  unfoldable pub rpc_status : List ℕ → Request → ManagerAct c n (Reply Status)
  rpc_status token = auth_middleware token handle_status

  unfoldable pub rpc_contacts : List ℕ → Request → ManagerAct c n (Reply (List Contact))
  rpc_contacts token = auth_middleware token handle_contacts

  unfoldable pub rpc_mode : List ℕ → Option ModeRequest → Request → ManagerAct c n (Reply (List ℕ))
  rpc_mode token body = auth_middleware token (handle_mode body)
