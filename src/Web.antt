-- ===== src/Web.antt =====
-- pkg/client/web.go: the API of the local web interface, over the client manager. The decoding of a
-- body from JSON is an argument of a handler, with `none` for a body that is refused; for a method
-- that is neither GET nor POST a handler answers with an empty body. A manager whose active profile
-- has no identity, which the manager never is, makes a handler panic where the identity is fetched.
-- The page itself is not modelled.
pub mod Pairing
pub mod Messages
mod Tests
use pelagos.Base.{
  ℕ, ◌==◌, List, [], ◌∷◌, Bool, true, false, not, Option, none, some, Result, Error, ok, err, panic,
  length, map, if◌then◌else◌, or_fail, overwrite, replicate,
}
use pelagos.Base.Maps.{Map, bytes_equal}
use pelagos.Base.State.{Act, ◌>>=◌, ◌>>◌, pure, lift, continue}
use pelagos.Base.Text.{codes}
use pelagos.Client.{
  Network, Manager, Contact, Message, ManagerAct, ManagerState, get_manager, get_active_identity,
  list_contacts, add_identity_profile, switch_profile, save_contact, get_contact_by_fp,
  get_messages, add_message, on_rng,
}
use pelagos.Crypto.Library.{GoCrypto}
use pelagos.Http.{
  Reply, answered, refused, answer, refuse, attempt, is_method, status_bad_request,
  status_internal_server_error,
}
use pelagos.Identity.{Identity, PeerIdentity, fingerprint, peer_fingerprint, generate_identity}
use pelagos.Identity.Format.{hex_encode, format_fingerprint}
use pelagos.Identity.Hex.{hex_decode}
use pelagos.Identity.Pairing.{
  PairingPayload, marshal_payload, unmarshal_payload, create_pairing_payload, open_pairing_payload,
}
use pelagos.Session.{present}

pub record ProfileRequest : Type 0 where
  pub action : List ℕ
  pub profile_name : List ℕ

pub record ContactRequest : Type 0 where
  pub public_key_hex : List ℕ
  pub custom_alias : List ℕ
  pub onion_address : List ℕ

pub record MessageRequest : Type 0 where
  pub peer_fp : List ℕ
  pub content : List ℕ

pub record OfferRequest : Type 0 where
  pub pin : List ℕ
  pub alias : List ℕ

pub record OpenRequest : Type 0 where
  pub pin : List ℕ
  pub payload_hex : List ℕ

pub record Profile : Type 0 where
  pub active_profile : List ℕ
  pub public_key_hex : List ℕ
  pub private_key_hex : List ℕ
  pub fingerprint : List ℕ
  pub profiles : List (List ℕ)

pub record Offer : Type 0 where
  pub payload_hex : List ℕ
  pub fingerprint : List ℕ

pub record Paired : Type 0 where
  pub sas_code : List ℕ
  pub contact : Contact
  pub peer_alias : List ℕ
  pub fingerprint : List ℕ

-- The bodies of the replies.
pub data Body : Type 0 where
  profile : Profile → Body
  contact : Contact → Body
  contacts : List Contact → Body
  message : Message → Body
  messages : List Message → Body
  offer : Offer → Body
  paired : Paired → Body
  done : Body
  blank : Body

abbrev pub get_method : List ℕ
get_method = codes "GET"

abbrev pub post_method : List ℕ
post_method = codes "POST"

module _ (c : GoCrypto) (n : Network) where
  abbrev pub WebAct : Type 0
  WebAct = ManagerAct c n (Reply Body)

  -- The active identity, whose fields are read through a pointer that may be nil.
  unfoldable pub active_identity : ManagerAct c n Identity
  active_identity = do m ← get_manager c n; lift (present (get_active_identity c n m))

  -- `getProfileNames`; the order of the names is not specified.
  unfoldable pub get_profile_names : Manager c n → List (List ℕ)
  get_profile_names m = map (λ entry. entry.0) m.identities

  unfoldable pub show_identity : WebAct
  show_identity = do
    m ← get_manager c n
    active_id ← active_identity
    answer (
        Body.profile (record {
          active_profile = m.active_profile;
          public_key_hex = hex_encode active_id.public_key;
          private_key_hex = hex_encode active_id.private_key;
          fingerprint = format_fingerprint (fingerprint c active_id);
          profiles = get_profile_names m;
        }))

  -- The error of a switch to the new profile is dropped.
  abbrev ignored : ManagerAct c n (Unit {0}) → ManagerAct c n (Unit {0})
  ignored f x = (ok tt, (f x).1)

  unfoldable pub change_profile : ProfileRequest → WebAct
  change_profile req =
      if bytes_equal req.action (codes "create")
      then attempt status_internal_server_error (on_rng c n (generate_identity c)) (λ new_id.
        add_identity_profile c n req.profile_name new_id
        >> (ignored (switch_profile c n req.profile_name) >> answer Body.done))
      else if bytes_equal req.action (codes "switch")
      then attempt status_bad_request (switch_profile c n req.profile_name) (λ _. answer Body.done)
      else answer Body.done

  abbrev with_body : {R : Type 0} → Option R → (R → WebAct) → WebAct
  with_body none next = refuse status_bad_request
  with_body (some req) next = next req

  abbrev by_method : List ℕ → WebAct → WebAct → WebAct
  by_method method get post =
      if is_method method get_method
      then get
      else if is_method method post_method
      then post
      else answer Body.blank

  unfoldable pub handle_identity : List ℕ → Option ProfileRequest → WebAct
  handle_identity method body = by_method method show_identity (with_body body change_profile)

  unfoldable pub add_contact : ContactRequest → WebAct
  add_contact req =
      attempt status_bad_request
        (lift (or_fail (hex_decode req.public_key_hex) Error.contact_key_size))
        (λ pub_bytes.
          attempt status_bad_request (save_contact c n pub_bytes req.custom_alias req.onion_address)
            (λ saved. answer (Body.contact saved)))

  unfoldable pub handle_contacts : List ℕ → Option ContactRequest → WebAct
  handle_contacts method body =
      by_method method (get_manager c n >>= λ m. answer (Body.contacts (list_contacts c n m)))
        (with_body body add_contact)

  -- A fingerprint that is known, or one that a public key in its place has, or else what was given.
  abbrev pub known_as : List ℕ → Manager c n → List ℕ
  known_as arr m = elim (get_contact_by_fp c n arr m) [
    | some k ↦ arr
    | none ↦ elim (get_contact_by_fp c n (c.sha256 arr) m) [ some k ↦ c.sha256 arr | none ↦ arr ]
  ]

  unfoldable pub resolve_fingerprint : List ℕ → Manager c n → Result (List ℕ)
  resolve_fingerprint fp_hex m = elim (hex_decode fp_hex) [
    | none ↦ err Error.contact_key_size
    | some bytes ↦
        if length bytes == 32
        then ok (known_as (overwrite (replicate 32 0) bytes) m)
        else err Error.contact_key_size
  ]

  abbrev resolved : List ℕ → ManagerAct c n (List ℕ)
  resolved fp_hex (m, x) = (resolve_fingerprint fp_hex m, (m, x))

  unfoldable pub show_messages : List ℕ → WebAct
  show_messages fp_hex =
      if length fp_hex == 0
      then refuse status_bad_request
      else attempt status_bad_request (resolved fp_hex)
          (λ peer_fp. get_manager c n >>= λ m. answer (Body.messages (get_messages c n peer_fp m)))

  -- The message is only recorded; nothing is sent.
  unfoldable pub record_message : MessageRequest → WebAct
  record_message req =
      attempt status_bad_request (resolved req.peer_fp)
        (λ peer_fp. add_message c n peer_fp req.content true 0 >>= λ msg. answer (Body.message msg))

  unfoldable pub handle_messages : List ℕ → List ℕ → Option MessageRequest → WebAct
  handle_messages method query body =
      by_method method (show_messages query) (with_body body record_message)

  unfoldable pub make_offer : OfferRequest → WebAct
  make_offer req = do
    active_id ← active_identity
    attempt status_bad_request (on_rng c n (create_pairing_payload c active_id req.alias req.pin))
        (λ payload. answer (
          Body.offer (record {
            payload_hex = hex_encode (marshal_payload payload);
            fingerprint = format_fingerprint (fingerprint c active_id);
          })))

  unfoldable pub handle_pair_create : Option OfferRequest → WebAct
  handle_pair_create body = with_body body make_offer

  -- The contact is saved without an address.
  unfoldable pub keep_peer : PeerIdentity × List ℕ → WebAct
  keep_peer (peer_id, sas_code) =
      attempt status_internal_server_error (save_contact c n peer_id.public_key peer_id.alias [])
        (λ saved. answer (
          Body.paired (record {
            sas_code = sas_code;
            contact = saved;
            peer_alias = peer_id.alias;
            fingerprint = format_fingerprint (peer_fingerprint c peer_id);
          })))

  unfoldable pub open_offer : OpenRequest → WebAct
  open_offer req =
      attempt status_bad_request
        (lift (or_fail (hex_decode req.payload_hex) Error.short_pairing_data))
        (λ raw_bytes. attempt status_bad_request (lift (unmarshal_payload raw_bytes)) (λ payload.
          active_identity >>= λ active_id.
          attempt status_bad_request
            (lift (open_pairing_payload c (some payload) active_id req.pin)) keep_peer))

  unfoldable pub handle_pair_open : Option OpenRequest → WebAct
  handle_pair_open body = with_body body open_offer
