-- ===== src/Bridge.antt =====
-- pkg/bridge/cgo.go: the functions exported to C, over one global manager, which is absent before the
-- first Palagos_InitManager. The C strings are lists of codes, the JSON texts are values, and
-- Palagos_FreeString, which hands a string back to C's allocator, is left out.
pub mod Agreement
mod Tests
use pelagos.Base.{
  ℕ, ◌==◌, List, [], Option, none, some, Result, Error, ok, err, panic, length, if◌then◌else◌,
  or_fail, guard, overwrite, replicate,
}
use pelagos.Base.State.{Act, ◌>>=◌, ◌>>◌, pure, lift, continue}
use pelagos.Client.{
  Network, Manager, Contact, Message, ManagerAct, ManagerState, new_manager, set_connection_mode,
  save_contact, send_text_message, on_rng,
}
use pelagos.Crypto.Library.{GoCrypto}
use pelagos.Identity.{Identity, PeerIdentity, fingerprint, peer_fingerprint, generate_identity}
use pelagos.Identity.Format.{hex_encode, format_fingerprint}
use pelagos.Identity.Hex.{hex_decode}
use pelagos.Identity.Pairing.{
  marshal_payload, unmarshal_payload, create_pairing_payload, open_pairing_payload,
}
use pelagos.Web.{Offer, Paired, active_identity}

-- The texts that report a failure.
pub data Problem : Type 0 where
  uninitialised : Problem
  bad_public_key_hex : Problem
  bad_payload_hex : Problem
  bad_fingerprint_hex : Problem
  failed : Error → Problem

-- The result of Palagos_GenerateIdentity.
pub record KeyTexts : Type 0 where
  pub public_key_hex : List ℕ
  pub private_key_hex : List ℕ
  pub fingerprint : List ℕ

-- What a function returns; `fine` is the text OK.
pub data Returned : Type 0 where
  complaint : Problem → Returned
  fine : Returned
  keys : KeyTexts → Returned
  contact : Contact → Returned
  offer : Offer → Returned
  paired : Paired → Returned
  message : Message → Returned

-- A call whose error is returned as a text.
abbrev pub or_complain :
    {S A : Type 0} → (Error → Problem) → Result A × S → (A → Act S Returned) → Result Returned × S
or_complain wording (ok a, x) next = next a x
or_complain wording (err e, x) next = (ok (complaint (wording e)), x)
or_complain wording (panic, x) next = (panic, x)

abbrev pub calling :
    {S A : Type 0} → (Error → Problem) → Act S A → (A → Act S Returned) → Act S Returned
calling wording m next x = or_complain wording (m x) next

abbrev pub returning : {S : Type 0} → Returned → Act S Returned
returning = pure

module _ (c : GoCrypto) (n : Network) where
  abbrev pub BridgeState : Type 0
  BridgeState = Option (Manager c n) × (Network.World n × GoCrypto.Rng c)

  abbrev pub BridgeAct : Type 0
  BridgeAct = Act BridgeState Returned

  abbrev pub kept : Result Returned × ManagerState c n → Result Returned × BridgeState
  kept (r, (m, x)) = (r, (some m, x))

  -- What needs the manager.
  abbrev pub with_manager : ManagerAct c n Returned → BridgeAct
  with_manager f (none, x) = (ok (complaint Problem.uninitialised), (none, x))
  with_manager f (some m, x) = kept (f (m, x))

  abbrev installed :
      Option (Manager c n)
      → Network.World n
      → Result (Manager c n) × GoCrypto.Rng c
      → Result Returned × BridgeState
  installed old w (ok m, g) = (ok Returned.fine, (some m, (w, g)))
  installed old w (err e, g) = (ok (complaint (failed e)), (old, (w, g)))
  installed old w (panic, g) = (panic, (old, (w, g)))

  -- The argument is the outcome of NewOnionTransport. A manager that is there already is replaced.
  unfoldable pub palagos_init_manager : Result (Unit {0}) → BridgeAct
  palagos_init_manager transport (old, (w, g)) =
      installed old w ((lift transport >> new_manager c n) g)

  unfoldable pub palagos_set_mode : List ℕ → List ℕ → BridgeAct
  palagos_set_mode mode relay_addr =
      with_manager (set_connection_mode c n mode relay_addr >> returning Returned.fine)

  -- The new identity is only shown, and kept in no profile.
  abbrev key_texts : Identity → KeyTexts
  key_texts id = record {
    public_key_hex = hex_encode id.public_key;
    private_key_hex = hex_encode id.private_key;
    fingerprint = format_fingerprint (fingerprint c id);
  }

  unfoldable pub palagos_generate_identity : BridgeAct
  palagos_generate_identity (m, (w, g)) =
      let (r, g') =
        calling failed (generate_identity c) (λ id. returning (keys (key_texts id))) g in
      (r, (m, (w, g')))

  unfoldable pub palagos_save_contact : List ℕ → List ℕ → List ℕ → BridgeAct
  palagos_save_contact pub_key_hex custom_alias onion_addr = with_manager (
      calling (λ _. bad_public_key_hex)
        (lift (or_fail (hex_decode pub_key_hex) Error.contact_key_size))
        (λ pub_bytes.
          calling failed (save_contact c n pub_bytes custom_alias onion_addr)
            (λ saved. returning (contact saved))))

  unfoldable pub palagos_pair_create : List ℕ → List ℕ → BridgeAct
  palagos_pair_create pin alias = with_manager (
      active_identity c n >>= λ active_id.
      calling failed (on_rng c n (create_pairing_payload c active_id alias pin)) (λ payload.
        returning (
          offer (record {
            payload_hex = hex_encode (marshal_payload payload);
            fingerprint = format_fingerprint (fingerprint c active_id);
          }))))

  -- The contact is saved without an address.
  unfoldable pub save_peer : PeerIdentity × List ℕ → ManagerAct c n Returned
  save_peer (peer_id, sas_code) =
      calling failed (save_contact c n peer_id.public_key peer_id.alias []) (λ saved. returning (
        paired (record {
          sas_code = sas_code;
          contact = saved;
          peer_alias = peer_id.alias;
          fingerprint = format_fingerprint (peer_fingerprint c peer_id);
        })))

  unfoldable pub palagos_pair_open : List ℕ → List ℕ → BridgeAct
  palagos_pair_open pin payload_hex = with_manager (
      calling (λ _. bad_payload_hex)
        (lift (or_fail (hex_decode payload_hex) Error.short_pairing_data))
        (λ raw_bytes. calling failed (lift (unmarshal_payload raw_bytes)) (λ payload.
          active_identity c n >>= λ active_id.
          calling failed (lift (open_pairing_payload c (some payload) active_id pin)) save_peer)))

  -- The fingerprint in hexadecimal, which must be of 32 bytes.
  unfoldable pub peer_of_hex : List ℕ → Result (List ℕ)
  peer_of_hex fp_hex = elim (hex_decode fp_hex) [
    | none ↦ err Error.contact_key_size
    | some bytes ↦
        if length bytes == 32
        then ok (overwrite (replicate 32 0) bytes)
        else err Error.contact_key_size
  ]

  unfoldable pub palagos_send_message : List ℕ → List ℕ → BridgeAct
  palagos_send_message fp_hex text = with_manager (
      calling (λ _. bad_fingerprint_hex) (lift (peer_of_hex fp_hex))
        (λ peer_fp.
          calling failed (send_text_message c n peer_fp text) (λ msg. returning (message msg))))
