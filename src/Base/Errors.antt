-- ===== src/Base/Errors.antt =====
-- What a Go call hands back: a value, an error, or no return at all.
use mathlib.Core.Path.{◌≡◌, refl}
use mathlib.Core.Bool.{Bool, true, false}
use mathlib.Core.Option.{Option, none, some}
use mathlib.Core.Logic.{◌⊎◌, inl, inr}

-- The errors of the modelled packages. A message that wraps another error (`%w`) is the error that it
-- wraps.
pub data Error : Type 0 where
  -- pkg/crypto
  entropy_failure nonpositive_count : Error
  ecdh_generate ecdh_nil ecdh_scalar : Error
  hkdf_empty_secret hkdf_expand hkdf_chain_key_size : Error
  aead_key_size aead_nonce_size aead_open : Error
  signing_key_size : Error
  ratchet_secret_size ratchet_no_remote ratchet_no_local ratchet_cannot_send : Error
  ratchet_short_ciphertext ratchet_bad_public_key : Error
  -- pkg/protocol
  payload_limit short_buffer unsupported_version length_mismatch : Error
  replayed : Error
  wrong_type no_peer bad_packet_signature short_payload bad_key_signature bad_remote_key : Error
  unestablished : Error
  -- pkg/identity
  peer_key_size nil_payload short_pin wrong_pin : Error
  short_pairing_payload short_pairing_data pairing_hkdf : Error
  -- pkg/transport
  frame_limit write_failure read_failure : Error
  not_connected socket_closed control_dial control_write control_read command_refused : Error
  authentication_failed missing_service_id : Error
  socks_failure listen_failure not_listening accept_failure close_failure : Error
  -- pkg/server
  bad_challenge send_failure no_client_identity bad_auth_response : Error
  impersonation server_unauthenticated delivery_failed client_gone : Error
  -- cmd/palagos
  bad_private_key_hex bad_peer_key_hex : Error
  -- pkg/client
  no_profile contact_key_size no_contact no_address dial_failure : Error

-- `panic` stands for a run-time panic, such as a slice out of range.
pub data Result {ℓ} (A : Type ℓ) : Type ℓ where
  ok : A → Result A
  err : Error → Result A
  panic : Result A

-- `if !c { return e }`.
abbrev pub guard : Bool → Error → Result (Unit {0})
guard false problem = err problem
guard true problem = ok tt

infixl 5 ◌>>=◌ ◌>>◌
abbrev pub ◌>>=◌ {ℓ κ} : {X : Type ℓ} {Y : Type κ} → Result X → (X → Result Y) → Result Y
panic >>= next = panic
err problem >>= next = err problem
ok x >>= next = next x

abbrev pub ◌>>◌ {ℓ} : {Y : Type ℓ} → Result (Unit {0}) → Result Y → Result Y
first >> next = first >>= λ _. next

-- An outcome of a library call, with the error that the caller makes of its failure.
abbrev pub or_fail {ℓ} : {A : Type ℓ} → Option A → Error → Result A
or_fail none e = err e
or_fail (some a) e = ok a

pub Result-cases {ℓ} :
    {A : Type ℓ} (r : Result A)
    → ((a : A) × (r ≡ ok a)) ⊎ (((e : Error) × (r ≡ err e)) ⊎ (r ≡ panic))
Result-cases (ok a) = inl (a, refl)
Result-cases (err e) = inr (inl (e, refl))
Result-cases panic = inr (inr refl)
