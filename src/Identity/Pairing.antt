-- ===== src/Identity/Pairing.antt =====
-- pkg/identity/pairing.go: the encrypted identity payload under a PIN, and the short authentication
-- string. A PIN and an alias are the bytes of their strings.
pub mod Codec
pub mod Sas
pub mod Agreement
use Prim.Native.Nat.{bit_or}
use pelagos.Base.{
  ℕ, ◌+◌, ◌*◌, ◌/◌, ◌%◌, ◌^◌, List, [], ◌∷◌, ◌++◌, Bool, true, false, Option, none, some, Result,
  Error, ok, err, panic, length, ◌==◌, ltb, if◌then◌else◌, ◌>>=◌, ◌>>◌, guard, or_fail, not, take,
  drop, slice, replicate, overwrite,
}
use pelagos.Base.State as State
use pelagos.Base.State.{Act, pure, lift, continue}
use pelagos.Base.Text.{codes}
use pelagos.Crypto.Library.{GoCrypto}
use pelagos.Crypto.Random.{secure_random}
use pelagos.Crypto.Keys.{encrypt_aead, decrypt_aead}
use pelagos.Identity.{Identity, PeerIdentity, new_peer_identity}

unfoldable pub pairing_domain_info : List ℕ
pairing_domain_info = codes "palagos-v1-pin-pairing"

unfoldable pub sas_domain_info : List ℕ
sas_domain_info = codes "palagos-v1-sas-code"

pub record PairingPayload : Type 0 where
  pub salt : List ℕ
  pub nonce : List ℕ
  pub ciphertext : List ℕ

-- `bytes.Compare(a, b) < 0`.
unfoldable pub bytes_less : List ℕ → List ℕ → Bool
bytes_less [] [] = false
bytes_less [] (y ∷ ys) = true
bytes_less (x ∷ xs) [] = false
bytes_less (x ∷ xs) (y ∷ ys) =
    let rest = bytes_less xs ys in if ltb x y then true else if x == y then rest else false

-- The four bytes of the digest as a uint32.
unfoldable pub digest_value : List ℕ → ℕ
digest_value (a ∷ b ∷ d ∷ e ∷ []) =
    bit_or (bit_or (bit_or (a * 2 ^ 24 % 2 ^ 32) (b * 2 ^ 16 % 2 ^ 32)) (d * 2 ^ 8 % 2 ^ 32)) e
digest_value _ = 0

abbrev decimal : ℕ → ℕ → ℕ
decimal k v = v / 10 ^ k % 10 + b'0'

-- `%06d` of a number below a million.
unfoldable pub six_digits : ℕ → List ℕ
six_digits v =
    decimal 5 v ∷ decimal 4 v ∷ decimal 3 v ∷ decimal 2 v ∷ decimal 1 v ∷ decimal 0 v ∷ []

-- `Marshal` of a payload.
unfoldable pub marshal_payload : PairingPayload → List ℕ
marshal_payload p = p.salt ++ (p.nonce ++ p.ciphertext)

unfoldable pub unmarshal_payload : List ℕ → Result PairingPayload
unmarshal_payload bytes =
    if ltb (length bytes) 28
    then err Error.short_pairing_data
    else ok (record {
      salt = overwrite (replicate 16 0) (slice 0 16 bytes);
      nonce = overwrite (replicate 12 0) (slice 16 28 bytes);
      ciphertext = overwrite (replicate (length (drop 28 bytes)) 0) (drop 28 bytes);
    })

-- A failed decryption is reported as a wrong PIN.
abbrev pub as_wrong_pin {ℓ} : {A : Type ℓ} → Result A → Result A
as_wrong_pin (ok a) = ok a
as_wrong_pin (err e) = err Error.wrong_pin
as_wrong_pin panic = panic

-- The public keys in the order of `bytes.Compare`.
unfoldable pub ordered_keys : List ℕ → List ℕ → List ℕ
ordered_keys local peer = if bytes_less local peer then local ++ peer else peer ++ local

module _ (c : GoCrypto) where
  unfoldable pub derive_pairing_key : List ℕ → List ℕ → Result (List ℕ)
  derive_pairing_key pin salt =
      or_fail (c.hkdf_read pin salt pairing_domain_info 32) Error.pairing_hkdf

  -- Three digits, a dash and three digits.
  unfoldable pub generate_sas : List ℕ → List ℕ → List ℕ → List ℕ → Result (List ℕ)
  generate_sas key local peer salt = do
    digest ←
        or_fail (c.hkdf_read (key ++ ordered_keys local peer) salt sas_domain_info 4)
          Error.pairing_hkdf
    let shown = six_digits (digest_value digest % 1000000)
    ok (take 3 shown ++ (b'-' ∷ drop 3 shown))

  -- The method `GenerateSAS` of a payload that the local user made.
  unfoldable pub payload_sas : PairingPayload → Identity → List ℕ → List ℕ → Result (List ℕ)
  payload_sas p local_id peer_pub pin = do
    key ← derive_pairing_key pin p.salt
    generate_sas key local_id.public_key peer_pub p.salt

  seal_payload : Identity → List ℕ → List ℕ → List ℕ → List ℕ → Result PairingPayload
  seal_payload local_id alias pin salt nonce = do
    key ← derive_pairing_key pin salt
    sealed ← encrypt_aead c key nonce (local_id.public_key ++ alias) salt
    ok (record {
      salt = overwrite (replicate 16 0) salt;
      nonce = overwrite (replicate 12 0) nonce;
      ciphertext = sealed;
    })

  unfoldable pub create_pairing_payload :
      Identity → List ℕ → List ℕ → Act (GoCrypto.Rng c) PairingPayload
  unfolding seal_payload
  create_pairing_payload local_id alias pin =
      if ltb (length pin) 4
      then lift (err Error.short_pin)
      else State.◌>>=◌ (secure_random c 16) (λ salt.
        State.◌>>=◌ (secure_random c 12)
          (λ nonce. lift (seal_payload local_id alias pin salt nonce)))

  unfoldable pub open_pairing_payload :
      Option PairingPayload → Identity → List ℕ → Result (PeerIdentity × List ℕ)
  open_pairing_payload none local_id pin = err Error.nil_payload
  open_pairing_payload (some p) local_id pin = do
    key ← derive_pairing_key pin p.salt
    plaintext ← as_wrong_pin (decrypt_aead c key p.nonce p.ciphertext p.salt)
    guard (not (ltb (length plaintext) 32)) Error.short_pairing_payload
    peer_id ← new_peer_identity (take 32 plaintext) (drop 32 plaintext)
    sas ← generate_sas key local_id.public_key (take 32 plaintext) p.salt
    ok (peer_id, sas)
