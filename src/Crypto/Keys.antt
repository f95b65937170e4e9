-- ===== src/Crypto/Keys.antt =====
-- hkdf.go and aead.go of pkg/crypto. A `Zeroize` of a local buffer that nothing reads again has no
-- counterpart: the values of the model cannot be overwritten.
use pelagos.Base.{
  ℕ, List, [], Result, Error, ok, err, length, ◌==◌, if◌then◌else◌, ◌>>=◌, ◌>>◌, guard, or_fail,
  slice, not, overwrite, replicate,
}
use pelagos.Base.Text.{codes}
use pelagos.Crypto.Library.{GoCrypto}

unfoldable pub domain_root_key : List ℕ
domain_root_key = codes "palagos-v1-root-ratchet"

unfoldable pub domain_chain_key : List ℕ
domain_chain_key = codes "palagos-v1-chain-step"

unfoldable pub domain_message_key : List ℕ
domain_message_key = codes "palagos-v1-message-key"

-- The nonce sizes of XChaCha20-Poly1305 and ChaCha20-Poly1305, and the key size of both.
abbrev pub nonce_size_x : ℕ
nonce_size_x = 24

abbrev pub nonce_size : ℕ
nonce_size = 12

abbrev pub key_size : ℕ
key_size = 32

module _ (c : GoCrypto) where
  open c use {Aead, hkdf_read, new_x, new_aead, seal, open_sealed}

  unfoldable pub hkdf_extract_expand : List ℕ → List ℕ → List ℕ → ℕ → Result (List ℕ)
  hkdf_extract_expand secret salt info size = do
    guard (not (length secret == 0)) Error.hkdf_empty_secret
    or_fail (hkdf_read secret salt info size) Error.hkdf_expand

  -- The next chain key, and the message key. A nil salt is the empty one.
  unfoldable pub derive_ratcheted_keys : List ℕ → Result (List ℕ × List ℕ)
  derive_ratcheted_keys chain_key = do
    guard (length chain_key == 32) Error.hkdf_chain_key_size
    next ← hkdf_extract_expand chain_key [] domain_chain_key 32
    mk ← hkdf_extract_expand chain_key [] domain_message_key 32
    ok (next, mk)

  -- The next root key, and the new chain key: the two halves of 64 bytes.
  unfoldable pub derive_root_step : List ℕ → List ℕ → Result (List ℕ × List ℕ)
  derive_root_step root_key dh_secret = do
    derived ← hkdf_extract_expand dh_secret root_key domain_root_key 64
    ok (
      overwrite (replicate 32 0) (slice 0 32 derived),
      overwrite (replicate 32 0) (slice 32 64 derived),
    )

  unfoldable pub create_aead : List ℕ → ℕ → Result Aead
  create_aead key nonce_len =
      if nonce_len == nonce_size_x
      then or_fail (new_x key) Error.aead_key_size
      else if nonce_len == nonce_size
      then or_fail (new_aead key) Error.aead_key_size
      else err Error.aead_nonce_size

  unfoldable pub encrypt_aead : List ℕ → List ℕ → List ℕ → List ℕ → Result (List ℕ)
  encrypt_aead key nonce plaintext additional = do
    guard (length key == key_size) Error.aead_key_size
    aead ← create_aead key (length nonce)
    ok (seal aead nonce plaintext additional)

  unfoldable pub decrypt_aead : List ℕ → List ℕ → List ℕ → List ℕ → Result (List ℕ)
  decrypt_aead key nonce ciphertext additional = do
    guard (length key == key_size) Error.aead_key_size
    aead ← create_aead key (length nonce)
    or_fail (open_sealed aead nonce ciphertext additional) Error.aead_open
