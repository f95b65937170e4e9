-- ===== src/Identity.antt =====
-- pkg/identity: the long-term identity of a device, and what is known of a peer. The modules below
-- cover the formatted fingerprint and pairing.go.
pub mod Format
pub mod Hex
pub mod Laws
pub mod Pairing
pub mod Toy
mod Tests
use pelagos.Base.{
  ℕ, List, [], ◌∷◌, ◌++◌, Bool, Result, Error, ok, err, length, ◌==◌, if◌then◌else◌, not, replicate,
  overwrite,
}
use pelagos.Base.State.{Act, ◌>>=◌, pure, continue}
use pelagos.Crypto.Library.{GoCrypto}
use pelagos.Crypto.Random.{generate_ed25519_key_pair, sign_message}
use pelagos.Crypto.Random

pub record Identity : Type 0 where
  pub private_key : List ℕ
  pub public_key : List ℕ

pub record PeerIdentity : Type 0 where
  pub public_key : List ℕ
  pub alias : List ℕ

-- `NewPeerIdentity`: the key is copied into a new array.
unfoldable pub new_peer_identity : List ℕ → List ℕ → Result PeerIdentity
new_peer_identity pub_bytes alias =
    if length pub_bytes == 32
    then ok (record { public_key = overwrite (replicate 32 0) pub_bytes; alias = alias })
    else err Error.peer_key_size

module _ (c : GoCrypto) where
  unfoldable pub generate_identity : Act (GoCrypto.Rng c) Identity
  generate_identity = do
    (pub_key, priv) ← generate_ed25519_key_pair c
    pure (record { private_key = priv; public_key = pub_key })

  abbrev pub fingerprint : Identity → List ℕ
  fingerprint id = c.sha256 id.public_key

  abbrev pub peer_fingerprint : PeerIdentity → List ℕ
  peer_fingerprint p = c.sha256 p.public_key

  unfoldable pub sign : Identity → List ℕ → Result (List ℕ)
  sign id message = sign_message c id.private_key message

  unfoldable pub verify_signature : PeerIdentity → List ℕ → List ℕ → Bool
  verify_signature p message signature = Random.verify_signature c p.public_key message signature
