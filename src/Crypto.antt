-- ===== src/Crypto.antt =====
-- pkg/crypto: what it takes from the Go libraries, and its wrappers around them.
pub mod Library
pub mod Random
pub mod Keys
pub mod Laws
pub mod Toy
