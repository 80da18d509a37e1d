-- ===== src/Crypto.antt =====
-- The askar-crypto crate: key wrapping, buffers, key operations.
pub mod Error
pub mod Bits
pub mod KeyWrap
pub mod Writer
pub mod Kdf
pub mod Jwk
pub mod CbcHmac
pub mod Alg
