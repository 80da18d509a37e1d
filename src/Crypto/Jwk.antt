-- ===== src/Crypto/Jwk.antt =====
-- JSON web keys: askar-crypto/src/jwk.
pub mod Ops
