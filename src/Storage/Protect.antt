-- ===== src/Storage/Protect.antt =====
-- Storage encryption: askar-storage/src/protect.
pub mod ProfileKey
pub mod Kdf
pub mod StoreKey
