-- ===== src/Storage.antt =====
-- The askar-storage crate: the wallet query language, entries, sessions and key protection.
pub mod Error
pub mod Wql
pub mod Options
pub mod Protect
pub mod Session
pub mod Entry
pub mod Backend
pub mod Sqlite
