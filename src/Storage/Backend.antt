-- ===== src/Storage/Backend.antt =====
-- What the database backends share: askar-storage/src/backend/db_utils.rs, less its sessions.
pub mod Placeholders
pub mod Filter
pub mod Params
pub mod TagText
pub mod Scan
