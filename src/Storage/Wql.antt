-- ===== src/Storage/Wql.antt =====
-- askar-storage/src/wql: the wallet query language.
pub mod Template
pub mod Sql
pub mod Ops
pub mod Query
pub mod Json
pub mod Tags
