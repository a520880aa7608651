-- ===== src/Database.antt =====
-- The database's wrappers that several packages share: internal/db.
pub mod Wrappers
