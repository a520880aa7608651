-- ===== src/Update.antt =====
-- The packages internal/update and internal/update/common: the update of one feed.
pub mod Config
pub mod Run
mod Tests
