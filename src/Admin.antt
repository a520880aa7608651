-- ===== src/Admin.antt =====
-- The admin API: internal/admin/admin.go.
pub mod Systems
pub mod Feeds
pub mod Tasks
pub mod Statuses
pub mod Tracked
pub mod Left
mod Tests
