-- ===== src/Scheduler.antt =====
-- The package internal/scheduler: the periodic updates of the feeds.
pub mod Policy
pub mod FeedRun
pub mod Systems
pub mod Ticker
mod Tests
