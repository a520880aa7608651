-- ===== src/Public.antt =====
-- The public API: internal/public/endpoints and internal/db/dbwrappers, with the queries of
-- db/queries that list entities by page.
pub mod Results
pub mod Pages
pub mod Reference
pub mod Stops
pub mod Alerts
pub mod Tests
