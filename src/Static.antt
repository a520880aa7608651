-- ===== src/Static.antt =====
-- The package internal/update/static: the update of the database from a GTFS static feed.
pub mod TransferId
pub mod Transfers
pub mod ScheduledTrips
pub mod Services
pub mod Rows
pub mod Upsert
mod Tests
