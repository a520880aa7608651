-- ===== src/Realtime.antt =====
-- The package internal/update/realtime: the update of the database from a GTFS realtime feed.
pub mod Types
pub mod Sequences
pub mod Headsigns
pub mod StopTimes
pub mod Trips
pub mod UpdateTrips
pub mod Alerts
pub mod Vehicles
mod Tests
use transiter.Base.{nat_keys, string_keys}
use transiter.Base.Int.{int_keys}
use transiter.Graph.Types.{edge_keys}
