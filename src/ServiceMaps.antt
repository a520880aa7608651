-- ===== src/ServiceMaps.antt =====
-- The package internal/servicemaps: which stations a route serves, and in which order.
pub mod Types
pub mod Days
pub mod Included
pub mod Reverse
pub mod TripKey
pub mod BuildMap
pub mod StaticMaps
pub mod RealtimeMaps
pub mod Configs
pub mod Updates
mod Tests
