-- ===== src/Graph.antt =====
-- The package internal/graph: graphs of labelled nodes, their traversal and their sorting.
pub mod Types
pub mod Sort
mod Tests
use transiter.Base.{nat_keys, string_keys}
