-- ===== src/Client.antt =====
-- The command line: internal/argsflag.
pub mod ArgsFlag
mod Tests
