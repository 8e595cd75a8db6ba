-- ===== src/Load.antt =====
-- stress/load: the load generator.
pub mod Stats
pub mod Mix
pub mod Payload
pub mod Driver
pub mod Cli
