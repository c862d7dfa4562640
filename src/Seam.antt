-- ===== src/Seam.antt =====
-- crates/seam: the tuner that reads the collector's segments, round by round.
pub mod Floats
pub mod Hash
pub mod Math
pub mod Accounting
pub mod Model
pub mod Measure
pub mod Config
pub mod Aggregate
pub mod Pipeline
pub mod Daemon
pub mod Population
pub mod Samples
mod Tests
