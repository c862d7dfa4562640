-- ===== src/Collector.antt =====
-- crates/vectorseam-collector: frames come in over connections, are buffered for each cohort, and go
-- out as segments to an object store.
pub mod Memory
pub mod Counters
pub mod Reader
pub mod Writer
pub mod Config
pub mod Time
mod Tests
