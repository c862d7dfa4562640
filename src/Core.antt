-- ===== src/Core.antt =====
-- crates/vectorseam-core: the formats that all components share.
pub mod Endian
pub mod Binary
pub mod Utf8
pub mod Frame
pub mod Cohort
pub mod Segment
pub mod Window
pub mod Tests
pub mod Recommendation
