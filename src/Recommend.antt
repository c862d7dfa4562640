-- ===== src/Recommend.antt =====
-- crates/vectorseam-recommendation-server: the HTTP server of the recommendations in force.
pub mod Config
pub mod Lookup
pub mod Handler
pub mod Connections
pub mod Rounds
mod Tests
