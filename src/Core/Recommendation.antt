-- ===== src/Core/Recommendation.antt =====
-- crates/vectorseam-core/src/recommendation.rs: the limits of an ef.
use vectorseam.Base.{ℕ}

abbrev pub min_ef_search : ℕ
min_ef_search = 1

abbrev pub max_ef_search : ℕ
max_ef_search = 1000
