-- ===== src/Seam/Population.antt =====
-- crates/seam/src/population.rs: the samples of a round, one for each distinct vector. The latency and
-- the sweeps are copied and never looked at, so they are of any type; `record_index` is the number of a
-- record in its part, never negative.
pub mod Survivors
pub mod First
pub mod Hashes
pub mod Statistics
use vectorseam.Base.{
  ℕ, Bool, true, false, ◌||◌, ◌&&◌, List, [], ◌∷◌, ltb, ◌==◌, if◌then◌else◌, Bytes, bytes_lt,
  bytes_eq,
}

pub record MeasuredSample (Latency Sweeps : Type 0) : Type 0 where
  pub record_index : ℕ
  pub vector_hash : ℕ
  pub dup_count : ℕ
  pub ground_truth_latency_ms : Latency
  pub sweeps : Sweeps

pub record PopulationSample (Latency Sweeps : Type 0) : Type 0 where
  pub part_ulid : Bytes
  pub record_index : ℕ
  pub vector_hash : ℕ
  pub ground_truth_latency_ms : Latency
  pub sweeps : Sweeps

module _ {Latency Sweeps : Type 0} where
  -- `(candidate.part_ulid, candidate.record_index) < (current.part_ulid, current.record_index)`
  abbrev pub precedes : PopulationSample Latency Sweeps → PopulationSample Latency Sweeps → Bool
  precedes a b =
      bytes_lt a.part_ulid b.part_ulid
      || (bytes_eq a.part_ulid b.part_ulid && ltb a.record_index b.record_index)

  abbrev pub candidate_of : Bytes → MeasuredSample Latency Sweeps → PopulationSample Latency Sweeps
  candidate_of part_ulid sample = record {
    part_ulid = part_ulid;
    record_index = sample.record_index;
    vector_hash = sample.vector_hash;
    ground_truth_latency_ms = sample.ground_truth_latency_ms;
    sweeps = sample.sweeps;
  }

  -- The survivors are the values of a `BTreeMap` by their hash: a list in ascending order of the hash.
  unfoldable pub offer :
      PopulationSample Latency Sweeps
      → List (PopulationSample Latency Sweeps)
      → List (PopulationSample Latency Sweeps)
  offer candidate [] = candidate ∷ []
  offer candidate (current ∷ survivors) =
      let later = offer candidate survivors in
      if ltb candidate.vector_hash current.vector_hash
      then candidate ∷ current ∷ survivors
      else (if candidate.vector_hash == current.vector_hash
          then (if precedes candidate current then candidate else current) ∷ survivors
          else current ∷ later)

  unfoldable pub offer_all :
      List (PopulationSample Latency Sweeps)
      → List (Bytes × MeasuredSample Latency Sweeps)
      → List (PopulationSample Latency Sweeps)
  offer_all survivors [] = survivors
  offer_all survivors ((part_ulid, sample) ∷ samples) =
      offer_all (offer (candidate_of part_ulid sample) survivors) samples

  unfoldable pub deduplicate_samples :
      List (Bytes × MeasuredSample Latency Sweeps) → List (PopulationSample Latency Sweeps)
  deduplicate_samples samples = offer_all [] samples
