-- ===== src/Seam/Population/Hashes.antt =====
-- The survivors of the deduplication have the hashes of the samples.
use vectorseam.Base.{ℕ, Bool, false, ◌||◌, List, [], ◌∷◌, ◌==◌, Bytes}
use vectorseam.Seam.Population.{MeasuredSample, PopulationSample}

module _ {Latency Sweeps : Type 0} where
  abbrev pub survives : ℕ → List (PopulationSample Latency Sweeps) → Bool
  survives hash [] = false
  survives hash (s ∷ survivors) = (s.vector_hash == hash) || survives hash survivors

  abbrev pub was_sampled : ℕ → List (Bytes × MeasuredSample Latency Sweeps) → Bool
  was_sampled hash [] = false
  was_sampled hash ((part_ulid, sample) ∷ samples) =
      (sample.vector_hash == hash) || was_sampled hash samples
