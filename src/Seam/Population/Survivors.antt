-- ===== src/Seam/Population/Survivors.antt =====
-- The survivors of the deduplication.
use vectorseam.Base.{
  ℕ, ◌<◌, ◌≡◌, Bool-cases, inl, inr, List, [], ◌∷◌, arith, ltb, ◌==◌, if◌then◌else◌, ltb→lt, Bytes,
}
use vectorseam.Seam.Population.{
  MeasuredSample, PopulationSample, precedes, candidate_of, offer, offer_all, deduplicate_samples,
}

module _ {Latency Sweeps : Type 0} where
  -- Every hash is above the bound.
  abbrev pub Above : ℕ → List (PopulationSample Latency Sweeps) → Type 0
  Above bound [] = Unit
  Above bound (s ∷ survivors) = (bound < s.vector_hash) × Above bound survivors

  -- The hashes ascend, so no two are the same.
  abbrev pub Ascending : List (PopulationSample Latency Sweeps) → Type 0
  Ascending [] = Unit
  Ascending (s ∷ survivors) = Above s.vector_hash survivors × Ascending survivors

  Above-weaken :
      (a b : ℕ) (ss : List (PopulationSample Latency Sweeps)) → a < b → Above b ss → Above a ss
  Above-weaken a b [] h k = tt
  Above-weaken a b (s ∷ ss) h k = (omega (arith, k.0), Above-weaken a b ss h k.1)

  pub kept_hash :
      (c s : PopulationSample Latency Sweeps)
      → c.vector_hash ≡ s.vector_hash
      → (if precedes c s then c else s).vector_hash ≡ s.vector_hash
  kept_hash c s e = elim (Bool-cases (precedes c s)) [ inl p ↦ rw p e | inr p ↦ rw p ]

  Above-offer :
      (bound : ℕ) (c : PopulationSample Latency Sweeps)
      (ss : List (PopulationSample Latency Sweeps))
      → bound < c.vector_hash
      → Above bound ss
      → Above bound (offer c ss)
  unfolding offer
  Above-offer bound c [] h k = (h, tt)
  Above-offer bound c (s ∷ ss) h k = elim (Bool-cases (ltb c.vector_hash s.vector_hash)) [
    | inl p ↦ rw p (h, k)
    | inr p ↦ rw p (elim (Bool-cases (c.vector_hash == s.vector_hash)) [
      | inl q ↦ rw q (omega (arith, k.0, kept_hash c s (ground arith)), k.1)
      | inr q ↦ rw q (k.0, Above-offer bound c ss h k.1)
    ])
  ]

  Ascending-offer :
      (c : PopulationSample Latency Sweeps) (ss : List (PopulationSample Latency Sweeps))
      → Ascending ss
      → Ascending (offer c ss)
  unfolding offer
  Ascending-offer c [] a = (tt, tt)
  Ascending-offer c (s ∷ ss) a = elim (Bool-cases (ltb c.vector_hash s.vector_hash)) [
    | inl p ↦
        rw p ((ltb→lt _ _ p, Above-weaken c.vector_hash s.vector_hash ss (ltb→lt _ _ p) a.0), a)
    | inr p ↦ rw p (elim (Bool-cases (c.vector_hash == s.vector_hash)) [
      | inl q ↦ rw q (rw (kept_hash c s (ground arith)) (a.0, a.1))
      | inr q ↦ rw q (Above-offer s.vector_hash c ss (ground arith) a.0, Ascending-offer c ss a.1)
    ])
  ]

  offer_all-Ascending :
      (ss : List (PopulationSample Latency Sweeps))
      (samples : List (Bytes × MeasuredSample Latency Sweeps))
      → Ascending ss
      → Ascending (offer_all ss samples)
  unfolding offer_all
  offer_all-Ascending ss [] a = a
  offer_all-Ascending ss ((part_ulid, sample) ∷ samples) a =
      offer_all-Ascending (offer (candidate_of part_ulid sample) ss) samples
        (Ascending-offer (candidate_of part_ulid sample) ss a)

-- Whatever samples come in, the survivors are in strictly ascending order of their vectors' hashes, so
-- each hash survives once.
pub deduplicate_samples-Ascending :
    {Latency Sweeps : Type 0} (samples : List (Bytes × MeasuredSample Latency Sweeps))
    → Ascending (deduplicate_samples samples)
unfolding deduplicate_samples
deduplicate_samples-Ascending samples = offer_all-Ascending [] samples tt
