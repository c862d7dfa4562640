-- ===== src/Seam/Population/First.antt =====
-- Which sample of a vector survives the deduplication.
use vectorseam.Base.{
  ℕ, ◌≡◌, refl, sym, ◌∙◌, ◌⊎◌, Bool, true, false, ◌||◌, ◌&&◌, Bool-cases, inl, inr, List, [], ◌∷◌,
  arith, ltb, ◌==◌, ==→≡, All, All-imp, Bytes, bytes_lt, bytes_eq, bytes_eq→≡, bytes_eq_refl,
}
use vectorseam.Seam.Population.{
  MeasuredSample, PopulationSample, candidate_of, precedes, offer, offer_all, deduplicate_samples,
}
use vectorseam.Seam.Population.Survivors.{Ascending, deduplicate_samples-Ascending}

bytes_lt_irrefl : (xs : Bytes) → bytes_lt xs xs ≡ false
unfolding bytes_lt
bytes_lt_irrefl [] = refl
bytes_lt_irrefl (x ∷ xs) = ground (arith, bytes_lt_irrefl xs)

bytes_lt_trans :
    (xs ys zs : Bytes) → bytes_lt xs ys ≡ true → bytes_lt ys zs ≡ true → bytes_lt xs zs ≡ true
unfolding bytes_lt
bytes_lt_trans xs [] zs h k = cc
bytes_lt_trans xs (y ∷ ys) [] h k = cc
bytes_lt_trans [] (y ∷ ys) (z ∷ zs) h k = refl
bytes_lt_trans (x ∷ xs) (y ∷ ys) (z ∷ zs) h k = ground (arith, h, k, bytes_lt_trans xs ys zs)

-- `<` of pairs
abbrev pair_lt : Bytes → ℕ → Bytes → ℕ → Bool
pair_lt xs i ys j = bytes_lt xs ys || (bytes_eq xs ys && ltb i j)

pair_lt-same : (xs : Bytes) (i j : ℕ) → pair_lt xs i xs j ≡ ltb i j
pair_lt-same xs i j = rw (bytes_lt_irrefl xs, bytes_eq_refl xs) refl

lexicographic_trans :
    (xs ys zs : Bytes) (i j k : ℕ)
    → pair_lt xs i ys j ≡ true
    → pair_lt ys j zs k ≡ true
    → pair_lt xs i zs k ≡ true
lexicographic_trans xs ys zs i j k h l = elim (Bool-cases (bytes_eq xs ys)) [
  | inl e ↦ same_first (bytes_eq→≡ xs ys e)
  | inr e ↦ elim (Bool-cases (bytes_eq ys zs)) [
    | inl f ↦ same_last (bytes_eq→≡ ys zs f) e
    | inr f ↦
        let first : bytes_lt xs ys ≡ true = ground (arith, h, e) in
        let last : bytes_lt ys zs ≡ true = ground (arith, l, f) in
        rw (bytes_lt_trans xs ys zs first last) refl
  ]
]
  where
    same_first : xs ≡ ys → pair_lt xs i zs k ≡ true
    same_first p = elim (Bool-cases (bytes_eq ys zs)) [
      | inl f ↦
          let q = bytes_eq→≡ ys zs f in
          let below = sym (pair_lt-same zs i j) ∙ (rw (p, q) at h) in
          let above = sym (pair_lt-same zs j k) ∙ (rw q at l) in
          rw (p, q, bytes_lt_irrefl zs, bytes_eq_refl zs) (ground (arith, below, above))
      | inr f ↦ let last : bytes_lt ys zs ≡ true = ground (arith, l, f) in rw (p, last) refl
    ]

    same_last : ys ≡ zs → bytes_eq xs ys ≡ false → pair_lt xs i zs k ≡ true
    same_last q e = let first : bytes_lt xs ys ≡ true = ground (arith, h, e) in rw (← q, first) refl

module _ {Latency Sweeps : Type 0} where
  -- The survivor is one of the samples.
  abbrev pub Comes :
      List (Bytes × MeasuredSample Latency Sweeps) → PopulationSample Latency Sweeps → Type 0
  Comes [] survivor = ⊥
  Comes (entry ∷ samples) survivor =
      (candidate_of entry.0 entry.1 ≡ survivor) ⊎ Comes samples survivor

  -- Some survivor has the candidate's hash, and the candidate does not precede it.
  abbrev pub Covers :
      PopulationSample Latency Sweeps → List (PopulationSample Latency Sweeps) → Type 0
  Covers c [] = ⊥
  Covers c (s ∷ survivors) =
      ((s.vector_hash ≡ c.vector_hash) × (precedes c s ≡ false)) ⊎ Covers c survivors

  precedes_irrefl : (c : PopulationSample Latency Sweeps) → precedes c c ≡ false
  precedes_irrefl c = rw (bytes_lt_irrefl c.part_ulid, bytes_eq_refl c.part_ulid) (ground arith)

  precedes_trans :
      (a b c : PopulationSample Latency Sweeps)
      → precedes a b ≡ true
      → precedes b c ≡ true
      → precedes a c ≡ true
  precedes_trans a b c h k =
      lexicographic_trans a.part_ulid b.part_ulid c.part_ulid a.record_index b.record_index
        c.record_index h k

  Covers-offer_same :
      (c : PopulationSample Latency Sweeps) (ss : List (PopulationSample Latency Sweeps))
      → Covers c (offer c ss)
  unfolding offer
  Covers-offer_same c [] = inl (refl, precedes_irrefl c)
  Covers-offer_same c (s ∷ ss) = elim (Bool-cases (ltb c.vector_hash s.vector_hash)) [
    | inl p ↦ rw p (inl (refl, precedes_irrefl c))
    | inr p ↦ rw p (elim (Bool-cases (c.vector_hash == s.vector_hash)) [
      | inl q ↦ rw q (elim (Bool-cases (precedes c s)) [
        | inl r ↦ rw r (inl (refl, precedes_irrefl c))
        | inr r ↦ rw r (inl (sym (==→≡ c.vector_hash s.vector_hash q), r))
      ])
      | inr q ↦ rw q (inr (Covers-offer_same c ss))
    ])
  ]

  Covers-offer :
      (c d : PopulationSample Latency Sweeps) (ss : List (PopulationSample Latency Sweeps))
      → Covers c ss
      → Covers c (offer d ss)
  unfolding offer
  Covers-offer c d [] h = absurd h
  Covers-offer c d (s ∷ ss) h = elim (Bool-cases (ltb d.vector_hash s.vector_hash)) [
    | inl p ↦ rw p (inr h)
    | inr p ↦ rw p (elim (Bool-cases (d.vector_hash == s.vector_hash)) [
      | inl q ↦ rw q (elim (Bool-cases (precedes d s)) [
        | inl r ↦ rw r (replaced (==→≡ d.vector_hash s.vector_hash q) r h)
        | inr r ↦ rw r h
      ])
      | inr q ↦ rw q (elim h [ inl here ↦ inl here | inr there ↦ inr (Covers-offer c d ss there) ])
    ])
  ]
    where
      unpreceded : precedes d s ≡ true → precedes c s ≡ false → precedes c d ≡ false
      unpreceded r e = elim (Bool-cases (precedes c d)) [
        | inl f ↦ absurd (cc (sym (precedes_trans c d s f r) ∙ e))
        | inr f ↦ f
      ]

      replaced :
          d.vector_hash ≡ s.vector_hash
          → precedes d s ≡ true
          → Covers c (s ∷ ss)
          → Covers c (d ∷ ss)
      replaced same r (inl here) = inl (same ∙ here.0, unpreceded r here.1)
      replaced same r (inr there) = inr there

  Covers-offer_all :
      (c : PopulationSample Latency Sweeps) (ss : List (PopulationSample Latency Sweeps))
      (samples : List (Bytes × MeasuredSample Latency Sweeps))
      → Covers c ss
      → Covers c (offer_all ss samples)
  unfolding offer_all
  Covers-offer_all c ss [] h = h
  Covers-offer_all c ss ((part_ulid, sample) ∷ samples) h =
      Covers-offer_all c (offer (candidate_of part_ulid sample) ss) samples
        (Covers-offer c (candidate_of part_ulid sample) ss h)

  all-Covers :
      (ss : List (PopulationSample Latency Sweeps))
      (samples : List (Bytes × MeasuredSample Latency Sweeps))
      → All (λ entry. Covers (candidate_of entry.0 entry.1) (offer_all ss samples)) samples
  unfolding offer_all
  all-Covers ss [] = tt
  all-Covers ss ((part_ulid, sample) ∷ samples) =
      let c = candidate_of part_ulid sample in
      (
        Covers-offer_all c (offer c ss) samples (Covers-offer_same c ss),
        all-Covers (offer c ss) samples,
      )

  offer-All :
      (R : PopulationSample Latency Sweeps → Type 0) (c : PopulationSample Latency Sweeps)
      (ss : List (PopulationSample Latency Sweeps))
      → R c
      → All R ss
      → All R (offer c ss)
  unfolding offer
  offer-All R c [] r h = (r, tt)
  offer-All R c (s ∷ ss) r h = elim (Bool-cases (ltb c.vector_hash s.vector_hash)) [
    | inl p ↦ rw p (r, h)
    | inr p ↦ rw p (elim (Bool-cases (c.vector_hash == s.vector_hash)) [
      | inl q ↦ rw q (elim (Bool-cases (precedes c s)) [ inl e ↦ rw e (r, h.1) | inr e ↦ rw e h ])
      | inr q ↦ rw q (h.0, offer-All R c ss r h.1)
    ])
  ]

  offer_all-All :
      (R : PopulationSample Latency Sweeps → Type 0) (ss : List (PopulationSample Latency Sweeps))
      (samples : List (Bytes × MeasuredSample Latency Sweeps))
      → All R ss
      → All (λ entry. R (candidate_of entry.0 entry.1)) samples
      → All R (offer_all ss samples)
  unfolding offer_all
  offer_all-All R ss [] h k = h
  offer_all-All R ss ((part_ulid, sample) ∷ samples) h k =
      offer_all-All R (offer (candidate_of part_ulid sample) ss) samples
        (offer-All R (candidate_of part_ulid sample) ss k.0 h) k.1

  all-Comes :
      (samples : List (Bytes × MeasuredSample Latency Sweeps))
      → All (λ entry. Comes samples (candidate_of entry.0 entry.1)) samples
  all-Comes [] = tt
  all-Comes (entry ∷ samples) = (
    inl refl,
    All-imp (λ e. Comes samples (candidate_of e.0 e.1)) _ samples (λ e there. inr there)
        (all-Comes samples),
  )

-- The survivors are in strictly ascending order of their hashes, each is one of the samples, and every
-- sample has a survivor of its hash that it does not precede by the text of its part's ULID and, in the
-- same part, by its record index: of the samples with one hash exactly a first one survives.
pub deduplicate_samples-AreFirst :
    {Latency Sweeps : Type 0} (samples : List (Bytes × MeasuredSample Latency Sweeps))
    → Ascending (deduplicate_samples samples)
      × All (Comes samples) (deduplicate_samples samples)
      × All (λ entry. Covers (candidate_of entry.0 entry.1) (deduplicate_samples samples)) samples
unfolding deduplicate_samples
deduplicate_samples-AreFirst samples = (
  deduplicate_samples-Ascending samples,
  offer_all-All (Comes samples) [] samples tt (all-Comes samples),
  all-Covers [] samples,
)
