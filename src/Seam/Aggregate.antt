-- ===== src/Seam/Aggregate.antt =====
-- crates/seam/src/aggregate.rs: a cohort's round, as a pure function of what was listed and measured.
pub mod Checks
pub mod Effective
pub mod Decision
pub mod Valid
pub mod Rounds
use vectorseam.Seam.Aggregate.Effective.{
  effective_recommendation, iso8601_seconds, previous_effective,
}
use vectorseam.Seam.Population.{deduplicate_samples}
use vectorseam.Seam.Population.Statistics.{
  CompletedSelection, Sampled, mean, per_ef_summaries, select_and_validate, validate_population,
}
use vectorseam.Seam.Aggregate.Checks.{
  collect_intermediates, is_compatible, validate_aggregation_config,
}
use vectorseam.Seam.Accounting.{
  AggregateError, ListedPart, PartCounts, counter_overflow, coverage, dropped_frame_fraction,
  in_scope_window_starts, invalid_part_counts, math, unique_in_scope_parts, window_underflow,
}
use vectorseam.Seam.Model.{
  AggregationConfig, AggregationInput, IntermediatePart, PerEfSummary, PhaseAAbort, RoundOutput,
  RoundTarget, Sample,
}
use vectorseam.Seam.Math.{RoundStatus, compliance_confidence, insufficient_samples, is_train_member}
use vectorseam.Base.{
  ◌>>◌, Result, [], checked_add, checked_sub, codes, fail_if, if◌then◌else◌, length, lookup, ltb,
  map, map_err, none, ok, ok_or, u64_max, ◌++◌, ◌==◌, ◌>>=◌, ◌||◌, ◌∷◌, true, some, false, Assoc,
  Bytes, List, Option, Bool, ℕ,
}
use vectorseam.Seam.Floats.{Floats}

-- `listed.values()`
abbrev pub values_of {ℓ} : {V : Type ℓ} → Assoc V → List V
values_of [] = []
values_of ((key, value) ∷ entries) = value ∷ values_of entries

-- The fold of `samples.available`.
unfoldable pub sum_available : ℕ → List ListedPart → Result AggregateError ℕ
sum_available total [] = ok total
sum_available total (part ∷ parts) = do
  fail_if (ltb part.received_frame_count part.record_count) (invalid_part_counts part.part_ulid)
  more ←
      ok_or (checked_add u64_max total part.record_count)
        (counter_overflow (codes "samples.available"))
  sum_available more parts

abbrev pub counts_of : ListedPart → PartCounts
counts_of part = record {
  part_ulid = part.part_ulid;
  received = part.received_frame_count;
  records = part.record_count;
}

module _ (fl : Floats) where
  open fl use {Float, of_nat, add, sub, div, lt, le}

  -- What the loop over the intermediates adds up; `used` in the order of the loop.
  pub record Usage : Type 0 where
    pub used : List (IntermediatePart fl)
    pub incompatible_parts : ℕ
    pub measured : ℕ
    pub failed : ℕ

  abbrev pub is_listed : Bytes → Assoc ListedPart → Bool
  is_listed part_ulid listed = elim (lookup part_ulid listed) [ none ↦ false | some part ↦ true ]

  unfoldable pub use_parts :
      AggregationConfig fl
      → Assoc ListedPart
      → Usage
      → Assoc (IntermediatePart fl)
      → Result AggregateError Usage
  use_parts config listed usage [] = ok usage
  use_parts config listed usage ((part_ulid, intermediate) ∷ parts) =
      elim (is_listed part_ulid listed) [
        | false ↦ use_parts config listed usage parts
        | true ↦ elim (is_compatible fl config intermediate.metadata) [
          | false ↦
              (ok_or (checked_add u64_max usage.incompatible_parts 1)
                  (counter_overflow (codes "incompatible_parts"))
                >>= λ incompatible_parts.
                    use_parts config listed
                      (record {
                        used = usage.used;
                        incompatible_parts = incompatible_parts;
                        measured = usage.measured;
                        failed = usage.failed;
                      })
                      parts)
          | true ↦
              (ok_or (checked_add u64_max usage.measured intermediate.metadata.measured_count)
                  (counter_overflow (codes "samples.measured"))
                >>= λ measured.
                    ok_or (checked_add u64_max usage.failed intermediate.metadata.failed_count)
                      (counter_overflow (codes "samples.failed"))
                    >>= λ failed.
                        use_parts config listed
                          (record {
                            used = usage.used ++ (intermediate ∷ []);
                            incompatible_parts = usage.incompatible_parts;
                            measured = measured;
                            failed = failed;
                          })
                          parts)
        ]
      ]

  -- The samples of the parts, each with its part's ULID.
  abbrev pub tag_samples : Bytes → List (Sample fl) → List (Bytes × Sample fl)
  tag_samples part_ulid samples = map (λ (s : Sample fl). (part_ulid, s)) samples

  abbrev pub samples_of : List (IntermediatePart fl) → List (Bytes × Sample fl)
  samples_of [] = []
  samples_of (part ∷ parts) = tag_samples part.metadata.part_ulid part.samples ++ samples_of parts

  -- The loop that splits the population into `train` and `test`.
  unfoldable pub split_population :
      AggregationConfig fl
      → List (Sampled fl)
      → Result AggregateError (List (Sampled fl) × List (Sampled fl))
  split_population config [] = ok ([], [])
  split_population config (sample ∷ population) = do
    is_train ←
        map_err math (is_train_member fl sample.vector_hash config.split_seed config.train_fraction)
    (train, test) ← split_population config population
    if is_train then ok (sample ∷ train, test) else ok (train, sample ∷ test)

  abbrev pub is_some {ℓ} : {A : Type ℓ} → Option A → Bool
  is_some none = false
  is_some (some value) = true

  unfoldable pub is_insufficient :
      AggregationConfig fl → Option PhaseAAbort → ℕ → ℕ → Result AggregateError Bool
  is_insufficient config phase_a_abort train test = do
    train_ceiling ← map_err math (compliance_confidence fl train train config.percentile)
    test_ceiling ← map_err math (compliance_confidence fl test test config.percentile)
    ok (
        is_some phase_a_abort
        || (train == 0
            || (test == 0
                || (lt train_ceiling config.selection_confidence
                    || lt test_ceiling config.approval_confidence))))

  -- `selection`
  unfoldable pub select_unless :
      Bool
      → AggregationConfig fl
      → List (Sampled fl)
      → List (Sampled fl)
      → Result AggregateError (Option (CompletedSelection fl))
  select_unless true config train test = ok none
  select_unless false config train test = do
    selection ← select_and_validate fl config train test
    ok (some selection)

  abbrev pub status_of : Option (CompletedSelection fl) → RoundStatus
  status_of none = insufficient_samples
  status_of (some selection) = selection.status

  -- `selected.map(|s| …)`
  abbrev pub select_map {ℓ} :
      {A : Type ℓ} → (CompletedSelection fl → A) → Option (CompletedSelection fl) → Option A
  select_map f none = none
  select_map f (some selection) = some (f selection)

  -- What a round computes of its samples, before its output is put together.
  pub record RoundParts : Type 0 where
    pub lower : ℕ
    pub listed : Assoc ListedPart
    pub expected_windows : List ℕ
    pub available : ℕ
    pub drop_fraction : Float
    pub usage : Usage
    pub population : List (Sampled fl)
    pub per_ef : List (PerEfSummary fl)
    pub train : List (Sampled fl)
    pub test : List (Sampled fl)

  -- `output.error` is the abort, its message.
  abbrev pub target_of : AggregationConfig fl → RoundTarget fl
  target_of config = record {
    name = config.target_name;
    k = config.k;
    value = config.value;
    percentile = config.percentile;
    selection_confidence = config.selection_confidence;
    approval_confidence = config.approval_confidence;
  }

  abbrev pub ground_truth_mean : List (Sampled fl) → Option Float
  ground_truth_mean [] = none
  ground_truth_mean (sample ∷ population) =
      some (mean fl (map (λ (s : Sampled fl). s.ground_truth_latency_ms) (sample ∷ population)))

  -- The first half of `aggregate`, to the split.
  unfoldable pub gather : AggregationInput fl → Result AggregateError RoundParts
  unfolding in_scope_window_starts sum_available dropped_frame_fraction use_parts split_population
  gather input = do
    checked ← validate_aggregation_config fl input.config
    expected_windows ←
        in_scope_window_starts input.round_end input.config.window_duration_seconds
          input.config.storage_window_seconds
    lower ←
        ok_or (checked_sub input.round_end input.config.window_duration_seconds) window_underflow
    listed ← unique_in_scope_parts input.listed_parts lower input.round_end
    available ← sum_available 0 (values_of listed)
    drop_fraction ← dropped_frame_fraction fl (map counts_of (values_of listed))
    intermediates ← collect_intermediates fl [] input.intermediates
    usage ←
        use_parts input.config listed
          (record {
            used = [];
            incompatible_parts = input.phase_a_incompatible_parts;
            measured = 0;
            failed = 0;
          })
          intermediates
    let population = deduplicate_samples (samples_of usage.used)
    valid ← validate_population fl population input.config.ef_grid
    per_ef ← per_ef_summaries fl population input.config
    (train, test) ← split_population input.config population
    ok (record {
      lower = lower;
      listed = listed;
      expected_windows = expected_windows;
      available = available;
      drop_fraction = drop_fraction;
      usage = usage;
      population = population;
      per_ef = per_ef;
      train = train;
      test = test;
    })

  abbrev pub output_of :
      AggregationInput fl
      → RoundParts
      → Option (CompletedSelection fl)
      → Bytes
      → Bytes
      → RoundOutput fl
  output_of input parts selected window_start window_end = record {
    format_version = 1;
    cohort = input.config.cohort;
    computed_at = input.computed_at;
    window = record {
      start = window_start;
      end = window_end;
      duration_seconds = input.config.window_duration_seconds;
    };
    target = target_of input.config;
    index = input.config.index;
    ef_grid = input.config.ef_grid;
    status = status_of selected;
    error = input.phase_a_abort;
    recommended_ef = select_map (λ s. s.recommended_ef) selected;
    confidence = select_map (λ s. s.confidence) selected;
    train_confidence = select_map (λ s. s.train_confidence) selected;
    train_compliance = select_map (λ s. s.train_compliance) selected;
    train_quantile_recall = select_map (λ s. s.train_quantile) selected;
    test_compliance = select_map (λ s. s.test_compliance) selected;
    test_quantile_recall = select_map (λ s. s.test_quantile) selected;
    effective =
        effective_recommendation fl input.config selected
          (previous_effective fl input.config input.previous_round) window_end;
    samples = record {
      available = parts.available;
      measured = parts.usage.measured;
      failed = parts.usage.failed;
      unique = length parts.population;
      train = length parts.train;
      test = length parts.test;
    };
    dropped_frame_fraction = parts.drop_fraction;
    coverage = coverage fl parts.expected_windows parts.listed;
    parts_used = length parts.usage.used;
    incompatible_parts = parts.usage.incompatible_parts;
    ground_truth_latency_mean_ms = ground_truth_mean parts.population;
    per_ef = parts.per_ef;
  }

  -- The second half: the selection and the output.
  unfoldable pub conclude :
      AggregationInput fl → RoundParts → Result AggregateError (RoundOutput fl)
  unfolding is_insufficient select_unless iso8601_seconds
  conclude input parts = do
    insufficient ←
        is_insufficient input.config input.phase_a_abort (length parts.train) (length parts.test)
    selected ← select_unless insufficient input.config parts.train parts.test
    window_end ← map_err AggregateError.window (iso8601_seconds input.round_end)
    window_start ← map_err AggregateError.window (iso8601_seconds parts.lower)
    ok (output_of input parts selected window_start window_end)

  unfoldable pub aggregate : AggregationInput fl → Result AggregateError (RoundOutput fl)
  unfolding gather conclude
  aggregate input = do parts ← gather input; conclude input parts
