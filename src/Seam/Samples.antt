-- ===== src/Seam/Samples.antt =====
-- Concrete data for the tests: a number type, a configuration, and two rounds of one cohort.
use vectorseam.Seam.Hash.{fnv1a64, fnv1a64_from}
use vectorseam.Seam.Aggregate.Effective.{
  effective_recommendation, iso8601_seconds, previous_effective,
}
use vectorseam.Core.Window.{civil_from_days, civil_of, digits, format_window_timestamp, padded}
use vectorseam.Seam.Math.{
  quantile_type7, any, compliance_confidence, find, insert_sorted, interpolate, is_train_member,
  last, nth, select_ef, sort_by_total_cmp, split_threshold,
}
use vectorseam.Seam.Population.{deduplicate_samples, offer_all, offer}
use vectorseam.Seam.Aggregate.Checks.{
  validate_aggregation_config, collect_intermediates, is_compatible, any_descent,
  carry_fingerprint_matches, differs, is_bad_grid, metadata_eq, nats_eq, samples_eq, sweeps_eq,
}
use vectorseam.Seam.Aggregate.{
  aggregate, conclude, gather, is_insufficient, select_unless, split_population, sum_available,
  use_parts,
}
use vectorseam.Seam.Population.Statistics.{
  successes, validate_population, traverse, get_sweep, per_ef_summaries, evaluate_split,
  select_and_validate, sum_from,
}
use vectorseam.Seam.Model.{
  AggregationConfig, AggregationInput, IntermediatePart, RoundOutput, Sample, Sweeps,
}
use vectorseam.Seam.Accounting.{
  ListedPart, unique_in_scope_parts, collect_parts, sum_counts, coverage, dropped_frame_fraction,
  in_scope_window_starts, part_eq, windows_down, windows_found,
}
use vectorseam.Base.{
  false, some, Result, [], codes, err, if◌then◌else◌, is_ok, leb, le→leb, ltb, ltb_false→ge, none,
  ok, refl, true, ◌*◌, ◌+◌, ◌-◌, ◌/◌, ◌==◌, ◌∷◌, ◌≡◌, ℕ, lookup, btree_insert, bytes_eq, bytes_lt,
}
use vectorseam.Seam.Floats.{Floats, IsOrdered}

-- Numbers of zero and more in thousandths; the distribution is a step.
abbrev pub thousandths : Floats
thousandths = record {
  Float = ℕ;
  of_nat = λ n. n * 1000;
  to_nat = λ x. x / 1000;
  add = λ a b. a + b;
  sub = λ a b. a - b;
  mul = λ a b. a * b / 1000;
  div = λ a b. if b == 0 then 0 else a * 1000 / b;
  floor = λ x. x / 1000 * 1000;
  round = λ x. (x + 500) / 1000 * 1000;
  lt = ltb;
  le = leb;
  eq = λ a b. a == b;
  total_le = leb;
  is_finite = λ x. true;
  beta_reg = λ failures successes x. if failures == 1000 then 990 else 100;
}

pub thousandths-IsOrdered : IsOrdered thousandths
thousandths-IsOrdered = record {
  le_of_not_lt = λ a b f g h. le→leb b a (ltb_false→ge a b h);
  finite_between = λ x low high. refl;
}

abbrev pub round_config : AggregationConfig thousandths
round_config = record {
  cohort = codes "prod";
  target_name = codes "recall";
  index = codes "docs";
  table = codes "documents";
  column = codes "embedding";
  key = codes "id";
  k = 1;
  value = 900;
  percentile = 900;
  selection_confidence = 950;
  approval_confidence = 900;
  window_duration_seconds = 60;
  storage_window_seconds = 60;
  ef_grid = 10 ∷ 20 ∷ [];
  train_fraction = 500;
  split_seed = 1;
}

abbrev pub sweeps : Sweeps thousandths
sweeps =
    (10, record { recall = 500; latency_ms = 1000 })
    ∷ (20, record { recall = 1000; latency_ms = 2000 })
    ∷ []

abbrev pub sample_of : ℕ → ℕ → Sample thousandths
sample_of record_index vector_hash = record {
  record_index = record_index;
  vector_hash = vector_hash;
  dup_count = 1;
  ground_truth_latency_ms = 3000;
  sweeps = sweeps;
}

abbrev pub intermediate : IntermediatePart thousandths
intermediate = record {
  metadata = record {
    format_version = 1;
    cohort = codes "prod";
    part_ulid = codes "A";
    window_start = 60;
    window_seconds = 60;
    received_frame_count = 5;
    record_count = 4;
    index = codes "docs";
    table = codes "documents";
    column = codes "embedding";
    key = codes "id";
    k = 1;
    ef_grid = 10 ∷ 20 ∷ [];
    failed_count = 0;
    measured_count = 4;
    computed_at_us = 120000000;
  };
  samples = sample_of 0 11 ∷ sample_of 1 12 ∷ sample_of 2 13 ∷ sample_of 3 14 ∷ [];
}

abbrev pub listed_part : ListedPart
listed_part = record {
  part_ulid = codes "A";
  window_start = 60;
  window_seconds = 60;
  received_frame_count = 5;
  record_count = 4;
}

-- A round that measures.
abbrev pub first_input : AggregationInput thousandths
first_input = record {
  config = round_config;
  round_end = 120;
  computed_at = codes "1970-01-01T00:02:00Z";
  phase_a_abort = none;
  phase_a_incompatible_parts = 0;
  previous_round = none;
  listed_parts = listed_part ∷ [];
  intermediates = intermediate ∷ [];
}

-- `result.unwrap()`, where the result is good.
abbrev unwrap {ℓ κ} : {E : Type ℓ} {A : Type κ} (result : Result E A) → is_ok result ≡ true → A
unwrap (ok value) h = value
unwrap (err failure) h = absurd (cc h)

-- A round that computes: what `latest.json` holds after it is its own recommendation.
pub computed_round :
    (output : RoundOutput thousandths) × (aggregate thousandths first_input ≡ ok output)
    × (output.effective
        ≡ some (record {
          recommended_ef = 20;
          confidence = 990;
          source_round = codes "1970-01-01T00:02:00Z";
          carried = false;
        }))
    × (output.cohort ≡ codes "prod")
unfolding aggregate any any_descent btree_insert bytes_eq bytes_lt carry_fingerprint_matches
    civil_from_days civil_of collect_intermediates collect_parts compliance_confidence conclude
    coverage deduplicate_samples differs digits dropped_frame_fraction effective_recommendation
    evaluate_split find fnv1a64 fnv1a64_from format_window_timestamp gather get_sweep
    in_scope_window_starts insert_sorted interpolate is_bad_grid is_compatible is_insufficient
    is_train_member iso8601_seconds last lookup metadata_eq nats_eq nth offer offer_all padded
    part_eq per_ef_summaries previous_effective quantile_type7 samples_eq select_and_validate
    select_ef select_unless sort_by_total_cmp split_population split_threshold successes
    sum_available sum_counts sum_from sweeps_eq traverse unique_in_scope_parts use_parts
    validate_aggregation_config validate_population windows_down windows_found
computed_round = (unwrap (aggregate thousandths first_input) refl, refl, refl, refl)
