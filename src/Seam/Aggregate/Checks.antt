-- ===== src/Seam/Aggregate/Checks.antt =====
-- crates/seam/src/aggregate.rs: which configurations, earlier rounds and measured parts a round takes.
use vectorseam.Seam.Accounting.{AggregateError, conflicting_intermediate, invalid_config, math}
use vectorseam.Seam.Model.{
  AggregationConfig, IntermediateMetadata, IntermediatePart, RoundOutput, Sample, Sweeps,
}
use vectorseam.Seam.Math.{any, split_threshold}
use vectorseam.Core.Recommendation.{max_ef_search}
use vectorseam.Base.{
  ◌>>◌, Result, [], bytes_eq, codes, fail_if, i32_max, if◌then◌else◌, ltb, map_err, none, ok, some,
  true, ◌%◌, ◌==◌, ◌||◌, leb, Assoc, ◌&&◌, ◌∷◌, not, false, lookup, btree_insert, List, Bool,
  Option, ℕ,
}
use vectorseam.Seam.Floats.{Floats, zero_f64, one_f64}

-- `==` on slices.
unfoldable pub nats_eq : List ℕ → List ℕ → Bool
nats_eq [] [] = true
nats_eq [] (y ∷ ys) = false
nats_eq (x ∷ xs) [] = false
nats_eq (x ∷ xs) (y ∷ ys) = x == y && nats_eq xs ys

-- `windows(2).any(|pair| pair[0] >= pair[1])`
unfoldable pub any_descent : List ℕ → Bool
any_descent [] = false
any_descent (x ∷ []) = false
any_descent (x ∷ y ∷ xs) = leb y x || any_descent (y ∷ xs)

-- A grid that is refused: `ef_grid[0]` is reached only where the grid is not empty.
unfoldable pub is_bad_grid : ℕ → List ℕ → Bool
unfolding any_descent any
is_bad_grid k [] = true
is_bad_grid k (ef ∷ efs) =
    any_descent (ef ∷ efs)
    || (ltb ef (if leb k i32_max then k else i32_max) || any (ltb max_ef_search) (ef ∷ efs))

module _ (fl : Floats) where
  open fl use {Float, lt, le, eq}

  -- `!(x > 0.0 && x < 1.0)`
  abbrev pub is_bad_fraction : Float → Bool
  is_bad_fraction x = not (lt (zero_f64 fl) x && lt x (one_f64 fl))

  unfoldable pub validate_aggregation_config : AggregationConfig fl → Result AggregateError ℕ
  unfolding is_bad_grid split_threshold
  validate_aggregation_config config = do
    fail_if (config.storage_window_seconds == 0)
        (invalid_config (codes "storage_window_seconds zero"))
    fail_if (not (config.storage_window_seconds % 60 == 0))
        (invalid_config (codes "storage_window_seconds not minutes"))
    fail_if (ltb config.window_duration_seconds config.storage_window_seconds)
        (invalid_config (codes "window duration short"))
    fail_if (not (config.window_duration_seconds % config.storage_window_seconds == 0))
        (invalid_config (codes "window duration not a multiple"))
    fail_if (config.k == 0) (invalid_config (codes "k"))
    fail_if (not (lt (zero_f64 fl) config.value && le config.value (one_f64 fl)))
        (invalid_config (codes "value"))
    fail_if (is_bad_fraction config.percentile) (invalid_config (codes "percentile"))
    fail_if (is_bad_fraction config.selection_confidence)
        (invalid_config (codes "selection_confidence"))
    fail_if (is_bad_fraction config.approval_confidence)
        (invalid_config (codes "approval_confidence"))
    fail_if (is_bad_grid config.k config.ef_grid) (invalid_config (codes "ef_grid"))
    map_err math (split_threshold fl config.train_fraction)

  unfoldable pub carry_fingerprint_matches : AggregationConfig fl → RoundOutput fl → Bool
  unfolding nats_eq
  carry_fingerprint_matches config previous =
      bytes_eq previous.cohort config.cohort
      && (bytes_eq previous.index config.index
          && (nats_eq previous.ef_grid config.ef_grid
              && (previous.target.k == config.k
                  && (eq previous.target.value config.value
                      && (eq previous.target.percentile config.percentile
                          && (eq previous.target.selection_confidence config.selection_confidence
                              && eq previous.target.approval_confidence
                                  config.approval_confidence))))))

  unfoldable pub is_compatible : AggregationConfig fl → IntermediateMetadata → Bool
  unfolding nats_eq
  is_compatible config metadata =
      (metadata.format_version == 1)
      && ((metadata.k == config.k)
          && (bytes_eq metadata.index config.index
              && (bytes_eq metadata.table config.table
                  && (bytes_eq metadata.column config.column
                      && (bytes_eq metadata.key config.key
                          && nats_eq metadata.ef_grid config.ef_grid)))))

  -- The derived `==` on intermediates, field by field.
  unfoldable pub sweeps_eq : Sweeps fl → Sweeps fl → Bool
  sweeps_eq [] [] = true
  sweeps_eq [] (y ∷ ys) = false
  sweeps_eq (x ∷ xs) [] = false
  sweeps_eq ((e, x) ∷ xs) ((f, y) ∷ ys) =
      e == f && (eq x.recall y.recall && (eq x.latency_ms y.latency_ms && sweeps_eq xs ys))

  unfoldable pub samples_eq : List (Sample fl) → List (Sample fl) → Bool
  unfolding sweeps_eq
  samples_eq [] [] = true
  samples_eq [] (y ∷ ys) = false
  samples_eq (x ∷ xs) [] = false
  samples_eq (x ∷ xs) (y ∷ ys) =
      (x.record_index == y.record_index)
      && ((x.vector_hash == y.vector_hash)
          && ((x.dup_count == y.dup_count)
              && (eq x.ground_truth_latency_ms y.ground_truth_latency_ms
                  && (sweeps_eq x.sweeps y.sweeps && samples_eq xs ys))))

  unfoldable pub metadata_eq : IntermediateMetadata → IntermediateMetadata → Bool
  unfolding nats_eq
  metadata_eq a b =
      (a.format_version == b.format_version)
      && (bytes_eq a.cohort b.cohort
          && (bytes_eq a.part_ulid b.part_ulid
              && ((a.window_start == b.window_start)
                  && ((a.window_seconds == b.window_seconds)
                      && ((a.received_frame_count == b.received_frame_count)
                          && ((a.record_count == b.record_count)
                              && (bytes_eq a.index b.index
                                  && (bytes_eq a.table b.table
                                      && (bytes_eq a.column b.column
                                          && (bytes_eq a.key b.key
                                              && ((a.k == b.k)
                                                  && (nats_eq a.ef_grid b.ef_grid
                                                      && ((a.failed_count == b.failed_count)
                                                          && ((a.measured_count == b.measured_count)
                                                            && (a.computed_at_us
                                                            == b.computed_at_us)))))))))))))))

  -- `existing != part`
  unfoldable pub differs : Option (IntermediatePart fl) → IntermediatePart fl → Bool
  unfolding metadata_eq samples_eq
  differs none part = false
  differs (some existing) part =
      not (metadata_eq existing.metadata part.metadata && samples_eq existing.samples part.samples)

  -- The loop of `unique_intermediates`.
  unfoldable pub collect_intermediates :
      Assoc (IntermediatePart fl)
      → List (IntermediatePart fl)
      → Result AggregateError (Assoc (IntermediatePart fl))
  unfolding differs btree_insert lookup
  collect_intermediates unique [] = ok unique
  collect_intermediates unique (part ∷ parts) = do
    let part_ulid = part.metadata.part_ulid
    fail_if (differs (lookup part_ulid unique) part) (conflicting_intermediate part_ulid)
    collect_intermediates (btree_insert part_ulid part unique) parts
