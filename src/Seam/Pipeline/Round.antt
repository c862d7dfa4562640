-- ===== src/Seam/Pipeline/Round.antt =====
-- crates/seam/src/pipeline.rs: `run_cohort_round`.

use vectorseam.Seam.Pipeline.{
  Environment, PipelineError, SourcePart, Step, aggregate_error, bind, check_cancelled,
  connection_lost, encode_intermediate, get_bytes, intermediate_paths, json, lift,
  load_previous_round, pure, put_bytes, read_encoded_intermediate, round_paths, source_segment,
  tick, window_error,
}
use vectorseam.Seam.Pipeline.Sources.{
  Found, check_sources, list_measurement_objects, list_source_objects, load_source_headers,
}
use vectorseam.Seam.Accounting.{in_scope_window_starts}
use vectorseam.Seam.Aggregate.{aggregate}
use vectorseam.Seam.Measure.{
  MeasurePartOutcome, MeasuredPart, PreparedPart, abort_phase_a, complete, connection_unavailable,
  prepare_segment,
}
use vectorseam.Seam.Measure.Part.{measure_prepared_part}
use vectorseam.Seam.Model.{
  AggregationConfig, AggregationInput, IntermediatePart, PhaseAAbort, RoundOutput,
}
use vectorseam.Base.{
  ℕ, Bool, Option, none, some, List, [], ◌∷◌, map, if◌then◌else◌, Bytes, Assoc, btree_insert,
  values, Result, err, ok_or, map_err,
}
use vectorseam.Seam.Floats.{Floats}

module _ (fl : Floats) (env : Environment fl) where
  pub data CohortRoundOutcome : Type 0 where
    published : RoundOutput fl → CohortRoundOutcome
    cancelled : CohortRoundOutcome

  -- How the loop over the pending parts goes on after a part.
  pub data PartTurn : Type 0 where
    measured : IntermediatePart fl → PartTurn
    aborted : PhaseAAbort → PartTurn
    stopped : PartTurn

  abbrev pub paths_of : AggregationConfig fl → SourcePart → Result PipelineError (Bytes × Bytes)
  paths_of config source =
      map_err window_error
        (intermediate_paths config.cohort source.listed.window_start source.listed.part_ulid)

  -- A part that is complete: its two files are put, the truth first, and read again.
  unfoldable pub store_measured :
      AggregationConfig fl → SourcePart → MeasuredPart fl → Step PartTurn
  unfolding bind pure lift
  store_measured config source part =
      bind
        (lift (
          ok_or (env.encode_pair part.metadata part.truth_rows part.sweep_rows)
            (encode_intermediate source.listed.part_ulid)))
        (λ files. bind (lift (paths_of config source)) (λ paths.
          bind (put_bytes fl env paths.0 files.0) (λ truth_done.
            bind (put_bytes fl env paths.1 files.1) (λ sweep_done.
              bind
                (lift (
                  ok_or (env.read_pair files.0 files.1)
                    (read_encoded_intermediate source.listed.part_ulid)))
                (λ intermediate. pure (measured intermediate))))))

  abbrev pub take_outcome :
      AggregationConfig fl → SourcePart → MeasurePartOutcome fl → Step PartTurn
  take_outcome config source (complete part) = store_measured config source part
  take_outcome config source (abort_phase_a abort) = pure (aborted abort)
  take_outcome config source connection_unavailable =
      lift (err (connection_lost source.listed.part_ulid))
  take_outcome config source MeasurePartOutcome.cancelled = pure stopped

  unfoldable pub measure_part :
      AggregationConfig fl → ℕ → SourcePart → PreparedPart → Step (MeasurePartOutcome fl)
  unfolding measure_prepared_part
  measure_part config computed_at_us source prepared w = (
    tick w,
    map_err (source_segment source.path) (
        measure_prepared_part fl prepared source.listed.part_ulid config computed_at_us
          (env.moments w.moment)),
  )

  abbrev pub measure_source : AggregationConfig fl → ℕ → SourcePart → Step PartTurn
  measure_source config computed_at_us source = bind (get_bytes fl env source.path) (λ bytes.
      bind
        (lift (
          map_err (source_segment source.path) (
            prepare_segment bytes config.cohort source.listed.window_start
              config.storage_window_seconds)))
        (λ prepared.
          bind (measure_part config computed_at_us source prepared)
            (λ outcome. take_outcome config source outcome)))

  -- A round of the loop over the pending parts.
  unfoldable pub measure_pending : AggregationConfig fl → ℕ → SourcePart → Step PartTurn
  unfolding bind pure lift store_measured measure_part
  measure_pending config computed_at_us source = bind (check_cancelled fl env) (λ is_cancelled.
      if is_cancelled then pure stopped else measure_source config computed_at_us source)

  pub record Measured : Type 0 where
    pub compatible : Assoc (IntermediatePart fl)
    pub phase_a_abort : Option PhaseAAbort

  -- The loop; `none` for a round that is cancelled.
  unfoldable pub measure_all :
      AggregationConfig fl
      → ℕ
      → List SourcePart
      → Assoc (IntermediatePart fl)
      → Step (Option Measured)
  unfolding bind pure measure_pending
  measure_all config computed_at_us [] compatible =
      pure (some (record { compatible = compatible; phase_a_abort = none }))
  measure_all config computed_at_us (source ∷ sources) compatible =
      bind (measure_pending config computed_at_us source) (λ turn. elim turn [
        | measured intermediate ↦
            measure_all config computed_at_us sources
              (btree_insert source.listed.part_ulid intermediate compatible)
        | aborted abort ↦
            pure (some (record { compatible = compatible; phase_a_abort = some abort }))
        | stopped ↦ pure none
      ])

  -- What a round has gathered when it comes to its end.
  pub record Gathered : Type 0 where
    pub sources : List SourcePart
    pub phase_a_incompatible_parts : ℕ
    pub compatible : Assoc (IntermediatePart fl)
    pub phase_a_abort : Option PhaseAAbort

  abbrev pub gathered_of : List SourcePart → Found fl env → Option Measured → Option Gathered
  gathered_of sources found none = none
  gathered_of sources found (some all) = some (record {
    sources = sources;
    phase_a_incompatible_parts = found.phase_a_incompatible_parts;
    compatible = all.compatible;
    phase_a_abort = all.phase_a_abort;
  })

  -- `run_cohort_round` up to the last test of the cancellation.
  unfoldable pub gather_round : AggregationConfig fl → ℕ → ℕ → Step (Option Gathered)
  unfolding bind pure lift measure_all in_scope_window_starts
  gather_round config round_end computed_at_us =
      bind
        (lift (
          map_err aggregate_error (
            in_scope_window_starts round_end config.window_duration_seconds
              config.storage_window_seconds)))
        (λ window_starts. bind (list_source_objects fl env config.cohort window_starts) (λ objects.
          bind (list_measurement_objects fl env config.cohort window_starts) (λ measurement_objects.
            bind (load_source_headers fl env config.cohort config.storage_window_seconds objects)
              (λ sources.
                bind
                  (check_sources fl env config measurement_objects sources
                    (record { compatible = []; pending = []; phase_a_incompatible_parts = 0 }))
                  (λ found.
                    bind (measure_all config computed_at_us found.pending found.compatible)
                      (λ all. pure (gathered_of sources found all)))))))

  abbrev pub input_of :
      AggregationConfig fl → ℕ → Bytes → Gathered → Option (RoundOutput fl) → AggregationInput fl
  input_of config round_end computed_at gathered previous_round = record {
    config = config;
    round_end = round_end;
    computed_at = computed_at;
    phase_a_abort = gathered.phase_a_abort;
    phase_a_incompatible_parts = gathered.phase_a_incompatible_parts;
    previous_round = previous_round;
    listed_parts = map (λ (source : SourcePart). source.listed) gathered.sources;
    intermediates = values gathered.compatible;
  }

  -- The two objects of a round: the history first.
  unfoldable pub publish : Bytes × Bytes → RoundOutput fl → Bytes → Step CohortRoundOutcome
  unfolding bind pure
  publish paths output round_bytes = bind (put_bytes fl env paths.0 round_bytes) (λ history_done.
      bind (put_bytes fl env paths.1 round_bytes) (λ latest_done. pure (published output)))

  -- `run_cohort_round` from the last test of the cancellation on.
  unfoldable pub conclude_round :
      AggregationConfig fl → ℕ → Bytes → Gathered → Step CohortRoundOutcome
  unfolding bind lift publish
  conclude_round config round_end computed_at gathered =
      bind (lift (map_err window_error (round_paths config.cohort round_end))) (λ paths.
        bind (load_previous_round fl env paths.1) (λ previous_round.
          bind
            (lift (
              map_err aggregate_error
                (aggregate fl (input_of config round_end computed_at gathered previous_round))))
            (λ output.
              bind (lift (ok_or (env.to_vec output) json))
                (λ round_bytes. publish paths output round_bytes))))

  abbrev pub unless_cancelled :
      AggregationConfig fl → ℕ → Bytes → Gathered → Bool → Step CohortRoundOutcome
  unless_cancelled config round_end computed_at gathered is_cancelled =
      if is_cancelled then pure cancelled else conclude_round config round_end computed_at gathered

  abbrev pub after_gathering :
      AggregationConfig fl → ℕ → Bytes → Option Gathered → Step CohortRoundOutcome
  after_gathering config round_end computed_at none = pure cancelled
  after_gathering config round_end computed_at (some gathered) =
      bind (check_cancelled fl env) (unless_cancelled config round_end computed_at gathered)

  unfoldable pub run_cohort_round : AggregationConfig fl → ℕ → Bytes → ℕ → Step CohortRoundOutcome
  unfolding bind pure gather_round conclude_round
  run_cohort_round config round_end computed_at computed_at_us =
      bind (gather_round config round_end computed_at_us)
        (after_gathering config round_end computed_at)
