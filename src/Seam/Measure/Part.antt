-- ===== src/Seam/Measure/Part.antt =====
-- crates/seam/src/measure.rs: the samples of a part measured one by one.
use vectorseam.Seam.Model.{AggregationConfig, IntermediateMetadata, table_smaller_than_k}
use vectorseam.Seam.Measure.{
  MeasurePartOutcome, Moment, PreparePartError, PreparedPart, PreparedSample, Progress,
  SampleFrameError, SampleMeasureError, SampleMeasurement, abort_phase_a, cancelled,
  cancelled_before_transaction, complete, connection, connection_unavailable, database, fail_sample,
  is_incomplete, measured_count_overflow, sweep_rows_of, too_few_rows, truth_row,
}
use vectorseam.Base.{
  Bytes, List, Result, [], err, if◌then◌else◌, length, ok, ok_or, try_from, u64_max, ◌++◌, ◌>>=◌,
  ◌∷◌, ℕ,
}
use vectorseam.Seam.Floats.{Floats}

module _ (fl : Floats) where
  -- After a sample: the next one, or the outcome of the part.
  pub data Turn : Type 0 where
    go_on : Progress fl → Turn
    stop : MeasurePartOutcome fl → Turn

  -- A measurement that arrived: its rows, or a failure.
  unfoldable pub record_measurement :
      AggregationConfig fl
      → PreparedSample
      → ℕ
      → SampleMeasurement fl
      → Progress fl
      → Result PreparePartError Turn
  unfolding is_incomplete sweep_rows_of
  record_measurement config sample receive_time_us measured progress =
      if is_incomplete fl config measured
      then ok (go_on (fail_sample fl progress))
      else (sweep_rows_of fl sample.record_index measured.sweeps >>= λ rows. ok (
          go_on (record {
            failed_count = progress.failed_count;
            truth_rows = progress.truth_rows ++ (truth_row fl sample receive_time_us measured ∷ []);
            sweep_rows = progress.sweep_rows ++ rows;
          })))

  -- The `match` on the measurer's answer.
  abbrev pub take_answer :
      AggregationConfig fl
      → PreparedSample
      → ℕ
      → Result (SampleMeasureError fl) (SampleMeasurement fl)
      → Progress fl
      → Result PreparePartError Turn
  take_answer config sample receive_time_us (ok measured) progress =
      record_measurement config sample receive_time_us measured progress
  take_answer config sample receive_time_us (err database) progress =
      ok (go_on (fail_sample fl progress))
  take_answer config sample receive_time_us (err connection) progress =
      ok (stop connection_unavailable)
  take_answer config sample receive_time_us (err cancelled_before_transaction) progress =
      ok (stop cancelled)
  take_answer config sample receive_time_us (err (too_few_rows returned k)) progress =
      ok (stop (abort_phase_a (table_smaller_than_k returned k)))

  -- A sample that has a time and a vector is measured, any other one fails.
  abbrev pub measure_decoded :
      AggregationConfig fl
      → PreparedSample
      → Result SampleFrameError ℕ
      → Result SampleFrameError (List ℕ)
      → Result (SampleMeasureError fl) (SampleMeasurement fl)
      → Progress fl
      → Result PreparePartError Turn
  measure_decoded config sample (ok receive_time_us) (ok vector) answer progress =
      take_answer config sample receive_time_us answer progress
  measure_decoded config sample (ok receive_time_us) (err failure) answer progress =
      ok (go_on (fail_sample fl progress))
  measure_decoded config sample (err failure) vector answer progress =
      ok (go_on (fail_sample fl progress))

  unfoldable pub measure_sample :
      AggregationConfig fl → Moment fl → PreparedSample → Progress fl → Result PreparePartError Turn
  unfolding record_measurement
  measure_sample config moment sample progress =
      if moment.is_cancelled
      then ok (stop cancelled)
      else measure_decoded config sample sample.receive_time_us sample.vector moment.answer progress

  unfoldable pub part_metadata :
      PreparedPart → Bytes → AggregationConfig fl → ℕ → ℕ → ℕ → IntermediateMetadata
  part_metadata part part_ulid config computed_at_us failed_count measured_count = record {
    format_version = 1;
    cohort = part.cohort;
    part_ulid = part_ulid;
    window_start = part.window_start;
    window_seconds = part.window_seconds;
    received_frame_count = part.received_frame_count;
    record_count = part.record_count;
    index = config.index;
    table = config.table;
    column = config.column;
    key = config.key;
    k = config.k;
    ef_grid = config.ef_grid;
    failed_count = failed_count;
    measured_count = measured_count;
    computed_at_us = computed_at_us;
  }

  -- The end of `measure_prepared_part`.
  abbrev pub finish_part :
      PreparedPart
      → Bytes
      → AggregationConfig fl
      → ℕ
      → Progress fl
      → Result PreparePartError (MeasurePartOutcome fl)
  finish_part part part_ulid config computed_at_us progress = do
    measured_count ←
        ok_or (try_from u64_max (length progress.truth_rows))
          (measured_count_overflow (length progress.truth_rows))
    ok (
        complete (record {
          metadata =
              part_metadata part part_ulid config computed_at_us progress.failed_count
                measured_count;
          truth_rows = progress.truth_rows;
          sweep_rows = progress.sweep_rows;
        }))

  -- The loop; the moments are those of the samples.
  unfoldable pub measure_samples :
      AggregationConfig fl
      → (PreparedSample → Moment fl)
      → List PreparedSample
      → Progress fl
      → Result PreparePartError Turn
  unfolding measure_sample
  measure_samples config moments [] progress = ok (go_on progress)
  measure_samples config moments (sample ∷ samples) progress =
      measure_sample config (moments sample) sample progress >>= λ turn. elim turn [
        | go_on after ↦ measure_samples config moments samples after
        | stop outcome ↦ ok (stop outcome)
      ]

  unfoldable pub measure_prepared_part :
      PreparedPart
      → Bytes
      → AggregationConfig fl
      → ℕ
      → (PreparedSample → Moment fl)
      → Result PreparePartError (MeasurePartOutcome fl)
  unfolding measure_samples part_metadata
  measure_prepared_part part part_ulid config computed_at_us moments =
      measure_samples config moments part.samples
        (record { failed_count = 0; truth_rows = []; sweep_rows = [] })
      >>= λ turn. elim turn [
        | go_on progress ↦ finish_part part part_ulid config computed_at_us progress
        | stop outcome ↦ ok outcome
      ]
