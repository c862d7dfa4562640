-- ===== src/Seam/Measure.antt =====
-- crates/seam/src/measure.rs: a segment made ready for measuring, and its samples measured one by one.
pub mod Prepared
pub mod Accepts
pub mod Part
pub mod Complete
use vectorseam.Core.Endian.{from_le_bytes}
use vectorseam.Core.Segment.{SegmentError, SegmentRecord, read_segment}
use vectorseam.Seam.Model.{AggregationConfig, IntermediateMetadata, PhaseAAbort}
use vectorseam.Seam.Hash.{fnv1a64}
use vectorseam.Core.Frame.{FrameError, FrameHeader, fixed_frame_header_len, parse_frame_header}
use vectorseam.Base.{
  Assoc, Bool, Bytes, List, Option, Result, [], bytes_eq, checked_add, drop, err, fail_if, false,
  i32_max, i64_max, if◌then◌else◌, insert, length, lookup, ltb, map_err, none, not, ok, ok_or, some,
  suc, try_from, zero, ℤ, ◌*◌, ◌++◌, ◌+◌, ◌==◌, ◌>>=◌, ◌>>◌, ◌||◌, ◌∷◌, ℕ,
}
use vectorseam.Seam.Floats.{Floats}

abbrev pub f32_dtype : ℕ
f32_dtype = 1

abbrev pub f32_bytes : ℕ
f32_bytes = 4

pub data SampleFrameError : Type 0 where
  cohort_not_segment : SampleFrameError
  unsupported_dtype : ℕ → SampleFrameError
  dimension_mismatch receive_time_out_of_range : SampleFrameError

-- A component of a vector is the number that its four bytes spell, `f32::to_bits` of Rust.
pub record PreparedSample : Type 0 where
  pub record_index : ℕ
  pub dup_count : ℕ
  pub receive_time_us : Result SampleFrameError ℕ
  pub vector_hash : ℕ
  pub vector : Result SampleFrameError (List ℕ)

pub record PreparedPart : Type 0 where
  pub cohort : Bytes
  pub window_start : ℕ
  pub window_seconds : ℕ
  pub received_frame_count : ℕ
  pub record_count : ℕ
  pub samples : List PreparedSample

-- `index_out_of_bounds` is the model's own: the panic of an index.
pub data PreparePartError : Type 0 where
  unreadable_segment : SegmentError → PreparePartError
  unreadable_frame : FrameError → PreparePartError
  wrong_cohort : Bytes → Bytes → PreparePartError
  wrong_window_start wrong_window_seconds : ℕ → ℕ → PreparePartError
  wrong_record_count low_received_frame_count : ℕ → ℕ → PreparePartError
  record_index_overflow : ℕ → PreparePartError
  duplicate_count_overflow : PreparePartError
  result_count_overflow measured_count_overflow : ℕ → PreparePartError
  index_out_of_bounds : PreparePartError

-- `chunks_exact(F32_BYTES)`, each chunk read by `f32::from_le_bytes`.
unfoldable pub decode_vector : Bytes → List ℕ
decode_vector (a ∷ b ∷ c ∷ d ∷ bytes) = from_le_bytes (a ∷ b ∷ c ∷ d ∷ []) ∷ decode_vector bytes
decode_vector (a ∷ b ∷ c ∷ []) = []
decode_vector (a ∷ b ∷ []) = []
decode_vector (a ∷ []) = []
decode_vector [] = []

-- `samples[existing].dup_count += 1`, checked.
unfoldable pub count_duplicate :
    ℕ → List PreparedSample → Result PreparePartError (List PreparedSample)
count_duplicate existing [] = err index_out_of_bounds
count_duplicate zero (sample ∷ samples) = do
  dup_count ← ok_or (checked_add i32_max sample.dup_count 1) duplicate_count_overflow
  ok (
      record {
        record_index = sample.record_index;
        dup_count = dup_count;
        receive_time_us = sample.receive_time_us;
        vector_hash = sample.vector_hash;
        vector = sample.vector;
      }
      ∷ samples)
count_duplicate (suc existing) (sample ∷ samples) =
    count_duplicate existing samples >>= λ counted. ok (sample ∷ counted)

-- `semantic_error` and the vector that is decoded where there is none.
unfoldable pub checked_vector : Bytes → FrameHeader → Bytes → Result SampleFrameError (List ℕ)
unfolding decode_vector
checked_vector expected_cohort header vector_bytes =
    if not (bytes_eq header.name expected_cohort)
    then err cohort_not_segment
    else if not (header.dtype == f32_dtype)
    then err (unsupported_dtype header.dtype)
    else if header.dimension == 0 || not (header.dimension * f32_bytes == length vector_bytes)
    then err dimension_mismatch
    else ok (decode_vector vector_bytes)

abbrev pub new_sample : Bytes → ℕ → SegmentRecord → FrameHeader → Bytes → PreparedSample
new_sample expected_cohort record_index record_ header vector_bytes = record {
  record_index = record_index;
  dup_count = 1;
  receive_time_us = ok_or (try_from i64_max record_.receive_time) receive_time_out_of_range;
  vector_hash = fnv1a64 vector_bytes;
  vector = checked_vector expected_cohort header vector_bytes;
}

-- The locals of the loop of `prepare_segment`.
pub record Preparation : Type 0 where
  pub first_by_vector : Assoc ℕ
  pub samples : List PreparedSample

abbrev pub vector_of : SegmentRecord → FrameHeader → Bytes
vector_of record_ header = drop (fixed_frame_header_len + header.name_len) record_.frame

abbrev pub add_sample :
    Bytes → ℕ → SegmentRecord → FrameHeader → Preparation → Result PreparePartError Preparation
add_sample expected_cohort record_index record_ header preparation = do
  index ← ok_or (try_from i32_max record_index) (record_index_overflow record_index)
  ok (record {
    first_by_vector =
        insert (vector_of record_ header) (length preparation.samples) preparation.first_by_vector;
    samples =
        preparation.samples
        ++ (new_sample expected_cohort index record_ header (vector_of record_ header) ∷ []);
  })

abbrev pub add_duplicate : ℕ → Preparation → Result PreparePartError Preparation
add_duplicate existing preparation = do
  samples ← count_duplicate existing preparation.samples
  ok (record { first_by_vector = preparation.first_by_vector; samples = samples })

abbrev pub add_or_count :
    Option ℕ
    → Bytes
    → ℕ
    → SegmentRecord
    → FrameHeader
    → Preparation
    → Result PreparePartError Preparation
add_or_count (some existing) expected_cohort record_index record_ header preparation =
    add_duplicate existing preparation
add_or_count none expected_cohort record_index record_ header preparation =
    add_sample expected_cohort record_index record_ header preparation

-- One round of the loop.
unfoldable pub prepare_record :
    Bytes → ℕ → SegmentRecord → Preparation → Result PreparePartError Preparation
unfolding count_duplicate checked_vector lookup
prepare_record expected_cohort record_index record_ preparation = do
  header ← map_err unreadable_frame (parse_frame_header record_.frame)
  add_or_count (lookup (vector_of record_ header) preparation.first_by_vector) expected_cohort
      record_index record_ header preparation

unfoldable pub prepare_records :
    Bytes → ℕ → List SegmentRecord → Preparation → Result PreparePartError Preparation
unfolding prepare_record
prepare_records expected_cohort record_index [] preparation = ok preparation
prepare_records expected_cohort record_index (record_ ∷ records) preparation = do
  next ← prepare_record expected_cohort record_index record_ preparation
  prepare_records expected_cohort (suc record_index) records next

unfoldable pub prepare_segment : Bytes → Bytes → ℕ → ℕ → Result PreparePartError PreparedPart
unfolding prepare_records
prepare_segment bytes expected_cohort expected_window_start expected_window_seconds = do
  segment ← map_err unreadable_segment (read_segment bytes)
  fail_if (not (bytes_eq segment.header.cohort expected_cohort))
      (wrong_cohort expected_cohort segment.header.cohort)
  fail_if (not (segment.header.window_start == expected_window_start))
      (wrong_window_start expected_window_start segment.header.window_start)
  fail_if (not (segment.header.window_seconds == expected_window_seconds))
      (wrong_window_seconds expected_window_seconds segment.header.window_seconds)
  fail_if (not (length segment.records == segment.header.record_count))
      (wrong_record_count segment.header.record_count (length segment.records))
  fail_if (ltb segment.header.received_frame_count segment.header.record_count)
      (low_received_frame_count segment.header.received_frame_count segment.header.record_count)
  prepared ←
      prepare_records expected_cohort 0 segment.records
        (record { first_by_vector = []; samples = [] })
  ok (record {
    cohort = segment.header.cohort;
    window_start = segment.header.window_start;
    window_seconds = segment.header.window_seconds;
    received_frame_count = segment.header.received_frame_count;
    record_count = segment.header.record_count;
    samples = prepared.samples;
  })

module _ (fl : Floats) where
  open fl use {Float}

  pub record SampleSweepResult : Type 0 where
    pub ef : ℕ
    pub returned_keys : List ℤ
    pub recall : Float
    pub latency_ms : Float

  pub record SampleMeasurement : Type 0 where
    pub gt_keys : List ℤ
    pub gt_distances : List Float
    pub ground_truth_latency_ms : Float
    pub sweeps : List SampleSweepResult

  -- The messages of a database and of a connection are left out.
  pub data SampleMeasureError : Type 0 where
    database connection cancelled_before_transaction : SampleMeasureError
    too_few_rows : ℕ → ℕ → SampleMeasureError

  -- `TruthMeasurement` and `SweepMeasurementRow` of intermediate.rs.
  pub record TruthMeasurement : Type 0 where
    pub record_index : ℕ
    pub vector_hash : ℕ
    pub dup_count : ℕ
    pub receive_time_us : ℕ
    pub latency_ms : Float
    pub gt_keys : List ℤ
    pub gt_distances : List Float

  pub record SweepMeasurementRow : Type 0 where
    pub record_index : ℕ
    pub ef : ℕ
    pub returned_keys : List ℤ
    pub recall : Float
    pub latency_ms : Float
    pub result_count : ℕ

  pub record MeasuredPart : Type 0 where
    pub metadata : IntermediateMetadata
    pub truth_rows : List TruthMeasurement
    pub sweep_rows : List SweepMeasurementRow

  pub data MeasurePartOutcome : Type 0 where
    complete : MeasuredPart → MeasurePartOutcome
    abort_phase_a : PhaseAAbort → MeasurePartOutcome
    connection_unavailable cancelled : MeasurePartOutcome

  -- What happens at a sample: whether the part is cancelled by then, and the answer of the measurer.
  pub record Moment : Type 0 where
    pub is_cancelled : Bool
    pub answer : Result SampleMeasureError SampleMeasurement

  -- The locals of the loop of `measure_prepared_part`.
  pub record Progress : Type 0 where
    pub failed_count : ℕ
    pub truth_rows : List TruthMeasurement
    pub sweep_rows : List SweepMeasurementRow

  -- `sweeps.iter().zip(&ef_grid).any(|(sweep, ef)| sweep.ef != *ef)`
  unfoldable pub any_other_ef : List SampleSweepResult → List ℕ → Bool
  any_other_ef [] efs = false
  any_other_ef (sweep ∷ sweeps) [] = false
  any_other_ef (sweep ∷ sweeps) (ef ∷ efs) = not (sweep.ef == ef) || any_other_ef sweeps efs

  -- A measurement that is counted as failed.
  unfoldable pub is_incomplete : AggregationConfig fl → SampleMeasurement → Bool
  unfolding any_other_ef
  is_incomplete config measured =
      not (length measured.gt_keys == config.k)
      || (not (length measured.gt_distances == length measured.gt_keys)
          || (not (length measured.sweeps == length config.ef_grid)
              || any_other_ef measured.sweeps config.ef_grid))

  -- The rows of a sample's sweeps.
  unfoldable pub sweep_rows_of :
      ℕ → List SampleSweepResult → Result PreparePartError (List SweepMeasurementRow)
  sweep_rows_of record_index [] = ok []
  sweep_rows_of record_index (sweep ∷ sweeps) = do
    result_count ←
        ok_or (try_from i32_max (length sweep.returned_keys))
          (result_count_overflow (length sweep.returned_keys))
    rows ← sweep_rows_of record_index sweeps
    ok (
        record {
          record_index = record_index;
          ef = sweep.ef;
          returned_keys = sweep.returned_keys;
          recall = sweep.recall;
          latency_ms = sweep.latency_ms;
          result_count = result_count;
        }
        ∷ rows)

  abbrev pub fail_sample : Progress → Progress
  fail_sample progress = record {
    failed_count = progress.failed_count + 1;
    truth_rows = progress.truth_rows;
    sweep_rows = progress.sweep_rows;
  }

  abbrev pub truth_row : PreparedSample → ℕ → SampleMeasurement → TruthMeasurement
  truth_row sample receive_time_us measured = record {
    record_index = sample.record_index;
    vector_hash = sample.vector_hash;
    dup_count = sample.dup_count;
    receive_time_us = receive_time_us;
    latency_ms = measured.ground_truth_latency_ms;
    gt_keys = measured.gt_keys;
    gt_distances = measured.gt_distances;
  }
