-- ===== src/Seam/Tests/Parts.antt =====
-- The theorems about parts at concrete inputs.
use vectorseam.Seam.Samples.{round_config, thousandths}
use vectorseam.Seam.Measure.Part.{measure_prepared_part}
use vectorseam.Seam.Measure.Accepts.{IsStored-prepares}
use vectorseam.Seam.Measure.Prepared.{IsPrepared, prepare_segment-IsPrepared, sum_dups}
use vectorseam.Collector.Writer.Stored.{IsStored}
use vectorseam.Seam.Measure.{
  MeasuredPart, Moment, PreparedPart, PreparedSample, complete, dimension_mismatch, prepare_segment,
}
use vectorseam.Core.Window.{
  civil_from_days, civil_of, digits, format_window_timestamp, object_key, padded,
}
use vectorseam.Core.Tests.{records, segment, segment_header, segment_reads}
use vectorseam.Seam.Measure.Complete.{IsComplete, measure_prepared_part-IsComplete}
use vectorseam.Base.{Bytes, [], arith, codes, err, false, ok, pos, refl, ◌∷◌, ◌≡◌}

abbrev key : Bytes
key = codes "cohorts/prod/window=19700101T0010Z/part-01ARZ3NDEKTSV4RRFFQ69G5FAV.vseam"

segment_key : object_key (codes "prod") 600 (codes "01ARZ3NDEKTSV4RRFFQ69G5FAV") ≡ ok key
unfolding object_key format_window_timestamp civil_from_days civil_of padded digits
segment_key = refl

abbrev stored_segment : IsStored (key, segment)
stored_segment = record {
  header = segment_header;
  records = records;
  part = codes "01ARZ3NDEKTSV4RRFFQ69G5FAV";
  reads = segment_reads;
  key = segment_key;
  count = refl;
  received = omega arith;
}

IsStored-prepares_example :
    (part : PreparedPart) × (prepare_segment segment (codes "prod") 600 60 ≡ ok part)
    × (sum_dups part.samples ≡ 1)
IsStored-prepares_example = IsStored-prepares (key, segment) stored_segment (omega arith)

prepare_segment-IsPrepared_example :
    IsPrepared
      (codes "prod")
      600
      60
      (IsStored-prepares (key, segment) stored_segment (omega arith)).0
prepare_segment-IsPrepared_example =
    prepare_segment-IsPrepared segment (codes "prod") 600 60
      (IsStored-prepares (key, segment) stored_segment (omega arith)).0
      (IsStored-prepares (key, segment) stored_segment (omega arith)).1

-- A part with one sample that can be measured and one that cannot.
abbrev part : PreparedPart
part = record {
  cohort = codes "prod";
  window_start = 600;
  window_seconds = 60;
  received_frame_count = 5;
  record_count = 3;
  samples =
      record {
        record_index = 0;
        dup_count = 2;
        receive_time_us = ok 601000000;
        vector_hash = 7;
        vector = ok (0x3f800000 ∷ []);
      }
      ∷ record {
        record_index = 2;
        dup_count = 1;
        receive_time_us = ok 602000000;
        vector_hash = 8;
        vector = err dimension_mismatch;
      }
      ∷ [];
}

abbrev moments : PreparedSample → Moment thousandths
moments sample = record {
  is_cancelled = false;
  answer = ok (record {
    gt_keys = pos 4 ∷ [];
    gt_distances = 250 ∷ [];
    ground_truth_latency_ms = 3000;
    sweeps =
        record { ef = 10; returned_keys = pos 5 ∷ []; recall = 0; latency_ms = 1000 }
        ∷ record { ef = 20; returned_keys = pos 4 ∷ []; recall = 1000; latency_ms = 2000 }
        ∷ [];
  });
}

abbrev measured : MeasuredPart thousandths
measured = record {
  metadata = record {
    format_version = 1;
    cohort = codes "prod";
    part_ulid = codes "A";
    window_start = 600;
    window_seconds = 60;
    received_frame_count = 5;
    record_count = 3;
    index = codes "docs";
    table = codes "documents";
    column = codes "embedding";
    key = codes "id";
    k = 1;
    ef_grid = 10 ∷ 20 ∷ [];
    failed_count = 1;
    measured_count = 1;
    computed_at_us = 9;
  };
  truth_rows =
      record {
        record_index = 0;
        vector_hash = 7;
        dup_count = 2;
        receive_time_us = 601000000;
        latency_ms = 3000;
        gt_keys = pos 4 ∷ [];
        gt_distances = 250 ∷ [];
      }
      ∷ [];
  sweep_rows =
      record {
        record_index = 0;
        ef = 10;
        returned_keys = pos 5 ∷ [];
        recall = 0;
        latency_ms = 1000;
        result_count = 1;
      }
      ∷ record {
        record_index = 0;
        ef = 20;
        returned_keys = pos 4 ∷ [];
        recall = 1000;
        latency_ms = 2000;
        result_count = 1;
      }
      ∷ [];
}

measured_part :
    measure_prepared_part thousandths part (codes "A") round_config 9 moments
    ≡ ok (complete measured)
unfolding measure_prepared_part
measured_part = refl

measure_prepared_part-IsComplete_example : IsComplete thousandths round_config part measured
measure_prepared_part-IsComplete_example =
    measure_prepared_part-IsComplete thousandths round_config part (codes "A") 9 moments measured
      measured_part
