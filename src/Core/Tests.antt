-- ===== src/Core/Tests.antt =====
-- The theorems about the shared formats at concrete inputs, and tests of the definitions.
use vectorseam.Base.{
  ◌+◌, ◌%◌, ◌≤◌, ◌<◌, split, bytes_eq, starts_with, AreBytes, ◌≡◌, ◌≢◌, ◌↔◌, refl, List, [], ◌∷◌,
  ◌++◌, some, none, arith, drop, Bytes, codes, ok, err,
}
use vectorseam.Core.Utf8.{from_utf8}
use vectorseam.Core.Frame.{FrameHeader, parse_frame_header, total_frame_len}
use vectorseam.Core.Frame.Encode.{header_of, encode, IsFrame}
use vectorseam.Core.Frame.RoundTrip.{parse_frame_header-encode}
use vectorseam.Core.Frame.Sound.{parse_frame_header_sound, total_frame_len-parse}
use vectorseam.Core.Cohort
use vectorseam.Core.Cohort.{validate_cohort_name, CohortNameError}
use vectorseam.Core.Segment.{
  SegmentHeader, SegmentRecord, out_of_fuel, put_header, put_records, records_len, write_segment,
  read_segment,
}
use vectorseam.Core.Segment.Layout.{IsHeader}
use vectorseam.Core.Segment.RoundTrip.{read-write_segment, read_segment_total}
use vectorseam.Core.Window.{aligned_window_start, civil_from_days, civil_of}
use vectorseam.Core.Window.Align.{aligned_window_start_iff}
use vectorseam.Core.Window.Civil.{days_after_epoch}
use vectorseam.Core.Window.Civil.{civil_from_days-days_after_epoch}
use vectorseam.Core.Cohort.Grammar.{IsCohortName, validate_cohort_name_iff}

utf8_samples :
    (from_utf8 (99 ∷ 97 ∷ 102 ∷ 0xc3 ∷ 0xa9 ∷ []) ≡ some (99 ∷ 97 ∷ 102 ∷ 0xc3 ∷ 0xa9 ∷ []))
    × (from_utf8 (0xed ∷ 0xa0 ∷ 0x80 ∷ []) ≡ none)
    × (from_utf8 (0xc3 ∷ []) ≡ none)
unfolding from_utf8
utf8_samples = (refl, refl, refl)

abbrev pub vector : Bytes
vector = 0 ∷ 0 ∷ 128 ∷ 63 ∷ 0 ∷ 0 ∷ 0 ∷ 64 ∷ []

abbrev pub header : FrameHeader
header = header_of 1 2 (codes "prod") vector

header-IsFrame : IsFrame header vector
unfolding from_utf8
header-IsFrame = record {
  frame_len = refl;
  fits = omega arith;
  dtype = omega arith;
  dimension = omega arith;
  name_len = refl;
  vector_len = refl;
  name = refl;
}

parse_frame_header-encode_example : parse_frame_header (encode header vector) ≡ ok header
parse_frame_header-encode_example = parse_frame_header-encode header vector header-IsFrame

parse_frame_header_sound_example :
    IsFrame header (drop 32 (encode header vector))
    × (encode header vector ≡ encode header (drop 32 (encode header vector)))
parse_frame_header_sound_example =
    parse_frame_header_sound (encode header vector) header bytes
      (parse_frame_header-encode header vector header-IsFrame)
  where
    bytes : AreBytes (encode header vector)
    bytes = unfold encode in omega arith

total_frame_len-parse_example : total_frame_len (encode header vector) ≡ ok 40
unfolding encode
total_frame_len-parse_example =
    total_frame_len-parse (encode header vector) header
      (parse_frame_header-encode header vector header-IsFrame)

validate_cohort_name_iff_example :
    (validate_cohort_name (codes "prod/tenant-a") ≡ ok tt) ↔ IsCohortName (codes "prod/tenant-a")
validate_cohort_name_iff_example = validate_cohort_name_iff (codes "prod/tenant-a")

cohort_samples :
    (validate_cohort_name (codes "env=prod/tenant=a/index=products") ≡ ok tt)
    × (validate_cohort_name (codes "prod//tenant") ≡ err CohortNameError.empty_segment)
    × (validate_cohort_name (codes "prod/window=x") ≡ err CohortNameError.reserved_window_segment)
    × (validate_cohort_name (codes "prod/..") ≡ err CohortNameError.dot_segment)
    × (validate_cohort_name (codes "a/a/a/a/a/a/a/a/a") ≡ err CohortNameError.too_many_segments)
    × (validate_cohort_name (codes "prod+tenant") ≡ err CohortNameError.invalid_segment)
unfolding validate_cohort_name split Cohort.validate_segments Cohort.validate_segment bytes_eq
    starts_with Cohort.is_allowed_segment_byte
cohort_samples = (refl, refl, refl, refl, refl, refl)

abbrev pub segment_header : SegmentHeader
segment_header = record {
  window_start = 600;
  window_seconds = 60;
  first_receive = 601000000;
  last_receive = 601000000;
  received_frame_count = 2;
  record_count = 1;
  cohort = codes "prod";
}

abbrev pub records : List SegmentRecord
records = record { receive_time = 601000000; frame = encode header vector } ∷ []

abbrev pub segment : Bytes
segment = put_header segment_header 50 4 ++ put_records records

prod_is_valid : validate_cohort_name (codes "prod") ≡ ok tt
unfolding validate_cohort_name split Cohort.validate_segments Cohort.validate_segment bytes_eq
    starts_with Cohort.is_allowed_segment_byte
prod_is_valid = refl

segment_header-IsHeader : IsHeader segment_header
segment_header-IsHeader = record {
  window_start = omega arith;
  window_seconds = omega arith;
  first_receive = omega arith;
  last_receive = omega arith;
  received_frame_count = omega arith;
  record_count = omega arith;
  cohort = prod_is_valid;
}

segment_written : write_segment segment_header records ≡ ok segment
unfolding write_segment records_len encode
segment_written = rw (parse_frame_header-encode header vector header-IsFrame)

pub segment_reads :
    read_segment segment ≡ ok (record { header = segment_header; records = records })
segment_reads =
    read-write_segment segment_header records segment segment_header-IsHeader (omega arith, tt)
      segment_written

read-write_segment_example :
    read_segment segment ≡ ok (record { header = segment_header; records = records })
read-write_segment_example =
    read-write_segment segment_header records segment segment_header-IsHeader (omega arith, tt)
      segment_written

read_segment_total_example : read_segment (codes "VSG1") ≢ err out_of_fuel
read_segment_total_example = read_segment_total (codes "VSG1")

aligned_window_start_iff_example :
    (aligned_window_start 659 60 ≡ ok 600) ↔ ((600 % 60 ≡ 0) × (600 ≤ 659) × (659 < 600 + 60))
aligned_window_start_iff_example = aligned_window_start_iff 659 60 (omega arith) 600

civil_from_days-days_after_epoch_example : civil_from_days 59 ≡ ok (days_after_epoch 59)
civil_from_days-days_after_epoch_example = civil_from_days-days_after_epoch 59 (omega arith)

civil_samples :
    (civil_from_days 0 ≡ ok (1970, 1, 1))
    × (civil_from_days 19782 ≡ ok (2024, 2, 29))
    × (civil_from_days 20454 ≡ ok (2026, 1, 1))
unfolding civil_from_days civil_of
civil_samples = (refl, refl, refl)
