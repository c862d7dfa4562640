-- ===== src/Seam/Measure/Accepts.antt =====
-- From the collector to the tuner: a segment that was stored is prepared without an error.
use vectorseam.Collector.Writer.{clamp_u64}
use vectorseam.Collector.Writer.Stored.{IsStored}
use vectorseam.Core.Segment.{SegmentRecord}
use vectorseam.Core.Frame.{FrameHeader}
use vectorseam.Core.Segment.Parsed.{IsParsed, read_segment-IsParsed}
use vectorseam.Seam.Measure.{
  Preparation, PreparedPart, PreparedSample, add_or_count, count_duplicate, new_sample,
  prepare_record, prepare_records, prepare_segment, vector_of,
}
use vectorseam.Seam.Measure.Prepared.{Keeps, prepare_record-Keeps, prepare_records-Keeps, sum_dups}
use vectorseam.Base.{
  ==_refl, All, AllEntries-lookup, Bytes, List, Option, [], ap, arith, bytes_eq_refl, ge→ltb_false,
  i32_max, insert, length, le→leb, lookup, none, ok, refl, some, suc, sym, zero, ◌++◌, ◌+◌, ◌<◌,
  ◌==◌, ◌∙◌, ◌∷◌, ◌≡◌, ◌≤◌, ℕ,
}

count_duplicate_total :
    (existing : ℕ) (samples : List PreparedSample)
    → existing < length samples
    → sum_dups samples < i32_max
    → (after : List PreparedSample) × (count_duplicate existing samples ≡ ok after)
unfolding count_duplicate sum_dups
count_duplicate_total existing [] h small = absurd (omega (arith, h))
count_duplicate_total zero (sample ∷ samples) h small =
    let fits = le→leb (sample.dup_count + 1) i32_max (omega (arith, small)) in
    (
      record {
        record_index = sample.record_index;
        dup_count = sample.dup_count + 1;
        receive_time_us = sample.receive_time_us;
        vector_hash = sample.vector_hash;
        vector = sample.vector;
      }
          ∷ samples,
      rw (fits, count_duplicate) refl,
    )
count_duplicate_total (suc existing) (sample ∷ samples) h small =
    let (after, e) =
      count_duplicate_total existing samples (omega (arith, h)) (omega (arith, small)) in
    (sample ∷ after, rw (e, count_duplicate) refl)

add_or_count_total :
    (found : Option ℕ) (expected_cohort : Bytes) (seen : ℕ) (r : SegmentRecord)
    (header : FrameHeader) (preparation : Preparation)
    → Keeps seen preparation
    → lookup (vector_of r header) preparation.first_by_vector ≡ found
    → seen < i32_max
    → (after : Preparation) × (add_or_count found expected_cohort seen r header preparation
        ≡ ok after)
add_or_count_total (some existing) expected_cohort seen r header preparation k e small =
    let place =
      AllEntries-lookup (λ vector n. n < length preparation.samples) (vector_of r header)
        preparation.first_by_vector existing k.places e in
    let all_records = k.all_records in
    let (samples, counted) =
      count_duplicate_total existing preparation.samples place
        (omega (arith, all_records, small)) in
    (record { first_by_vector = preparation.first_by_vector; samples = samples }, rw counted refl)
add_or_count_total none expected_cohort seen r header preparation k e small =
    let fits = le→leb seen i32_max (omega (arith, small)) in
    (
      record {
        first_by_vector =
            insert (vector_of r header) (length preparation.samples) preparation.first_by_vector;
        samples =
            preparation.samples
            ++ (new_sample expected_cohort seen r header (vector_of r header) ∷ []);
      },
      rw fits refl,
    )

prepare_record_total :
    (expected_cohort : Bytes) (seen : ℕ) (r : SegmentRecord) (preparation : Preparation)
    → Keeps seen preparation
    → IsParsed r
    → seen < i32_max
    → (after : Preparation) × (prepare_record expected_cohort seen r preparation ≡ ok after)
unfolding prepare_record
prepare_record_total expected_cohort seen r preparation k (header, parsed) small =
    let (after, e) =
      add_or_count_total (lookup (vector_of r header) preparation.first_by_vector) expected_cohort
        seen r header preparation k refl small in
    (after, rw (parsed, prepare_record) e)

prepare_records_total :
    (expected_cohort : Bytes) (seen : ℕ) (records : List SegmentRecord) (preparation : Preparation)
    → Keeps seen preparation
    → All IsParsed records
    → seen + length records ≤ i32_max
    → (after : Preparation) × (prepare_records expected_cohort seen records preparation ≡ ok after)
unfolding prepare_records
prepare_records_total expected_cohort seen [] preparation k parsed small = (preparation, refl)
prepare_records_total expected_cohort seen (r ∷ records) preparation k parsed small =
    let (next, e) =
      prepare_record_total expected_cohort seen r preparation k parsed.0 (omega (arith, small)) in
    let (after, f) =
      prepare_records_total expected_cohort (suc seen) records next
        (prepare_record-Keeps expected_cohort seen r preparation next k e) parsed.1
        (omega (arith, small)) in
    (after, rw (e, prepare_records) f)

clamp_small : (n : ℕ) → n ≤ i32_max → clamp_u64 n ≡ n
clamp_small n h = ground (arith, h)

-- An object that the collector has stored, with at most 2^31 - 1 records, is prepared without an error
-- for the cohort and the window of its header, and the duplicate counts of the part's samples add up to
-- its records.
pub IsStored-prepares :
    (object : Bytes × Bytes) (stored : IsStored object)
    → length stored.records ≤ i32_max
    → (part : PreparedPart) × (prepare_segment object.1 stored.header.cohort
          stored.header.window_start stored.header.window_seconds
        ≡ ok part)
      × (sum_dups part.samples ≡ length stored.records)
unfolding prepare_segment sum_dups
IsStored-prepares object stored small =
    let header = stored.header in
    let start : Preparation = record { first_by_vector = []; samples = [] } in
    let none_yet : Keeps 0 start = record { all_records = refl; counted = tt; places = tt } in
    let parsed =
      read_segment-IsParsed object.1 (record { header = header; records = stored.records })
        stored.reads in
    let (prepared, e) =
      prepare_records_total header.cohort 0 stored.records start none_yet parsed
        (omega (arith, small)) in
    let count : length stored.records ≡ header.record_count =
      sym (stored.count ∙ clamp_small (length stored.records) small) in
    let enough = ge→ltb_false header.received_frame_count header.record_count stored.received in
    let same = ap (λ n. n == header.record_count) count ∙ ==_refl header.record_count in
    let kept = prepare_records-Keeps header.cohort 0 stored.records start prepared none_yet e in
    (
      record {
        cohort = header.cohort;
        window_start = header.window_start;
        window_seconds = header.window_seconds;
        received_frame_count = header.received_frame_count;
        record_count = header.record_count;
        samples = prepared.samples;
      },
      rw
          (
            stored.reads,
            bytes_eq_refl header.cohort,
            ==_refl header.window_start,
            ==_refl header.window_seconds,
            same,
            enough,
            e,
            prepare_segment,
          )
          refl,
      kept.all_records ∙ omega arith,
    )
