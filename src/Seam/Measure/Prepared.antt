-- ===== src/Seam/Measure/Prepared.antt =====
-- What the preparation of a segment keeps: every record is counted in one sample.
use native.Mathlib.Nat.{add-zero}
use vectorseam.Core.Frame.{FrameHeader, parse_frame_header}
use vectorseam.Core.Segment.{SegmentRecord, read_segment}
use vectorseam.Seam.Measure.{
  Preparation, PreparedPart, PreparedSample, add_or_count, count_duplicate, new_sample,
  prepare_record, prepare_records, prepare_segment, unreadable_frame, unreadable_segment, vector_of,
}
use vectorseam.Base.{
  ==→≡, >>=-eq-ok, All, All-append, AllEntries, AllEntries-without, Assoc, Bytes, List, Option, [],
  ap, arith, bytes_eq, bytes_eq→≡, checked_add, checked_add-eq-some, fail_if_then-eq-ok, i32_max,
  length, length-append, lookup, ltb, ltb_false→ge, map_err, none, not, not-eq-false, ok,
  ok-injective, ok_or_then-eq-ok, refl, some, subst, suc, sym, try_from, try_from-eq-some, zero,
  ◌++◌, ◌+◌, ◌<◌, ◌==◌, ◌∷◌, ◌≡◌, ◌≤◌, ℕ,
}

-- The records that the samples stand for.
unfoldable pub sum_dups : List PreparedSample → ℕ
sum_dups [] = 0
sum_dups (sample ∷ samples) = sample.dup_count + sum_dups samples

-- Every sample counts at least itself, and its index is a record's that was read.
abbrev pub IsCounted : ℕ → PreparedSample → Type 0
IsCounted seen sample = (0 < sample.dup_count) × (sample.record_index < seen)

-- After `seen` records.
pub record Keeps (seen : ℕ) (preparation : Preparation) : Type 0 where
  pub all_records : sum_dups preparation.samples ≡ seen
  pub counted : All (IsCounted seen) preparation.samples
  pub places :
      AllEntries (λ vector place. place < length preparation.samples) preparation.first_by_vector

sum_dups-append : (xs ys : List PreparedSample) → sum_dups (xs ++ ys) ≡ sum_dups xs + sum_dups ys
unfolding sum_dups
sum_dups-append [] ys = omega arith
sum_dups-append (x ∷ xs) ys = omega (arith, sum_dups-append xs ys)

later-IsCounted :
    (seen : ℕ) (samples : List PreparedSample)
    → All (IsCounted seen) samples
    → All (IsCounted (suc seen)) samples
later-IsCounted seen [] h = tt
later-IsCounted seen (sample ∷ samples) h =
    let below = h.0.1 in ((h.0.0, omega (arith, below)), later-IsCounted seen samples h.1)

-- What one more duplicate changes.
record IsOneMore (seen : ℕ) (samples after : List PreparedSample) : Type 0 where
  more : sum_dups after ≡ sum_dups samples + 1
  same : length after ≡ length samples
  counted : All (IsCounted seen) after

count_duplicate-IsOneMore :
    (seen existing : ℕ) (samples after : List PreparedSample)
    → All (IsCounted seen) samples
    → count_duplicate existing samples ≡ ok after
    → IsOneMore seen samples after
unfolding count_duplicate sum_dups
count_duplicate-IsOneMore seen existing [] after k h = cc
count_duplicate-IsOneMore seen zero (sample ∷ samples) after k h =
    let (dup_count, e, result) = ok_or_then-eq-ok (checked_add i32_max sample.dup_count 1) _ _ h in
    let grown = checked_add-eq-some i32_max sample.dup_count 1 dup_count e in
    subst (IsOneMore seen (sample ∷ samples)) (ok-injective result) (record {
      more = omega (arith, grown);
      same = refl;
      counted = ((omega (arith, grown), k.0.1), k.1);
    })
count_duplicate-IsOneMore seen (suc existing) (sample ∷ samples) after k h =
    let (rest, e, result) = >>=-eq-ok (count_duplicate existing samples) _ h in
    let one = count_duplicate-IsOneMore seen existing samples rest k.1 e in
    let more = one.more in
    subst (IsOneMore seen (sample ∷ samples)) (ok-injective result)
      (record { more = omega (arith, more); same = ap suc one.same; counted = (k.0, one.counted) })

AllEntries-more :
    (n m : ℕ) (entries : Assoc ℕ)
    → n ≤ m
    → AllEntries (λ vector place. place < n) entries
    → AllEntries (λ vector place. place < m) entries
AllEntries-more n m [] h k = tt
AllEntries-more n m ((vector, place) ∷ entries) h k =
    let below = k.0 in (omega (arith, below, h), AllEntries-more n m entries h k.1)

add_or_count-Keeps :
    (found : Option ℕ) (expected_cohort : Bytes) (seen : ℕ) (r : SegmentRecord)
    (header : FrameHeader) (preparation after : Preparation)
    → Keeps seen preparation
    → add_or_count found expected_cohort seen r header preparation ≡ ok after
    → Keeps (suc seen) after
unfolding sum_dups
add_or_count-Keeps (some existing) expected_cohort seen r header preparation after k h =
    let (samples, e, result) = >>=-eq-ok (count_duplicate existing preparation.samples) _ h in
    let one =
      count_duplicate-IsOneMore (suc seen) existing preparation.samples samples
        (later-IsCounted seen preparation.samples k.counted) e in
    let all_records = k.all_records in
    let more = one.more in
    subst (Keeps (suc seen)) (ok-injective result) (record {
      all_records = omega (arith, all_records, more);
      counted = one.counted;
      places =
          subst (λ n. AllEntries (λ vector place. place < n) preparation.first_by_vector)
            (sym one.same) k.places;
    })
add_or_count-Keeps none expected_cohort seen r header preparation after k h =
    let (index, e, result) = ok_or_then-eq-ok (try_from i32_max seen) _ _ h in
    let same = try_from-eq-some i32_max seen index e in
    let sample = new_sample expected_cohort index r header (vector_of r header) in
    let longer = length-append preparation.samples (sample ∷ []) in
    let total = sum_dups-append preparation.samples (sample ∷ []) in
    let all_records = k.all_records in
    subst (Keeps (suc seen)) (ok-injective result) (record {
      all_records = omega (arith, all_records, total);
      counted =
          All-append (IsCounted (suc seen)) preparation.samples (sample ∷ [])
            (later-IsCounted seen preparation.samples k.counted)
            ((omega arith, omega (arith, same)), tt);
      places = (
        omega (arith, longer),
        AllEntries-without (λ vector place. place < length (preparation.samples ++ (sample ∷ [])))
            (vector_of r header) preparation.first_by_vector
            (AllEntries-more (length preparation.samples)
              (length (preparation.samples ++ (sample ∷ []))) preparation.first_by_vector
              (omega (arith, longer)) k.places),
      );
    })

pub prepare_record-Keeps :
    (expected_cohort : Bytes) (seen : ℕ) (r : SegmentRecord) (preparation after : Preparation)
    → Keeps seen preparation
    → prepare_record expected_cohort seen r preparation ≡ ok after
    → Keeps (suc seen) after
unfolding prepare_record
prepare_record-Keeps expected_cohort seen r preparation after k h =
    let (header, _, rest) = >>=-eq-ok (map_err unreadable_frame (parse_frame_header r.frame)) _ h in
    add_or_count-Keeps (lookup (vector_of r header) preparation.first_by_vector) expected_cohort
      seen r header preparation after k rest

pub prepare_records-Keeps :
    (expected_cohort : Bytes) (seen : ℕ) (records : List SegmentRecord)
    (preparation after : Preparation)
    → Keeps seen preparation
    → prepare_records expected_cohort seen records preparation ≡ ok after
    → Keeps (seen + length records) after
unfolding prepare_records
prepare_records-Keeps expected_cohort seen [] preparation after k h =
    subst (Keeps (seen + 0)) (ok-injective h) (rw add-zero k)
prepare_records-Keeps expected_cohort seen (r ∷ records) preparation after k h =
    let (next, e, rest) = >>=-eq-ok (prepare_record expected_cohort seen r preparation) _ h in
    let kept = prepare_record-Keeps expected_cohort seen r preparation next k e in
    subst (λ n. Keeps n after) (omega arith)
      (prepare_records-Keeps expected_cohort (suc seen) records next after kept rest)

-- A prepared part: the duplicate counts of its samples add up to its records.
pub record IsPrepared (expected_cohort : Bytes) (expected_window_start expected_window_seconds : ℕ)
    (part : PreparedPart) : Type 0 where
  pub same_cohort : part.cohort ≡ expected_cohort
  pub same_start : part.window_start ≡ expected_window_start
  pub same_width : part.window_seconds ≡ expected_window_seconds
  pub received : part.record_count ≤ part.received_frame_count
  pub all_records : sum_dups part.samples ≡ part.record_count
  pub counted : All (IsCounted part.record_count) part.samples

-- A part that is prepared without an error is of the cohort and the window that were expected and has no
-- more records than received frames; the duplicate counts of its samples add up to its records, and each
-- sample counts at least one record and has the index of one.
pub prepare_segment-IsPrepared :
    (bytes expected_cohort : Bytes) (expected_window_start expected_window_seconds : ℕ)
    (part : PreparedPart)
    → prepare_segment bytes expected_cohort expected_window_start expected_window_seconds ≡ ok part
    → IsPrepared expected_cohort expected_window_start expected_window_seconds part
unfolding prepare_segment sum_dups
prepare_segment-IsPrepared bytes expected_cohort expected_window_start expected_window_seconds part
      h =
    let (segment, _, h1) = >>=-eq-ok (map_err unreadable_segment (read_segment bytes)) _ h in
    let (a, h2) =
      fail_if_then-eq-ok (not (bytes_eq segment.header.cohort expected_cohort)) _ _ h1 in
    let (b, h3) =
      fail_if_then-eq-ok (not (segment.header.window_start == expected_window_start)) _ _ h2 in
    let (c, h4) =
      fail_if_then-eq-ok (not (segment.header.window_seconds == expected_window_seconds)) _ _ h3 in
    let (d, h5) =
      fail_if_then-eq-ok (not (length segment.records == segment.header.record_count)) _ _ h4 in
    let (e, h6) =
      fail_if_then-eq-ok (ltb segment.header.received_frame_count segment.header.record_count) _ _
        h5 in
    let start : Preparation = record { first_by_vector = []; samples = [] } in
    let (prepared, f, h7) =
      >>=-eq-ok (prepare_records expected_cohort 0 segment.records start) _ h6 in
    let none_yet : Keeps 0 start = record { all_records = refl; counted = tt; places = tt } in
    let count = ==→≡ (length segment.records) segment.header.record_count (not-eq-false d) in
    let kept : Keeps segment.header.record_count prepared =
      subst (λ n. Keeps n prepared) (omega (arith, count))
        (prepare_records-Keeps expected_cohort 0 segment.records start prepared none_yet f) in
    subst (IsPrepared expected_cohort expected_window_start expected_window_seconds)
      (ok-injective h7)
      (record {
        same_cohort = bytes_eq→≡ segment.header.cohort expected_cohort (not-eq-false a);
        same_start = ==→≡ segment.header.window_start expected_window_start (not-eq-false b);
        same_width = ==→≡ segment.header.window_seconds expected_window_seconds (not-eq-false c);
        received = ltb_false→ge segment.header.received_frame_count segment.header.record_count e;
        all_records = kept.all_records;
        counted = kept.counted;
      })
