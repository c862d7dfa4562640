-- ===== src/Seam/Accounting.antt =====
-- crates/seam/src/accounting.rs: which storage windows a round reads, and what it counts in them.
pub mod Windows
pub mod Counts
use vectorseam.Base.{
  btree_insert, ◌&&◌, codes, ℕ, zero, suc, ◌+◌, ◌-◌, ◌≤◌, ◌%◌, Bool, true, false, not, ◌||◌, Option,
  none, some, List, [], ◌∷◌, ◌++◌, ltb, leb, ◌==◌, if◌then◌else◌, Bytes, bytes_eq, Result, ok, err,
  ◌>>=◌, ◌>>◌, fail_if, ok_or, checked_add, checked_sub, u64_max, Assoc, lookup, length,
}
use vectorseam.Seam.Floats.{Floats, zero_f64, one_f64}
use vectorseam.Seam.Math.{MathError}
use vectorseam.Core.Window.{WindowError, zero_duration}

-- `AggregateError` of aggregate.rs, less the failure of a JSON serializer; a text stands for the message
-- of an invalid configuration.
pub data AggregateError : Type 0 where
  window : WindowError → AggregateError
  unaligned_round_end window_underflow : AggregateError
  invalid_part_counts counter_overflow part_window_overflow conflicting_listed_part :
      Bytes → AggregateError
  math : MathError → AggregateError
  invalid_config conflicting_intermediate : Bytes → AggregateError
  missing_sweep invalid_observation : Bytes → ℕ → ℕ → AggregateError
  invalid_ground_truth_latency : Bytes → ℕ → AggregateError

-- The loop of `in_scope_window_starts` with its `push` and the final `reverse`: the candidates go
-- backwards from the round's end; `lower` is where the round's window starts.
unfoldable pub windows_down : ℕ → ℕ → ℕ → ℕ → List ℕ → List ℕ
windows_down zero storage_width lower candidate_end starts = starts
windows_down (suc fuel) storage_width lower candidate_end starts =
    elim (checked_sub candidate_end storage_width) [
      | none ↦ starts
      | some start ↦
          if ltb start lower
          then starts
          else windows_down fuel storage_width lower start (start ∷ starts)
    ]

-- Every round of the loop takes at least one second off, so the round's end is fuel enough.
unfoldable pub in_scope_window_starts : ℕ → ℕ → ℕ → Result AggregateError (List ℕ)
in_scope_window_starts round_end window_duration_seconds storage_width = do
  fail_if (storage_width == 0) (AggregateError.window zero_duration)
  fail_if (not (round_end % storage_width == 0)) unaligned_round_end
  lower ← ok_or (checked_sub round_end window_duration_seconds) window_underflow
  ok (windows_down (suc round_end) storage_width lower round_end [])

pub record PartCounts : Type 0 where
  pub part_ulid : Bytes
  pub received : ℕ
  pub records : ℕ

-- The loop of `dropped_frame_fraction`: the received frames and the records of all parts.
unfoldable pub sum_counts : ℕ → ℕ → List PartCounts → Result AggregateError (ℕ × ℕ)
sum_counts received records [] = ok (received, records)
sum_counts received records (p ∷ parts) = do
  fail_if (ltb p.received p.records) (invalid_part_counts p.part_ulid)
  more_received ←
      ok_or (checked_add u64_max received p.received)
        (counter_overflow (codes "received_frame_count"))
  more_records ←
      ok_or (checked_add u64_max records p.records) (counter_overflow (codes "record_count"))
  sum_counts more_received more_records parts

pub record ListedPart : Type 0 where
  pub part_ulid : Bytes
  pub window_start : ℕ
  pub window_seconds : ℕ
  pub received_frame_count : ℕ
  pub record_count : ℕ

-- `existing == part`
unfoldable pub part_eq : ListedPart → ListedPart → Bool
part_eq a b =
    bytes_eq a.part_ulid b.part_ulid
    && ((a.window_start == b.window_start)
        && ((a.window_seconds == b.window_seconds)
            && ((a.received_frame_count == b.received_frame_count)
                && (a.record_count == b.record_count))))

-- The map after `unique.insert(part.part_ulid, part)`.
abbrev insert_part : ListedPart → Assoc ListedPart → Assoc ListedPart
insert_part part unique = btree_insert part.part_ulid part unique

abbrev conflicts : Option ListedPart → ListedPart → Bool
conflicts none part = false
conflicts (some existing) part = not (part_eq existing part)

-- The loop of `unique_in_scope_parts`.
unfoldable pub collect_parts :
    ℕ → ℕ → Assoc ListedPart → List ListedPart → Result AggregateError (Assoc ListedPart)
collect_parts lower round_end unique [] = ok unique
collect_parts lower round_end unique (part ∷ parts) =
    ok_or (checked_add u64_max part.window_start part.window_seconds)
      (part_window_overflow part.part_ulid)
    >>= λ part_end.
        let skipped = collect_parts lower round_end unique parts in
        let taken = collect_parts lower round_end (insert_part part unique) parts in
        if ltb part.window_start lower || ltb round_end part_end
        then skipped
        else (fail_if (conflicts (lookup part.part_ulid unique) part)
              (conflicting_listed_part part.part_ulid)
            >> taken)

unfoldable pub unique_in_scope_parts :
    List ListedPart → ℕ → ℕ → Result AggregateError (Assoc ListedPart)
unique_in_scope_parts parts lower round_end = collect_parts lower round_end [] parts

pub record Coverage (fl : Floats) : Type 0 where
  pub empty_window_fraction : fl.Float
  pub windows_in_scope : ℕ
  pub windows_with_parts : ℕ

abbrev pub contains : ℕ → List ℕ → Bool
contains n [] = false
contains n (x ∷ xs) = (x == n) || contains n xs

-- The set of the expected windows that some listed part starts, without repetitions.
unfoldable pub windows_found : List ℕ → Assoc ListedPart → List ℕ
windows_found expected [] = []
windows_found expected ((part_ulid, part) ∷ listed) =
    let found = windows_found expected listed in
    if contains part.window_start expected && not (contains part.window_start found)
    then part.window_start ∷ found
    else found

unfoldable pub coverage : (fl : Floats) → List ℕ → Assoc ListedPart → Coverage fl
coverage fl expected_windows listed =
    let windows_in_scope = length expected_windows in
    let windows_with_parts = length (windows_found expected_windows listed) in
    record {
      empty_window_fraction =
          if windows_in_scope == 0
          then one_f64 fl
          else fl.div (fl.of_nat (windows_in_scope - windows_with_parts))
              (fl.of_nat windows_in_scope);
      windows_in_scope = windows_in_scope;
      windows_with_parts = windows_with_parts;
    }

unfoldable pub dropped_frame_fraction :
    (fl : Floats) → List PartCounts → Result AggregateError fl.Float
dropped_frame_fraction fl headers = do
  (received, records) ← sum_counts 0 0 headers
  if received == 0
      then ok (zero_f64 fl)
      else ok (fl.sub (one_f64 fl) (fl.div (fl.of_nat records) (fl.of_nat received)))
