-- ===== src/Seam/Tests.antt =====
-- The theorems about the tuner at concrete inputs.
mod Rounds
mod Parts
mod Pipeline
use vectorseam.Core.Window.{
  aligned_window_start, civil_from_days, civil_of, digits, format_window_timestamp, padded,
}
use vectorseam.Base.{
  All, ◌%◌, ◌↔◌, true, ◌+◌, ◌-◌, ◌*◌, ◌≤◌, ◌<◌, ◌≡◌, refl, List, [], ◌∷◌, arith, ok, Bytes, codes,
}
use vectorseam.Seam.Accounting.{
  contains, PartCounts, sum_counts, in_scope_window_starts, windows_down,
}
use vectorseam.Seam.Accounting.Windows.{in_scope_window_starts_iff}
use vectorseam.Seam.Accounting.Counts.{all_received, all_records, sum_counts-exact}
use vectorseam.Seam.Daemon.{round_timestamps, next_tick_after_round}
use vectorseam.Seam.Daemon.Ticks.{next_tick_after_round_lem}
use vectorseam.Seam.Population.{MeasuredSample, candidate_of, deduplicate_samples}
use vectorseam.Seam.Population.Survivors.{Ascending}
use vectorseam.Seam.Population.First.{Comes, Covers, deduplicate_samples-AreFirst}

three_windows : in_scope_window_starts 1800 1800 600 ≡ ok (0 ∷ 600 ∷ 1200 ∷ [])
unfolding in_scope_window_starts windows_down
three_windows = refl

in_scope_window_starts_iff_example :
    (contains 600 (0 ∷ 600 ∷ 1200 ∷ []) ≡ true)
    ↔ ((600 % 600 ≡ 0) × (1800 - 1800 ≤ 600) × (600 + 600 ≤ 1800))
in_scope_window_starts_iff_example =
    in_scope_window_starts_iff 1800 1800 600 (0 ∷ 600 ∷ 1200 ∷ []) three_windows 600

abbrev counts : List PartCounts
counts =
    record { part_ulid = codes "a"; received = 5; records = 3 }
    ∷ record { part_ulid = codes "b"; received = 2; records = 2 }
    ∷ []

counted : sum_counts 0 0 counts ≡ ok (7, 5)
unfolding sum_counts
counted = refl

sum_counts-exact_example : (7 ≡ 0 + all_received counts) × (5 ≡ 0 + all_records counts) × (5 ≤ 7)
sum_counts-exact_example = sum_counts-exact 0 0 counts 7 5 (omega arith) counted

next_tick_after_round_lem_example :
    let (tick, skipped) = next_tick_after_round 100 275 60 in
    (275 < tick) × (tick ≤ 275 + 60) × (tick ≡ 100 + 60 * (skipped + 1))
next_tick_after_round_lem_example = next_tick_after_round_lem 100 275 60 (omega arith) (omega arith)

abbrev samples : List (Bytes × MeasuredSample (Unit {0}) (Unit {0}))
samples =
    (
      codes "b",
      record {
        record_index = 0;
        vector_hash = 9;
        dup_count = 1;
        ground_truth_latency_ms = tt;
        sweeps = tt;
      },
    )
    ∷ (
      codes "a",
      record {
        record_index = 4;
        vector_hash = 9;
        dup_count = 1;
        ground_truth_latency_ms = tt;
        sweeps = tt;
      },
    )
    ∷ []

deduplicate_samples-AreFirst_example :
    Ascending (deduplicate_samples samples)
    × All (Comes samples) (deduplicate_samples samples)
    × All (λ entry. Covers (candidate_of entry.0 entry.1) (deduplicate_samples samples)) samples
deduplicate_samples-AreFirst_example = deduplicate_samples-AreFirst samples

round_timestamps_test :
    round_timestamps 1784117243 456789 600
    ≡ ok (record {
      round_end = 1784116800;
      computed_at = codes "2026-07-15T12:07:23Z";
      computed_at_us = 1784117243456789;
    })
unfolding round_timestamps format_window_timestamp civil_from_days civil_of padded digits
    aligned_window_start
round_timestamps_test = refl
