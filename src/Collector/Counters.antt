-- ===== src/Collector/Counters.antt =====
-- crates/vectorseam-collector/src/counters.rs: the counters, and the ledger of frames dropped for each
-- cohort that the writer has not yet folded into a segment's count.
pub mod Ledger
use vectorseam.Base.{
  ℕ, Bool, true, false, Option, none, some, List, [], if◌then◌else◌, Assoc, lookup, without, upsert,
  saturating_add, u64_max, bump,
}
use vectorseam.Core.Cohort.{CohortName}

-- `poisoned` says that a thread has panicked while it held the ledger's lock.
pub record CollectorCounters : Type 0 where
  pub connections_accepted : ℕ
  pub accept_errors : ℕ
  pub frames_read : ℕ
  pub valid_frames_received : ℕ
  pub invalid_frames : ℕ
  pub invalid_names : ℕ
  pub oversized_frames : ℕ
  pub channel_dropped_frames : ℕ
  pub memory_dropped_frames : ℕ
  pub kept_frames : ℕ
  pub flushed_parts : ℕ
  pub flush_failures : ℕ
  pub connection_errors : ℕ
  pub idle_connection_timeouts : ℕ
  pub pending_cohort_drops : Assoc ℕ
  pub poisoned : Bool

-- `CollectorCounters::default()`
abbrev pub default : CollectorCounters
default = record {
  connections_accepted = 0;
  accept_errors = 0;
  frames_read = 0;
  valid_frames_received = 0;
  invalid_frames = 0;
  invalid_names = 0;
  oversized_frames = 0;
  channel_dropped_frames = 0;
  memory_dropped_frames = 0;
  kept_frames = 0;
  flushed_parts = 0;
  flush_failures = 0;
  connection_errors = 0;
  idle_connection_timeouts = 0;
  pending_cohort_drops = [];
  poisoned = false;
}

unfoldable pub record_pending_cohort_drop : CollectorCounters → CohortName → CollectorCounters
record_pending_cohort_drop c cohort = if c.poisoned then c else record c {
  pending_cohort_drops =
      upsert cohort 0 (λ drops. saturating_add u64_max drops 1) c.pending_cohort_drops;
}

unfoldable pub record_channel_drop : CollectorCounters → CohortName → CollectorCounters
record_channel_drop c cohort =
    record_pending_cohort_drop (record c { channel_dropped_frames = bump c.channel_dropped_frames })
      cohort

unfoldable pub record_memory_drop : CollectorCounters → CohortName → CollectorCounters
record_memory_drop c cohort =
    record_pending_cohort_drop (record c { memory_dropped_frames = bump c.memory_dropped_frames })
      cohort

abbrev pub unwrap_or_zero : Option ℕ → ℕ
unwrap_or_zero none = 0
unwrap_or_zero (some n) = n

unfoldable pub take_pending_cohort_drops : CollectorCounters → CohortName → CollectorCounters × ℕ
take_pending_cohort_drops c cohort = if c.poisoned then (c, 0) else (
  record c { pending_cohort_drops = without cohort c.pending_cohort_drops },
  unwrap_or_zero (lookup cohort c.pending_cohort_drops),
)

unfoldable pub take_all_pending_cohort_drops : CollectorCounters → CollectorCounters × Assoc ℕ
take_all_pending_cohort_drops c =
    if c.poisoned then (c, []) else (record c { pending_cohort_drops = [] }, c.pending_cohort_drops)
