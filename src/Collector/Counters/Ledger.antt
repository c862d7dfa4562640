-- ===== src/Collector/Counters/Ledger.antt =====
-- The ledger loses no drop: what is recorded is taken, once.
use vectorseam.Base.{
  bump, ◌-◌, total-upsert, ℕ, ◌+◌, ◌<◌, ◌≡◌, false, arith, total, total-without, Distinct, u64_max,
  saturating_add,
}
use vectorseam.Core.Cohort.{CohortName}
use vectorseam.Collector.Counters.{
  CollectorCounters, record_pending_cohort_drop, record_channel_drop, record_memory_drop,
  take_pending_cohort_drops, take_all_pending_cohort_drops,
}

-- All the drops that wait.
abbrev pub pending : CollectorCounters → ℕ
pending c = total (λ n. n) c.pending_cohort_drops

-- While the ledger is usable and not full, a recorded drop is one more that waits, whichever operation
-- records it.
pub pending-record :
    (c : CollectorCounters) (cohort : CohortName)
    → c.poisoned ≡ false
    → pending c < u64_max
    → (pending (record_channel_drop c cohort) ≡ pending c + 1)
      × (pending (record_memory_drop c cohort) ≡ pending c + 1)
unfolding record_channel_drop record_memory_drop record_pending_cohort_drop
pending-record c cohort p h =
    let one =
      total-upsert (λ n. n) cohort 0 (λ drops. saturating_add u64_max drops 1)
        c.pending_cohort_drops 1 (u64_max - 1) (omega arith) (λ v b. ground arith) (omega arith) in
    (rw p one, rw p one)

-- What is taken no longer waits.
pub pending-take :
    (c : CollectorCounters) (cohort : CohortName)
    → Distinct c.pending_cohort_drops
    → pending c
      ≡ (take_pending_cohort_drops c cohort).1 + pending (take_pending_cohort_drops c cohort).0
unfolding take_pending_cohort_drops
pending-take c cohort d = ground (arith, total-without (λ n. n) cohort c.pending_cohort_drops d)

pub pending-take_all :
    (c : CollectorCounters)
    → pending c
      ≡ total (λ n. n) (take_all_pending_cohort_drops c).1
        + pending (take_all_pending_cohort_drops c).0
unfolding take_all_pending_cohort_drops
pending-take_all c = ground arith

-- What recording a drop moves besides the ledger, and what it leaves alone.
pub record-channel_drop :
    (c : CollectorCounters) (cohort : CohortName)
    → ((record_channel_drop c cohort).channel_dropped_frames ≡ bump c.channel_dropped_frames)
      × ((record_channel_drop c cohort).memory_dropped_frames ≡ c.memory_dropped_frames)
      × ((record_channel_drop c cohort).valid_frames_received ≡ c.valid_frames_received)
      × ((record_channel_drop c cohort).poisoned ≡ c.poisoned)
unfolding record_channel_drop record_pending_cohort_drop
record-channel_drop c cohort = ground arith

pub record-memory_drop :
    (c : CollectorCounters) (cohort : CohortName)
    → ((record_memory_drop c cohort).channel_dropped_frames ≡ c.channel_dropped_frames)
      × ((record_memory_drop c cohort).memory_dropped_frames ≡ bump c.memory_dropped_frames)
      × ((record_memory_drop c cohort).valid_frames_received ≡ c.valid_frames_received)
      × ((record_memory_drop c cohort).poisoned ≡ c.poisoned)
unfolding record_memory_drop record_pending_cohort_drop
record-memory_drop c cohort = ground arith
