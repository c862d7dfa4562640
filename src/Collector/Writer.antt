-- ===== src/Collector/Writer.antt =====
-- crates/vectorseam-collector/src/writer.rs: the task that buffers frames by cohort and puts segments
-- into the object store.
--
-- The object store, the ULIDs and the clock are not the collector's: `Environment` says how the store
-- answers the n-th `put` and which ULID the n-th key gets, and a tick carries what the clock says.
pub mod Handlers
pub mod Ownership
pub mod Flushing
pub mod Release
pub mod Buffers
pub mod Stored
pub mod Readable
pub mod Run
pub mod Windows
pub mod Outcomes
use vectorseam.Base.{
  ℕ, zero, suc, ◌+◌, ◌*◌, ◌/◌, Bool, true, false, ◌&&◌, Option, none, some, List, [], ◌∷◌, ◌++◌,
  length, map, ltb, leb, ◌==◌, if◌then◌else◌, Bytes, Result, ok, err, checked_add, saturating_add,
  usize_max, u64_max, bump, Assoc, lookup, without, upsert, keys,
}
use vectorseam.Core.Cohort.{CohortName}
use vectorseam.Core.Segment.{SegmentHeader, SegmentRecord, SegmentError, write_segment}
use vectorseam.Core.Window.{WindowError, aligned_window_start, object_key}
use vectorseam.Collector.Memory.{release}
use vectorseam.Collector.Counters.{
  CollectorCounters, take_pending_cohort_drops, take_all_pending_cohort_drops,
}
use vectorseam.Collector.Reader.{FrameEvent}

pub record WriterConfig : Type 0 where
  pub window_seconds : ℕ
  pub per_cohort_memory_bytes : ℕ
  pub live_memory_bytes : ℕ

-- `memory` is what the record's guard gives back when it is dropped.
pub record BufferedRecord : Type 0 where
  pub receive_time : ℕ
  pub frame : Bytes
  pub memory : ℕ

pub record CohortState : Type 0 where
  pub records : List BufferedRecord
  pub bytes : ℕ
  pub received_frame_count : ℕ

abbrev pub default_state : CohortState
default_state = record { records = []; bytes = 0; received_frame_count = 0 }

pub record FlushBatch : Type 0 where
  pub window_start : ℕ
  pub header : SegmentHeader
  pub records : List BufferedRecord
  pub record_bytes : ℕ

-- How a `put` under its timeout ends.
pub data PutOutcome : Type 0 where
  stored failed timed_out : PutOutcome

pub record Environment : Type 0 where
  pub ulid : ℕ → Bytes
  pub put : ℕ → PutOutcome

-- `memory` is the shared tracker's count, `objects` are the objects that the store has acknowledged, the
-- newest first, and `keys_made` counts the ULIDs asked for.
pub record Writer : Type 0 where
  pub config : WriterConfig
  pub counters : CollectorCounters
  pub memory : ℕ
  pub states : Assoc CohortState
  pub current_window_start : ℕ
  pub objects : List (Bytes × Bytes)
  pub keys_made : ℕ

abbrev pub add_received : ℕ → CohortState → CohortState
add_received drops s = record s {
  received_frame_count = saturating_add u64_max s.received_frame_count drops;
}

unfoldable pub fold_pending_drops : CohortName → Writer → Writer
fold_pending_drops cohort w =
    let (counters, drops) = take_pending_cohort_drops w.counters cohort in
    if drops == 0 then record w { counters = counters } else record w {
      counters = counters;
      states = upsert cohort default_state (add_received drops) w.states;
    }

unfoldable pub fold_drops : Assoc ℕ → Assoc CohortState → Assoc CohortState
fold_drops [] states = states
fold_drops ((cohort, drops) ∷ taken) states =
    fold_drops taken (upsert cohort default_state (add_received drops) states)

unfoldable pub fold_all_pending_drops : Writer → Writer
fold_all_pending_drops w =
    let (counters, taken) = take_all_pending_cohort_drops w.counters in
    record w { counters = counters; states = fold_drops taken w.states }

abbrev pub is_empty {ℓ} : {A : Type ℓ} → List A → Bool
is_empty [] = true
is_empty (x ∷ xs) = false

abbrev pub first_time : List BufferedRecord → ℕ
first_time [] = 0
first_time (r ∷ rs) = r.receive_time

abbrev pub last_time : List BufferedRecord → ℕ
last_time [] = 0
last_time (r ∷ []) = r.receive_time
last_time (r ∷ s ∷ rs) = last_time (s ∷ rs)

-- `u64::try_from(n).unwrap_or(u64::MAX)`
abbrev pub clamp_u64 : ℕ → ℕ
clamp_u64 n = if leb n u64_max then n else u64_max

-- The header of a batch.
abbrev pub header_of : WriterConfig → CohortName → ℕ → CohortState → SegmentHeader
header_of config cohort window_start s = record {
  window_start = window_start;
  window_seconds = config.window_seconds;
  first_receive = first_time s.records;
  last_receive = last_time s.records;
  received_frame_count = s.received_frame_count;
  record_count = clamp_u64 (length s.records);
  cohort = cohort;
}

abbrev pub batch_of : WriterConfig → CohortName → ℕ → CohortState → FlushBatch
batch_of config cohort window_start s = record {
  window_start = window_start;
  header = header_of config cohort window_start s;
  records = s.records;
  record_bytes = s.bytes;
}

abbrev pub has_nothing : CohortState → Bool
has_nothing s = is_empty s.records && (s.received_frame_count == 0)

unfoldable pub take_flush_batch : CohortName → ℕ → Writer → Writer × Option FlushBatch
take_flush_batch cohort window_start w = elim (lookup cohort w.states) [
  | none ↦ (w, none)
  | some s ↦ (
    record w { states = without cohort w.states },
    if has_nothing s then none else some (batch_of w.config cohort window_start s),
  )
]

-- Dropping the records drops their guards.
unfoldable pub drop_records : List BufferedRecord → ℕ → ℕ
drop_records [] used = used
drop_records (r ∷ rs) used = drop_records rs (release used r.memory)

abbrev pub segment_record : BufferedRecord → SegmentRecord
segment_record r = record { receive_time = r.receive_time; frame = r.frame }

abbrev pub count_failure : CollectorCounters → CollectorCounters
count_failure c = record c { flush_failures = bump c.flush_failures }

abbrev pub count_part : CollectorCounters → CollectorCounters
count_part c = record c { flushed_parts = bump c.flushed_parts }

-- The store's answer, taken in.
unfoldable pub after_put : PutOutcome → Bytes → Bytes → Writer → Writer
after_put stored key segment w = record w {
  counters = count_part w.counters;
  objects = (key, segment) ∷ w.objects;
}
after_put failed key segment w = record w { counters = count_failure w.counters }
after_put timed_out key segment w = record w { counters = count_failure w.counters }

-- Whatever becomes of the segment, its records are dropped.
unfoldable pub put_flush : Environment → FlushBatch → Writer → Writer
put_flush env batch w =
    let freed = record w { memory = drop_records batch.records w.memory } in
    elim (write_segment batch.header (map segment_record batch.records)) [
      | err e ↦ record freed { counters = count_failure w.counters }
      | ok segment ↦
          let keyed = record freed { keys_made = suc w.keys_made } in
          elim (object_key batch.header.cohort batch.window_start (env.ulid w.keys_made)) [
            | err e ↦ record keyed { counters = count_failure w.counters }
            | ok key ↦ after_put (env.put w.keys_made) key segment keyed
          ]
    ]

abbrev pub put_if : Environment → Writer × Option FlushBatch → Writer × Bool
put_if env (w, none) = (w, false)
put_if env (w, some batch) = (put_flush env batch w, true)

unfoldable pub flush_cohort : Environment → CohortName → ℕ → Writer → Writer × Bool
flush_cohort env cohort window_start before =
    let w = fold_pending_drops cohort before in
    elim (lookup cohort w.states) [
      | none ↦ (w, false)
      | some s ↦
          if has_nothing s then (w, false) else put_if env (take_flush_batch cohort window_start w)
    ]
