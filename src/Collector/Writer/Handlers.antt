-- ===== src/Collector/Writer/Handlers.antt =====
-- What the writer's loop does with an event of the channel, with the end of a window and at the end.
use vectorseam.Base.{
  ℕ, ◌/◌, Bool, false, Option, none, some, List, [], ◌∷◌, ◌++◌, ltb, leb, if◌then◌else◌, Bytes, ok,
  err, checked_add, saturating_add, usize_max, u64_max, bump, Assoc, lookup, upsert, keys,
}
use vectorseam.Core.Cohort.{CohortName}
use vectorseam.Core.Window.{aligned_window_start}
use vectorseam.Collector.Reader.{FrameEvent}
use vectorseam.Collector.Writer.{
  WriterConfig, BufferedRecord, CohortState, default_state, Environment, Writer, is_empty,
  fold_pending_drops, fold_all_pending_drops, flush_cohort,
}

-- `flush_all`, given the keys.
unfoldable pub flush_each : Environment → List CohortName → ℕ → Writer → Writer
flush_each env [] window_start w = w
flush_each env (cohort ∷ cohorts) window_start w =
    flush_each env cohorts window_start (flush_cohort env cohort window_start w).0

unfoldable pub flush_all : Environment → ℕ → Writer → Writer
flush_all env window_start w = flush_each env (keys w.states) window_start w

-- `max_by_key` among the cohorts with records: of several largest, the last.
abbrev pub larger :
    Bytes × CohortState → Option (Bytes × CohortState) → Option (Bytes × CohortState)
larger x none = some x
larger x (some y) = if leb x.1.bytes y.1.bytes then some y else some x

unfoldable pub largest : Assoc CohortState → Option (Bytes × CohortState)
largest [] = none
largest (x ∷ states) =
    let best = largest states in if is_empty x.1.records then best else larger x best

unfoldable pub flush_largest_cohort : Environment → Writer → Writer
flush_largest_cohort env w = elim (largest w.states) [
  | none ↦ w
  | some x ↦ (flush_cohort env x.0 w.current_window_start w).0
]

abbrev pub exceeds : ℕ → Option ℕ → Bool
exceeds cap none = false
exceeds cap (some bytes) = ltb cap bytes

unfoldable pub cohort_would_exceed_cap : CohortName → ℕ → Writer → Bool
cohort_would_exceed_cap cohort record_bytes w = elim (lookup cohort w.states) [
  | none ↦ false
  | some s ↦ exceeds w.config.per_cohort_memory_bytes (checked_add usize_max s.bytes record_bytes)
]

unfoldable pub global_live_budget_is_full : Writer → Bool
global_live_budget_is_full w = leb w.config.live_memory_bytes w.memory

abbrev pub buffered : FrameEvent → BufferedRecord
buffered e = record { receive_time = e.receive_time; frame = e.frame; memory = e.memory }

abbrev pub push_record : FrameEvent → ℕ → CohortState → CohortState
push_record event record_bytes s = record {
  records = s.records ++ (buffered event ∷ []);
  bytes = saturating_add usize_max s.bytes record_bytes;
  received_frame_count = saturating_add u64_max s.received_frame_count 1;
}

unfoldable pub add_record : FrameEvent → ℕ → Writer → Writer
add_record event record_bytes w = record w {
  states = upsert event.cohort default_state (push_record event record_bytes) w.states;
  counters = record w.counters { kept_frames = bump w.counters.kept_frames };
}

-- The window that is open is closed, and its cohorts are flushed.
unfoldable pub flush_window : Environment → Writer → Writer
flush_window env w = flush_all env w.current_window_start (fold_all_pending_drops w)

unfoldable pub advance_to_receive_window : Environment → ℕ → Writer → Writer
advance_to_receive_window env receive_time w =
    elim (aligned_window_start (receive_time / 1000000) w.config.window_seconds) [
      | err e ↦ w
      | ok receive_window_start ↦
          if leb receive_window_start w.current_window_start
          then w
          else record (flush_window env w) { current_window_start = receive_window_start }
    ]

abbrev pub make_room : Environment → FrameEvent → Writer → Writer
make_room env event w =
    if cohort_would_exceed_cap event.cohort event.memory w
    then (flush_cohort env event.cohort w.current_window_start w).0
    else w

abbrev pub keep_budget : Environment → Writer → Writer
keep_budget env w = if global_live_budget_is_full w then flush_largest_cohort env w else w

unfoldable pub handle_frame : Environment → FrameEvent → Writer → Writer
handle_frame env event before =
    let w =
      fold_pending_drops event.cohort (advance_to_receive_window env event.receive_time before) in
    add_record event event.memory (keep_budget env (make_room env event w))

-- The window after the closing one; `now` is the clock, which may stand before the epoch.
unfoldable pub next_window : WriterConfig → ℕ → Option ℕ → ℕ
next_window config closing_window none = saturating_add u64_max closing_window config.window_seconds
next_window config closing_window (some now) =
    elim (aligned_window_start now config.window_seconds) [
      | ok window_start ↦ window_start
      | err e ↦ saturating_add u64_max closing_window config.window_seconds
    ]

unfoldable pub close_window : Environment → Option ℕ → Writer → Writer
close_window env now w = record (flush_window env w) {
  current_window_start = next_window w.config w.current_window_start now;
}

-- What the loop selects: an event, or the end of the sleep with the clock's reading.
pub data Signal : Type 0 where
  frame : FrameEvent → Signal
  tick : Option ℕ → Signal

unfoldable pub handle : Environment → Signal → Writer → Writer
handle env (frame event) w = handle_frame env event w
handle env (tick now) w = close_window env now w

-- The loop until the channel is closed, and the last flush.
unfoldable pub run : Environment → List Signal → Writer → Writer
run env [] w = flush_window env w
run env (s ∷ signals) w = run env signals (handle env s w)
