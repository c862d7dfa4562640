-- ===== src/Seam/Daemon.antt =====
-- crates/seam/src/daemon.rs: the single-flight schedule of rounds and their time stamps. An `Instant` is the nanoseconds since
-- some fixed moment, and a `Duration` is nanoseconds; adding them is taken not to overflow.
pub mod Ticks
use vectorseam.Core.Window.{WindowError, aligned_window_start, format_window_timestamp, padded}
use vectorseam.Base.{
  ℕ, zero, suc, ◌+◌, ◌-◌, ◌*◌, ◌/◌, ◌%◌, Bool, true, false, ltb, leb, if◌then◌else◌, Option, none,
  some, List, [], ◌∷◌, ◌++◌, Bytes, codes, slice, Result, ok, err, ◌>>=◌, ok_or, map_err,
  checked_add, u64_max,
}

-- The next tick, and how many ticks the round has crossed; `interval` is not zero.
unfoldable pub next_tick_after_round : ℕ → ℕ → ℕ → ℕ × ℕ
next_tick_after_round previous_tick now interval =
    let candidate = previous_tick + interval in
    let overdue = now - candidate in
    let skipped_ticks = overdue / interval + 1 in
    let elapsed_in_interval = overdue % interval in
    let until_next = interval - elapsed_in_interval in
    if ltb now candidate then (candidate, 0) else (now + until_next, skipped_ticks)

-- The failures of the loop; those of starting and of signals are left out.
pub data DaemonError : Type 0 where
  clock_before_unix_epoch timestamp_overflow : DaemonError
  window : WindowError → DaemonError

pub record RoundTimestamps : Type 0 where
  pub round_end : ℕ
  pub computed_at : Bytes
  pub computed_at_us : ℕ

-- `checked_mul(1_000_000)`
abbrev pub micros_of : ℕ → Option ℕ
micros_of seconds = if leb (seconds * 1000000) u64_max then some (seconds * 1000000) else none

-- The clock in seconds and the microseconds of the second.
unfoldable pub round_timestamps : ℕ → ℕ → ℕ → Result DaemonError RoundTimestamps
round_timestamps unix_seconds subsec_micros storage_window_seconds = do
  compact ← map_err DaemonError.window (format_window_timestamp unix_seconds)
  micros ← ok_or (micros_of unix_seconds) timestamp_overflow
  computed_at_us ← ok_or (checked_add u64_max micros subsec_micros) timestamp_overflow
  round_end ← map_err DaemonError.window (aligned_window_start unix_seconds storage_window_seconds)
  ok (record {
    round_end = round_end;
    computed_at =
        slice compact 0 4
        ++ (codes "-"
            ++ (slice compact 4 6
                ++ (codes "-"
                    ++ (slice compact 6 8
                        ++ (codes "T"
                            ++ (slice compact 9 11
                                ++ (codes ":"
                                    ++ (slice compact 11 13
                                        ++ (codes ":"
                                            ++ (padded 2 (unix_seconds % 60) ++ codes "Z"))))))))));
    computed_at_us = computed_at_us;
  })

unfoldable pub current_round_timestamps : Option (ℕ × ℕ) → ℕ → Result DaemonError RoundTimestamps
unfolding round_timestamps
current_round_timestamps none storage_window_seconds = err clock_before_unix_epoch
current_round_timestamps (some (seconds, micros)) storage_window_seconds =
    round_timestamps seconds micros storage_window_seconds

-- What a turn of the loop meets: the cancellation before the round, the clock, the cancellation by the
-- round's end, and the moment of that end.
pub record Turn : Type 0 where
  pub is_cancelled : Bool
  pub since_epoch : Option (ℕ × ℕ)
  pub is_stopped : Bool
  pub now : ℕ

-- `run_round_loop`, on the turns to come: the rounds that are run, each with its tick.
unfoldable pub run_round_loop :
    ℕ → ℕ → ℕ → List Turn → Result DaemonError (List (ℕ × RoundTimestamps))
unfolding current_round_timestamps next_tick_after_round
run_round_loop storage_window_seconds interval scheduled_tick [] = ok []
run_round_loop storage_window_seconds interval scheduled_tick (turn ∷ turns) =
    let next_tick = (next_tick_after_round scheduled_tick turn.now interval).0 in
    let later = run_round_loop storage_window_seconds interval next_tick turns in
    if turn.is_cancelled
    then ok []
    else (current_round_timestamps turn.since_epoch storage_window_seconds >>= λ timestamps.
        if turn.is_stopped
        then ok ((scheduled_tick, timestamps) ∷ [])
        else (later >>= λ rounds. ok ((scheduled_tick, timestamps) ∷ rounds)))
