-- ===== src/Collector/Time.antt =====
-- crates/vectorseam-collector/src/time.rs: the clock is the time since the epoch in seconds and the
-- microseconds of the second, or nothing when it stands before the epoch.
use vectorseam.Base.{ℕ, ◌-◌, ◌*◌, Option, none, some, leb, if◌then◌else◌, checked_add, u64_max}

abbrev pub Clock : Type 0
Clock = Option (ℕ × ℕ)

-- Whole seconds.
unfoldable pub duration_until_unix_second : Clock → ℕ → ℕ
duration_until_unix_second none target_second = 0
duration_until_unix_second (some now) target_second =
    if leb target_second now.0 then 0 else target_second - now.0

unfoldable pub unix_seconds_now : Clock → Option ℕ
unix_seconds_now none = none
unix_seconds_now (some now) = some now.0

unfoldable pub unix_micros_now : Clock → Option ℕ
unix_micros_now none = none
unix_micros_now (some now) =
    if leb (now.0 * 1000000) u64_max then checked_add u64_max (now.0 * 1000000) now.1 else none
