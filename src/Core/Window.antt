-- ===== src/Core/Window.antt =====
-- crates/vectorseam-core/src/window.rs: window arithmetic and object keys. Times are `u64` seconds. The
-- day number that `civil_from_days` is given is never negative, so its `i64` is a natural number here
-- and the branch of `era` for negative days is out of reach.
pub mod Align
pub mod Calendar
pub mod Civil
use vectorseam.Base.{
  ℕ, zero, suc, ◌+◌, ◌-◌, ◌*◌, ◌/◌, ◌%◌, List, [], ◌∷◌, ◌++◌, ltb, leb, ◌==◌, if◌then◌else◌, Bytes,
  codes, length, true, false, Result, ok, err, ◌>>=◌, ok_or, try_from, checked_add, i64_max,
}
use vectorseam.Core.Cohort.{CohortName}

abbrev pub seconds_per_day : ℕ
seconds_per_day = 86400

abbrev pub seconds_per_hour : ℕ
seconds_per_hour = 3600

abbrev pub seconds_per_minute : ℕ
seconds_per_minute = 60

pub data WindowError : Type 0 where
  zero_duration timestamp_out_of_range : WindowError

unfoldable pub aligned_window_start : ℕ → ℕ → Result WindowError ℕ
aligned_window_start unix_seconds window_seconds =
    if window_seconds == 0
    then err zero_duration
    else ok (unix_seconds - unix_seconds % window_seconds)

-- Howard Hinnant's algorithm, step by step: the year of the era, the day of that year, the month
-- counted from March.
abbrev pub year_of_era : ℕ → ℕ
year_of_era doe = (doe - doe / 1460 + doe / 36524 - doe / 146096) / 365

abbrev pub day_of_year : ℕ → ℕ → ℕ
day_of_year doe yoe = doe - (365 * yoe + yoe / 4 - yoe / 100)

abbrev pub month_index : ℕ → ℕ
month_index doy = (5 * doy + 2) / 153

abbrev pub day_of_month : ℕ → ℕ → ℕ
day_of_month doy mp = doy - (153 * mp + 2) / 5 + 1

abbrev pub month_of_year : ℕ → ℕ
month_of_year mp = if ltb mp 10 then mp + 3 else mp - 9

unfoldable pub civil_of : ℕ → ℕ × ℕ × ℕ
civil_of z =
    let era = z / 146097 in
    let doe = z - era * 146097 in
    let yoe = year_of_era doe in
    let year = yoe + era * 400 in
    let doy = day_of_year doe yoe in
    let mp = month_index doy in
    let day = day_of_month doy mp in
    let month = month_of_year mp in
    let adjusted_year = year + (if leb month 2 then 1 else 0) in (adjusted_year, month, day)

unfoldable pub civil_from_days : ℕ → Result WindowError (ℕ × ℕ × ℕ)
civil_from_days days = do
  z ← ok_or (checked_add i64_max days 719468) timestamp_out_of_range
  ok (civil_of z)

-- `{n}` of a format string, on fuel: twenty digits hold every `u64` and `i64`.
unfoldable pub digits : ℕ → ℕ → Bytes
digits zero n = []
digits (suc fuel) n = elim (ltb n 10) [
  | true ↦ (b'0' + n) ∷ []
  | false ↦ digits fuel (n / 10) ++ ((b'0' + n % 10) ∷ [])
]

abbrev replicate : ℕ → ℕ → Bytes
replicate zero b = []
replicate (suc n) b = b ∷ replicate n b

-- `{n:0width}`
unfoldable pub padded : ℕ → ℕ → Bytes
unfolding digits
padded width n = let text = digits 20 n in replicate (width - length text) b'0' ++ text

unfoldable pub format_window_timestamp : ℕ → Result WindowError Bytes
unfolding padded
format_window_timestamp window_start = do
  let days = window_start / seconds_per_day
  let seconds_of_day = window_start % seconds_per_day
  days_i64 ← ok_or (try_from i64_max days) timestamp_out_of_range
  (year, month, day) ← civil_from_days days_i64
  let hour = seconds_of_day / seconds_per_hour
  let minute = seconds_of_day % seconds_per_hour / seconds_per_minute
  ok (
      padded 4 year
      ++ (padded 2 month
          ++ (padded 2 day ++ (codes "T" ++ (padded 2 hour ++ (padded 2 minute ++ codes "Z"))))))

-- `part` is the text of a ULID, which the `ulid` crate makes.
unfoldable pub object_key : CohortName → ℕ → Bytes → Result WindowError Bytes
object_key cohort window_start part = do
  timestamp ← format_window_timestamp window_start
  ok (
      codes "cohorts/"
      ++ (cohort
          ++ (codes "/window=" ++ (timestamp ++ (codes "/part-" ++ (part ++ codes ".vseam"))))))
