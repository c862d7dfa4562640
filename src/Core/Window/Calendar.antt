-- ===== src/Core/Window/Calendar.antt =====
-- The Gregorian calendar as its rules define it, and `civil_from_days` against it.
use vectorseam.Base.{
  ℕ, ◌+◌, ◌*◌, ◌%◌, ◌≤◌, ◌<◌, ◌≡◌, ◌∙◌, ap, ap₂, sym, inl, inr, ◌⊎◌, Bool, not, ◌&&◌, ◌||◌, arith,
  ltb, leb, ◌==◌, if◌then◌else◌,
}
use vectorseam.Core.Window.{year_of_era, day_of_year, month_index, day_of_month, month_of_year}

-- A date is a year, a month from 1 to 12 and a day of the month from 1.
abbrev pub Date : Type 0
Date = ℕ × ℕ × ℕ

unfoldable pub is_leap : ℕ → Bool
is_leap y = (y % 4 == 0) && (not (y % 100 == 0) || (y % 400 == 0))

unfoldable pub days_in_month : ℕ → ℕ → ℕ
unfolding is_leap
days_in_month y m =
    if m == 2
    then (if is_leap y then 29 else 28)
    else if m == 4 || (m == 6 || (m == 9 || m == 11))
    then 30
    else 31

-- The day after a date.
unfoldable pub next_day : Date → Date
unfolding days_in_month
next_day (y, m, d) =
    if ltb d (days_in_month y m)
    then (y, m, d + 1)
    else if ltb m 12
    then (y, m + 1, 1)
    else (y + 1, 1, 1)

-- Days of the computational year that begins in March of year `yoe` of the era.
unfoldable pub year_length : ℕ → ℕ
unfolding is_leap
year_length yoe = if is_leap (yoe + 1) then 366 else 365

-- The next day is the next of the same year, or the first of the next year after the last.
pub year_step :
    (doe : ℕ)
    → doe < 146096
    → let y = year_of_era doe in
      let d = day_of_year doe y in
      let y' = year_of_era (doe + 1) in
      let d' = day_of_year (doe + 1) y' in
      ((y' ≡ y) × (d' ≡ d + 1) × (d + 1 < year_length y))
      ⊎ ((y' ≡ y + 1) × (d' ≡ 0) × (d + 1 ≡ year_length y))
unfolding year_length
year_step doe h = ground arith

abbrev month_length : ℕ → ℕ
month_length mp = days_in_month 1 (month_of_year mp)

-- Within a year the months follow one another.
month_step :
    (doy : ℕ)
    → doy < 365
    → let mp = month_index doy in
      let d = day_of_month doy mp in
      let mp' = month_index (doy + 1) in
      let d' = day_of_month (doy + 1) mp' in
      (mp' ≤ 11)
      × (((mp' ≡ mp) × (d' ≡ d + 1) × ((mp ≡ 11) ⊎ (d < month_length mp)))
          ⊎ ((mp' ≡ mp + 1) × (d' ≡ 1) × (d ≡ month_length mp)))
unfolding days_in_month
month_step doy h = ground arith

-- The date in the computational year `y`, by its month from March and its day.
unfoldable pub date_in : ℕ → ℕ → ℕ → Date
date_in y mp d = let month = month_of_year mp in (y + (if leb month 2 then 1 else 0), month, d)

february : ℕ → ℕ
february y = if is_leap (y + 1) then 29 else 28

length_in : ℕ → ℕ → ℕ
unfolding february
length_in y mp = if mp == 11 then february y else month_length mp

next_in_month :
    (y mp d : ℕ) → mp ≤ 11 → d < length_in y mp → next_day (date_in y mp d) ≡ date_in y mp (d + 1)
unfolding date_in length_in next_day
next_in_month y mp d m h = ground arith

next_month :
    (y mp d : ℕ) → mp ≤ 10 → d ≡ length_in y mp → next_day (date_in y mp d) ≡ date_in y (mp + 1) 1
unfolding date_in length_in next_day
next_month y mp d m h = ground arith

next_march : (y d : ℕ) → d ≡ length_in y 11 → next_day (date_in y 11 d) ≡ date_in (y + 1) 0 1
unfolding date_in length_in next_day
next_march y d h = ground arith

is_leap_era : (y era : ℕ) → is_leap (y + era * 400 + 1) ≡ is_leap (y + 1)
unfolding is_leap
is_leap_era y era = ground arith

year_length-february : (y era : ℕ) → year_length y ≡ 337 + february (y + era * 400)
unfolding year_length february
year_length-february y era = ground (arith, is_leap_era y era)

february_bounds : (y : ℕ) → (28 ≤ february y) × (february y ≤ 29)
unfolding february
february_bounds y = ground arith

-- The date of a day of a computational year of an era.
unfoldable pub in_year : ℕ → ℕ → ℕ → Date
in_year era yoe doy =
    date_in (yoe + era * 400) (month_index doy) (day_of_month doy (month_index doy))

fits_in_month :
    (y doy : ℕ)
    → doy + 1 < 337 + february y
    → (month_index doy ≡ 11) ⊎ (day_of_month doy (month_index doy) < month_length (month_index doy))
    → day_of_month doy (month_index doy) < length_in y (month_index doy)
unfolding length_in days_in_month
fits_in_month y doy h m = ground (arith, february_bounds y)

ends_month :
    (y doy : ℕ)
    → month_index doy ≤ 10
    → day_of_month doy (month_index doy) ≡ month_length (month_index doy)
    → day_of_month doy (month_index doy) ≡ length_in y (month_index doy)
unfolding length_in days_in_month
ends_month y doy h m = ground arith

-- Within the year, the next day is the next of the calendar.
pub same_year :
    (era yoe doy : ℕ)
    → doy + 1 < year_length yoe
    → in_year era yoe (doy + 1) ≡ next_day (in_year era yoe doy)
unfolding in_year
same_year era yoe doy h =
    let y = yoe + era * 400 in
    let mp = month_index doy in
    let d = day_of_month doy mp in
    let room : doy + 1 < 337 + february y = omega (arith, year_length-february yoe era) in
    let (top, step) = month_step doy (omega (arith, february_bounds y)) in
    elim step [
      | inl (m, e, fits) ↦
          ap₂ (date_in y) m e
          ∙ sym (next_in_month y mp d (omega arith) (fits_in_month y doy room fits))
      | inr (m, e, ends) ↦
          ap₂ (date_in y) m e
          ∙ sym (next_month y mp d (omega arith) (ends_month y doy (omega arith) ends))
    ]

last_day :
    (f doy : ℕ)
    → (f ≡ 28) ⊎ (f ≡ 29)
    → doy + 1 ≡ 337 + f
    → (month_index doy ≡ 11) × (day_of_month doy 11 ≡ f)
last_day f doy h e = ground arith

pub new_year :
    (era yoe doy : ℕ)
    → doy + 1 ≡ year_length yoe
    → in_year era (yoe + 1) 0 ≡ next_day (in_year era yoe doy)
unfolding in_year
new_year era yoe doy h =
    let y = yoe + era * 400 in
    let b = february_bounds y in
    let (m, d) =
      last_day (february y) doy (omega (arith, b.0, b.1))
        (omega (arith, year_length-february yoe era)) in
    rw m (
      ap (λ k. date_in k 0 1) (omega arith)
      ∙ sym (next_march y (day_of_month doy 11) (unfold length_in in d)))
