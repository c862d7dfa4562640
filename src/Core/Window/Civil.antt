-- ===== src/Core/Window/Civil.antt =====
-- `civil_from_days` follows the calendar day by day from 1 January 1970.
use vectorseam.Base.{
  ℕ, zero, suc, ◌+◌, ◌-◌, ◌*◌, ◌/◌, ◌%◌, ◌≤◌, ◌<◌, ◌≡◌, refl, ◌∙◌, ap, ap₂, sym, ◌⊎◌, inl, inr,
  arith, ok, i64_max, le→leb,
}
use vectorseam.Core.Window.{year_of_era, day_of_year, civil_of, civil_from_days}
use vectorseam.Core.Window.Calendar.{
  is_leap, Date, next_day, in_year, date_in, year_length, year_step, same_year, new_year,
}

civil_of-in_year :
    (z era doe : ℕ)
    → doe < 146097
    → z ≡ era * 146097 + doe
    → civil_of z ≡ in_year era (year_of_era doe) (day_of_year doe (year_of_era doe))
unfolding civil_of in_year date_in
civil_of-in_year z era doe h e =
    let p : z / 146097 ≡ era = omega arith in
    let q : z - era * 146097 ≡ doe = omega arith in rw (p, q)

in_era :
    (era doe : ℕ)
    → doe < 146096
    → in_year era (year_of_era (doe + 1)) (day_of_year (doe + 1) (year_of_era (doe + 1)))
      ≡ next_day (in_year era (year_of_era doe) (day_of_year doe (year_of_era doe)))
in_era era doe h = elim (year_step doe h) [
  | inl (y, d, l) ↦
      ap₂ (in_year era) y d
      ∙ same_year era (year_of_era doe) (day_of_year doe (year_of_era doe)) (omega arith)
  | inr (y, d, l) ↦
      ap₂ (in_year era) y d ∙ new_year era (year_of_era doe) (day_of_year doe (year_of_era doe)) l
]

next_era : (era : ℕ) → in_year (era + 1) 0 0 ≡ in_year era 400 0
unfolding in_year
next_era era = ap (λ y. date_in y 0 1) (omega arith)

-- The last day of an era, and the first of the next.
over_era : (era : ℕ) → in_year (era + 1) 0 0 ≡ next_day (in_year era 399 365)
over_era era = next_era era ∙ new_year era 399 365 (unfold year_length is_leap in refl)

Era_or_end : (doe : ℕ) → doe < 146097 → (doe < 146096) ⊎ (doe ≡ 146096)
Era_or_end doe h = omega arith

-- One more day is the next day of the calendar.
civil_of_step : (z : ℕ) → civil_of (z + 1) ≡ next_day (civil_of z)
civil_of_step z =
    let era = z / 146097 in
    let doe = z % 146097 in
    let here = civil_of-in_year z era doe (omega arith) (omega arith) in
    elim (Era_or_end doe (omega arith)) [
      | inl h ↦
          civil_of-in_year (z + 1) era (doe + 1) (omega arith) (omega arith)
          ∙ in_era era doe h
          ∙ ap next_day (sym here)
      | inr e ↦
          civil_of-in_year (z + 1) (era + 1) 0 (omega arith) (omega arith)
          ∙ over_era era
          ∙ ap next_day
              (sym (here ∙ ap (λ k. in_year era (year_of_era k) (day_of_year k (year_of_era k))) e))
    ]

-- 1 January 1970.
abbrev pub epoch : Date
epoch = (1970, 1, 1)

-- The date that many days after the epoch, counted one by one.
unfoldable pub days_after_epoch : ℕ → Date
days_after_epoch zero = epoch
days_after_epoch (suc n) = next_day (days_after_epoch n)

civil_of-days_after : (n : ℕ) → civil_of (n + 719468) ≡ days_after_epoch n
unfolding days_after_epoch
civil_of-days_after zero = unfold civil_of in refl
civil_of-days_after (suc n) =
    ap civil_of (omega arith) ∙ civil_of_step (n + 719468) ∙ ap next_day (civil_of-days_after n)

-- For every day number that does not overflow, the result is the date that many days after 1 January
-- 1970 in the Gregorian calendar.
pub civil_from_days-days_after_epoch :
    (n : ℕ) → n + 719468 ≤ i64_max → civil_from_days n ≡ ok (days_after_epoch n)
unfolding civil_from_days
civil_from_days-days_after_epoch n h =
    rw (le→leb (n + 719468) i64_max h) (ap ok (civil_of-days_after n))
