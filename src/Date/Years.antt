-- ===== src/Date/Years.antt =====
-- `next_year`, `previous_year` and `setDate` give days of the calendar.
use flimg.Prelude.{ℕ, ◌+◌, ◌-◌, ◌≤◌, ◌≡◌, refl, arith, Bool, true, false, ◌&&◌}
use flimg.Prelude.{◌==◌, if◌then◌else◌}
use flimg.Date.{Date, leap_year, month_days, next_year, previous_year}
use flimg.Date.Valid.{IsReal}

-- Only February differs between the years.
other_leap :
    (month day : ℕ) (leap next : Bool)
    → day ≤ month_days month leap
    → (if (month == 2) && (day == 29) then 28 else day) ≤ month_days month next
unfolding month_days
other_leap month day true true h = ground arith
other_leap month day true false h = ground arith
other_leap month day false true h = ground arith
other_leap month day false false h = ground arith

kept_day : (month day : ℕ) → 1 ≤ day → 1 ≤ (if (month == 2) && (day == 29) then 28 else day)
kept_day month day h = ground arith

-- A day of the calendar stays one in the next year, the one behind its own, and, from year 2 on, in
-- the year before, and keeps its month; the 29th of February becomes the 28th, and every other day stays the same.
pub years_lem :
    (dt : Date)
    → IsReal dt
    → 2 ≤ dt.year
    → IsReal (next_year dt)
      × IsReal (previous_year dt)
      × ((next_year dt).year ≡ dt.year + 1)
      × ((previous_year dt).year + 1 ≡ dt.year)
      × ((next_year dt).month ≡ dt.month)
      × ((previous_year dt).month ≡ dt.month)
      × ((next_year dt).day ≡ (previous_year dt).day)
      × ((next_year dt).day ≡ (if (dt.month == 2) && (dt.day == 29) then 28 else dt.day))
unfolding next_year previous_year
years_lem dt r h = (
  record {
    some_year = omega arith;
    some_month = r.some_month;
    month_in_year = r.month_in_year;
    some_day = kept_day dt.month dt.day r.some_day;
    day_in_month = other_leap dt.month dt.day _ (leap_year (dt.year + 1)) r.day_in_month;
  },
  record {
    some_year = omega arith;
    some_month = r.some_month;
    month_in_year = r.month_in_year;
    some_day = kept_day dt.month dt.day r.some_day;
    day_in_month = other_leap dt.month dt.day _ (leap_year (dt.year - 1)) r.day_in_month;
  },
  refl,
  omega arith,
  refl,
  refl,
  refl,
  refl,
)
