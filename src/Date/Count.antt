-- ===== src/Date/Count.antt =====
-- `dayofepoch` counts the days of the calendar.
use flimg.Prelude.{
  ℕ, zero, suc, ◌+◌, ◌-◌, ◌*◌, ◌/◌, ◌%◌, ◌≤◌, ◌<◌, ◌≡◌, refl, sym, ap, ap₂, ◌∙◌, arith, Bool, true,
  false, ◌&&◌, ◌||◌, not, Bool-cases, inl, inr,
}
use flimg.Prelude.{ltb, leb, ◌==◌, if◌then◌else◌}
use flimg.Prelude.Table.{eq_by_table}
use flimg.Date.{leap_year, month_days, mdays, jdays, dayofyear, epoch_years, dayofepoch}

-- The number of a day: every year and month before it is counted out.
unfoldable pub days_of_years : ℕ → ℕ
days_of_years zero = 0
days_of_years (suc y) = days_of_years y + (if leap_year (suc y) then 366 else 365)

unfoldable pub days_of_months : Bool → ℕ → ℕ
days_of_months leap zero = 0
days_of_months leap (suc m) = days_of_months leap m + month_days (suc m) leap

unfoldable pub calendar_day : ℕ → ℕ → ℕ → ℕ
calendar_day year month day =
    days_of_years (year - 1) + days_of_months (leap_year year) (month - 1) + day

div_step4 : (n : ℕ) → (n + 1) / 4 ≡ n / 4 + (if (n + 1) % 4 == 0 then 1 else 0)
div_step4 n = ground arith

div_step100 : (n : ℕ) → (n + 1) / 100 ≡ n / 100 + (if (n + 1) % 100 == 0 then 1 else 0)
div_step100 n = ground arith

div_step400 : (n : ℕ) → (n + 1) / 400 ≡ n / 400 + (if (n + 1) % 400 == 0 then 1 else 0)
div_step400 n = ground arith

epoch_years_lem : (n : ℕ) → epoch_years n + n / 100 ≡ 365 * n + n / 4 + n / 400
unfolding epoch_years
epoch_years_lem n = omega arith

leap_days :
    (y : ℕ)
    → (if y % 4 == 0 then 1 else 0) + (if y % 400 == 0 then 1 else 0)
      ≡ (if y % 100 == 0 then 1 else 0) + (if leap_year y then 1 else 0)
unfolding leap_year
leap_days y = ground arith

days_of_years_lem : (n : ℕ) → days_of_years n + n / 100 ≡ 365 * n + n / 4 + n / 400
unfolding days_of_years
days_of_years_lem zero = refl
days_of_years_lem (suc n) =
    ground
      (arith, days_of_years_lem n, div_step4 n, div_step100 n, div_step400 n, leap_days (suc n))

pub days_of_months_lem : (leap : Bool) (m : ℕ) → m < 12 → days_of_months leap m ≡ jdays leap (suc m)
unfolding days_of_months jdays month_days mdays flimg.Prelude.Table.each_below
days_of_months_lem true m h =
    eq_by_table (days_of_months true) (λ m. jdays true (suc m)) 12 refl m h
days_of_months_lem false m h =
    eq_by_table (days_of_months false) (λ m. jdays false (suc m)) 12 refl m h

before_suc : (n : ℕ) → suc n - 1 ≡ n
before_suc n = omega arith

pub calendar_day-suc :
    (y m day : ℕ)
    → calendar_day (suc y) (suc m) day
      ≡ days_of_years y + days_of_months (leap_year (suc y)) m + day
unfolding calendar_day
calendar_day-suc y m day =
    ap₂ (λ a b. days_of_years a + days_of_months (leap_year (suc y)) b + day) (before_suc y)
      (before_suc m)

counted_out :
    (year m day : ℕ)
    → m < 12
    → dayofepoch year (suc m) day
      ≡ days_of_years (year - 1) + days_of_months (leap_year year) m + day
unfolding dayofepoch dayofyear
counted_out year m day h = omega (
  arith,
  epoch_years_lem (year - 1),
  days_of_years_lem (year - 1),
  days_of_months_lem (leap_year year) m h,
)

-- `dayofepoch` of a day in a year from 1 on and in a month from 1 to 12 is the number of days of the years before, of
-- the months before and of the month up to it, each year and month counted out by its length.
pub dayofepoch-calendar_day :
    (year month day : ℕ)
    → 1 ≤ year
    → 1 ≤ month
    → month ≤ 12
    → dayofepoch year month day ≡ calendar_day year month day
unfolding calendar_day
dayofepoch-calendar_day year zero day y p q = absurd (omega arith)
dayofepoch-calendar_day year (suc m) day y p q =
    counted_out year m day (omega arith)
    ∙ ap (λ k. days_of_years (year - 1) + days_of_months (leap_year year) k + day)
        (sym (before_suc m))
