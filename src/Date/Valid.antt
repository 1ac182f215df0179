-- ===== src/Date/Valid.antt =====
-- The days that the calendar has, and those that `isvalid` accepts.
use flimg.Prelude.{
  ℕ, zero, suc, ◌≤◌, ◌<◌, ◌≡◌, ◌≢◌, ◌↔◌, ◌⊎◌, inl, inr, refl, ap, arith, Bool, true, false, ◌&&◌,
  Bool-cases,
}
use flimg.Prelude.{leb, ◌==◌, leb→le, ==_iff, if◌then◌else◌}
use flimg.Prelude.Table.{each_below, each_below_lookup}
use flimg.Date.{Date, leap_year, isvalid, month_days, mdays, end_of_month}

-- A day of the calendar.
pub record IsReal (dt : Date) : Type 0 where
  pub some_year : 1 ≤ dt.year
  pub some_month : 1 ≤ dt.month
  pub month_in_year : dt.month ≤ 12
  pub some_day : 1 ≤ dt.day
  pub day_in_month : dt.day ≤ month_days dt.month (leap_year dt.year)

long_enough : (month : ℕ) → month < 12 → 28 ≤ mdays (suc month)
unfolding mdays each_below
long_enough month h = leb→le 28 _ (each_below_lookup (λ m. leb 28 (mdays (suc m))) month 12 refl h)

pub month_days_bound :
    (month : ℕ) (leap : Bool) → 1 ≤ month → month ≤ 12 → 28 ≤ month_days month leap
unfolding month_days
month_days_bound zero leap p q = absurd (omega arith)
month_days_bound (suc month) leap p q = ground (arith, long_enough month (omega arith))

pub end_of_month_lem :
    (dt : Date) (d : ℕ) → end_of_month dt d ≡ (d == month_days dt.month (leap_year dt.year))
unfolding end_of_month month_days mdays
end_of_month_lem dt d = last_day dt.month (leap_year dt.year)
  where
    last_day :
        (month : ℕ) (leap : Bool)
        → (if (month == 2) && leap then d == 29 else d == mdays month)
          ≡ (d == (if month == 2 then (if leap then 29 else 28) else mdays month))
    last_day month true = ground arith
    last_day month false = elim (Bool-cases (month == 2)) [
      | inl e ↦ rw ((==_iff month 2).0 e) refl
      | inr e ↦ rw e refl
    ]

february : (m : ℕ) → (m == 2) ≡ true → mdays m ≡ 28
unfolding mdays
february m e = ap mdays ((==_iff m 2).0 e)

-- `isvalid` accepts a day of the years up to 2035 exactly if the calendar has it, or if the year
-- is a leap year, the month any but February and the day at least 1.
pub isvalid_lem :
    (m d y : ℕ)
    → (isvalid m d y ≡ true) ↔ (
        (y ≤ 2035)
        × (1 ≤ m)
        × (m ≤ 12)
        × (1 ≤ d)
        × ((d ≤ month_days m (leap_year y)) ⊎ ((leap_year y ≡ true) × (m ≢ 2))))
unfolding isvalid month_days
isvalid_lem m d y = (grind (arith, february m), grind (arith, february m))
