-- ===== src/Date/Tests.antt =====
-- The theorems on dates at single days, and what `szDate` prints.
use flimg.Prelude.{◌+◌, ◌%◌, ◌≤◌, ◌≡◌, ◌≢◌, ◌⊎◌, ◌↔◌, refl, arith, true, ◌==◌, ltb, codes}
use flimg.Date.{
  Date, dayofepoch, dayofweek, add_days, before, behind, same_date, datevalid, isvalid, next_month,
  previous_month, next_year, previous_year, sz_date, set_date, month_days, leap_year, mdays,
}
use flimg.Date.Count.{calendar_day, dayofepoch-calendar_day}
use flimg.Date.Valid.{IsReal, isvalid_lem}
use flimg.Date.Increment.{epoch, add_days_lem}
use flimg.Date.Order.{before-epoch}
use flimg.Date.Months.{IsFit, month_number, next_month_lem, previous_month_lem}
use flimg.Date.Years.{years_lem}

abbrev leap_day : Date
leap_day = record { year = 2012; month = 2; day = 29; fmt = 0 }

abbrev year_end : Date
year_end = record { year = 2015; month = 12; day = 31; fmt = 0 }

leap_day-IsReal : IsReal leap_day
unfolding month_days leap_year
leap_day-IsReal = record {
  some_year = omega arith;
  some_month = omega arith;
  month_in_year = omega arith;
  some_day = omega arith;
  day_in_month = omega arith;
}

year_end-IsReal : IsReal year_end
unfolding month_days mdays leap_year
year_end-IsReal = record {
  some_year = omega arith;
  some_month = omega arith;
  month_in_year = omega arith;
  some_day = omega arith;
  day_in_month = omega arith;
}

monday : dayofweek 2024 1 1 ≡ 1
unfolding dayofweek dayofepoch flimg.Date.dayofyear flimg.Date.jdays leap_year
    flimg.Date.epoch_years
monday = refl

printed : sz_date 4 leap_day ≡ codes "Feb 29, 2012"
unfolding sz_date flimg.Date.month_name flimg.Date.padded flimg.Cstd.print_nat
printed = refl

-- A leap year's April is taken to have 31 days.
april : isvalid 4 31 2012 ≡ true
unfolding isvalid leap_year
april = refl

dayofepoch-calendar_day_example : dayofepoch 2012 2 29 ≡ calendar_day 2012 2 29
dayofepoch-calendar_day_example =
    dayofepoch-calendar_day 2012 2 29 (omega arith) (omega arith) (omega arith)

add_days_lem_example :
    IsReal (add_days year_end 60)
    × (epoch (add_days year_end 60) ≡ epoch year_end + 60)
    × (dayofweek (add_days year_end 60).year (add_days year_end 60).month (add_days year_end 60).day
        ≡ (dayofweek 2015 12 31 + 60) % 7)
add_days_lem_example = add_days_lem 60 year_end year_end-IsReal

before-epoch_example :
    (before leap_day year_end ≡ ltb (epoch leap_day) (epoch year_end))
    × (same_date leap_day year_end ≡ (epoch leap_day == epoch year_end))
    × (behind leap_day year_end ≡ ltb (epoch year_end) (epoch leap_day))
before-epoch_example = before-epoch leap_day year_end leap_day-IsReal year_end-IsReal

isvalid_lem_example : (isvalid 2 29 2012 ≡ true) ↔ (
    (2012 ≤ 2035)
    × (1 ≤ 2)
    × (2 ≤ 12)
    × (1 ≤ 29)
    × ((29 ≤ month_days 2 (leap_year 2012)) ⊎ ((leap_year 2012 ≡ true) × (leap_day.month ≢ 2))))
isvalid_lem_example = isvalid_lem 2 29 2012

next_month_lem_example :
    ((month_number (next_month year_end) ≡ month_number year_end + 1)
      × (1 ≤ (next_month year_end).month)
      × ((next_month year_end).month ≤ 12))
    × ((((next_month year_end).year ≤ 2035)
          × IsFit
              (next_month year_end).month
              (next_month year_end).year
              31
              (next_month year_end).day)
        ⊎ ((year_end.year ≡ 2035) × (year_end.month ≡ 12) × ((next_month year_end).day ≡ 0)))
unfolding datevalid isvalid mdays leap_year
next_month_lem_example = next_month_lem year_end refl

previous_month_lem_example :
    (month_number year_end ≡ month_number (previous_month year_end) + 1)
    × IsFit
        (previous_month year_end).month
        (previous_month year_end).year
        31
        (previous_month year_end).day
unfolding datevalid isvalid mdays leap_year
previous_month_lem_example = previous_month_lem year_end refl (omega arith)

years_lem_example :
    IsReal (next_year leap_day)
    × IsReal (previous_year leap_day)
    × ((next_year leap_day).year ≡ 2012 + 1)
    × ((previous_year leap_day).year + 1 ≡ 2012)
    × ((next_year leap_day).month ≡ 2)
    × ((previous_year leap_day).month ≡ 2)
    × ((next_year leap_day).day ≡ (previous_year leap_day).day)
    × ((next_year leap_day).day ≡ 28)
years_lem_example = years_lem leap_day leap_day-IsReal (omega arith)
