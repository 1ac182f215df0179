-- ===== src/Date/Increment.antt =====
-- `helpIncrement` and `operator+=` go on by days of the calendar.
use flimg.Prelude.{
  ℕ, zero, suc, ◌+◌, ◌%◌, ◌<◌, ◌≡◌, inl, inr, refl, sym, ap, ◌∙◌, arith, Bool, true, false,
  Bool-cases,
}
use flimg.Prelude.{◌==◌, ==_iff, if◌then◌else◌}
use flimg.Date.{
  Date, leap_year, month_days, dayofepoch, dayofweek, end_of_month, help_increment, add_days,
}
use flimg.Date.Count.{
  days_of_years, days_of_months, calendar_day, calendar_day-suc, dayofepoch-calendar_day,
}
use flimg.Date.Valid.{IsReal, month_days_bound, end_of_month_lem}

-- The number of a date.
abbrev pub epoch : Date → ℕ
epoch dt = dayofepoch dt.year dt.month dt.day

abbrev IsDayAfter : Date → Date → Type 0
IsDayAfter dt next = IsReal next × (epoch next ≡ epoch dt + 1)

year_end : (leap : Bool) → days_of_months leap 11 + 31 ≡ (if leap then 366 else 365)
unfolding days_of_months month_days flimg.Date.mdays
year_end true = refl
year_end false = refl

no_month : (leap : Bool) → days_of_months leap 0 ≡ 0
unfolding days_of_months
no_month leap = refl

december : (leap : Bool) → month_days 12 leap ≡ 31
unfolding month_days flimg.Date.mdays
december leap = refl

next_in_month : (y m d : ℕ) → calendar_day y m (d + 1) ≡ calendar_day y m d + 1
unfolding calendar_day
next_in_month y m d = omega arith

next_in_year :
    (y m : ℕ)
    → calendar_day (suc y) (suc (suc m)) 1
      ≡ calendar_day (suc y) (suc m) (month_days (suc m) (leap_year (suc y))) + 1
unfolding days_of_months
next_in_year y m =
    calendar_day-suc y (suc m) 1
    ∙ omega (arith, calendar_day-suc y m (month_days (suc m) (leap_year (suc y))))

next_of_years : (y : ℕ) → calendar_day (suc (suc y)) 1 1 ≡ calendar_day (suc y) 12 31 + 1
unfolding days_of_years
next_of_years y =
    calendar_day-suc (suc y) 0 1
    ∙ ground (
      arith,
      calendar_day-suc y 11 31,
      year_end (leap_year (suc y)),
      no_month (leap_year (suc (suc y))),
    )

-- Within a month; at a month's end; at the year's end.
module _ (y m d f : ℕ) (r : IsReal (record { year = suc y; month = suc m; day = d; fmt = f })) where
  abbrev here : Date
  here = record { year = suc y; month = suc m; day = d; fmt = f }

  epoch_counts :
      (next : Date)
      → IsReal next
      → calendar_day next.year next.month next.day ≡ calendar_day (suc y) (suc m) d + 1
      → IsDayAfter here next
  epoch_counts next n e = (
    n,
    dayofepoch-calendar_day next.year next.month next.day n.some_year n.some_month n.month_in_year
        ∙ e
        ∙ ap (λ k. k + 1)
            (sym
              (dayofepoch-calendar_day (suc y) (suc m) d r.some_year r.some_month r.month_in_year)),
  )

  same_month :
      (d == month_days (suc m) (leap_year (suc y))) ≡ false
      → IsDayAfter here (record here { day = d + 1 })
  same_month e =
      epoch_counts _
        (record {
          some_year = r.some_year;
          some_month = r.some_month;
          month_in_year = r.month_in_year;
          some_day = omega arith;
          day_in_month = ground (arith, r.day_in_month);
        })
        (next_in_month (suc y) (suc m) d)

  same_year :
      d ≡ month_days (suc m) (leap_year (suc y))
      → suc m < 12
      → IsDayAfter here (record here { day = 1; month = suc (suc m) })
  same_year e lt =
      epoch_counts _
        (record {
          some_year = r.some_year;
          some_month = omega arith;
          month_in_year = omega arith;
          some_day = omega arith;
          day_in_month = omega (arith, month_days_bound (suc (suc m)) (leap_year (suc y)));
        })
        (next_in_year y m ∙ ap (λ k. calendar_day (suc y) (suc m) k + 1) (sym e))

  new_year :
      d ≡ month_days (suc m) (leap_year (suc y))
      → m ≡ 11
      → IsDayAfter here (record here { day = 1; month = 1; year = suc (suc y) })
  unfolding month_days calendar_day flimg.Date.mdays
  new_year e last =
      epoch_counts _
        (record {
          some_year = omega arith;
          some_month = omega arith;
          month_in_year = omega arith;
          some_day = omega arith;
          day_in_month = omega (arith, month_days_bound 1 (leap_year (suc (suc y))));
        })
        (next_of_years y
          ∙ ap (λ k. calendar_day (suc y) 12 k + 1)
              (sym (e ∙ ap (λ k. month_days (suc k) (leap_year (suc y))) last))
          ∙ ap (λ k. calendar_day (suc y) (suc k) d + 1) (sym last))

  is_last : Bool
  is_last = d == month_days (suc m) (leap_year (suc y))

  goes_on : (b : Bool) → is_last ≡ b → end_of_month here d ≡ b
  unfolding is_last
  goes_on b e = end_of_month_lem here d ∙ e

  next_day : IsDayAfter here (help_increment here)
  unfolding help_increment is_last
  next_day = elim (Bool-cases is_last) [
    | inr e ↦ rw (goes_on false e) (same_month e)
    | inl e ↦ elim (Bool-cases (suc m == 12)) [
      | inl l ↦
          rw (goes_on true e, l, one_more (suc y)) (new_year ((==_iff _ _).0 e) (ground arith))
      | inr l ↦
          rw (goes_on true e, l, one_more (suc m))
            (same_year ((==_iff _ _).0 e) (ground (arith, r.month_in_year)))
    ]
  ]
    where
      one_more : (n : ℕ) → n + 1 ≡ suc n
      one_more n = omega arith

next_day_of :
    (y m d f : ℕ)
    → IsReal (record { year = y; month = m; day = d; fmt = f })
    → IsDayAfter
        (record { year = y; month = m; day = d; fmt = f })
        (help_increment (record { year = y; month = m; day = d; fmt = f }))
next_day_of zero m d f r = absurd (omega (arith, r.some_year))
next_day_of (suc y) zero d f r = absurd (omega (arith, r.some_month))
next_day_of (suc y) (suc m) d f r = next_day y m d f r

help_increment_lem : (dt : Date) → IsReal dt → IsDayAfter dt (help_increment dt)
help_increment_lem dt r = next_day_of dt.year dt.month dt.day dt.fmt r

-- From a day of the calendar, `operator+=` reaches a day of the calendar whose number is higher by
-- the number of days added, and the weekday is higher by as much, modulo 7.
pub add_days_lem :
    (n : ℕ) (dt : Date)
    → IsReal dt
    → IsReal (add_days dt n)
      × (epoch (add_days dt n) ≡ epoch dt + n)
      × (dayofweek (add_days dt n).year (add_days dt n).month (add_days dt n).day
          ≡ (dayofweek dt.year dt.month dt.day + n) % 7)
unfolding add_days dayofweek
add_days_lem zero dt r = (r, omega arith, omega arith)
add_days_lem (suc n) dt r =
    let (real, e) = help_increment_lem dt r in
    let (last, f, g) = add_days_lem n (help_increment dt) real in (last, omega arith, omega arith)
