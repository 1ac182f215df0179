-- ===== src/Date/Months.antt =====
-- `next_month` and `previous_month`: the day is the last one that `isvalid` accepts.
use flimg.Prelude.{
  ℕ, zero, suc, ◌+◌, ◌*◌, ◌≤◌, ◌<◌, ◌≡◌, ◌⊎◌, inl, inr, refl, arith, true, false, Bool-cases,
}
use flimg.Prelude.{leb, leb→le, ◌==◌, ==_iff}
use flimg.Date.{Date, leap_year, isvalid, datevalid, fit_day, next_month, previous_month}
use flimg.Date.Valid.{month_days_bound, isvalid_lem}

-- `fit` is the last day of the month up to `day` that `isvalid` accepts.
pub record IsFit (month year day fit : ℕ) : Type 0 where
  pub valid : isvalid month fit year ≡ true
  pub not_later : fit ≤ day
  pub last : (d : ℕ) → fit < d → d ≤ day → isvalid month d year ≡ false

fit_day-IsFit :
    (month year day : ℕ)
    → isvalid month 1 year ≡ true
    → 1 ≤ day
    → IsFit month year day (fit_day month year day)
unfolding fit_day
fit_day-IsFit month year zero first h = absurd (omega arith)
fit_day-IsFit month year (suc zero) first h =
    rw first
      (record { valid = first; not_later = omega arith; last = λ d p q. absurd (omega arith) })
fit_day-IsFit month year (suc (suc k)) first h =
    elim (Bool-cases (isvalid month (suc (suc k)) year)) [
      | inl e ↦
          rw e (record { valid = e; not_later = omega arith; last = λ d p q. absurd (omega arith) })
      | inr e ↦
          let f = fit_day-IsFit month year (suc k) first (omega arith) in
          rw e (record {
            valid = f.valid;
            not_later = omega (arith, f.not_later);
            last = λ d p q. elim (Bool-cases (d == suc (suc k))) [
              | inl g ↦ rw ((==_iff d (suc (suc k))).0 g) e
              | inr g ↦ f.last d p (ground arith)
            ];
          })
    ]

beyond : (month day year : ℕ) → 2035 < year → isvalid month day year ≡ false
unfolding isvalid
beyond month day year h = ground arith

-- Behind the last year that `isvalid` knows, no day is left.
fit_day-none : (month year day : ℕ) → 2035 < year → fit_day month year day ≡ 0
unfolding fit_day
fit_day-none month year zero h = refl
fit_day-none month year (suc d) h = rw (beyond month (suc d) year h) (fit_day-none month year d h)

first_valid : (month year : ℕ) → 1 ≤ month → month ≤ 12 → year ≤ 2035 → isvalid month 1 year ≡ true
first_valid month year p q h =
    (isvalid_lem month 1 year).1
      (h, p, q, omega arith, inl (omega (arith, month_days_bound month (leap_year year) p q)))

-- The months are counted through the years.
abbrev pub month_number : Date → ℕ
month_number dt = dt.year * 12 + dt.month

abbrev IsNextMonth : Date → Date → Type 0
IsNextMonth dt next =
    (month_number next ≡ month_number dt + 1) × (1 ≤ next.month) × (next.month ≤ 12)

next_month_number : (dt : Date) → 1 ≤ dt.month → dt.month ≤ 12 → IsNextMonth dt (next_month dt)
unfolding next_month
next_month_number dt p q = (ground arith, ground arith, ground arith)

previous_month_number :
    (dt : Date)
    → 1 ≤ dt.month
    → dt.month ≤ 12
    → 1 ≤ dt.year
    → IsNextMonth (previous_month dt) dt
      × (1 ≤ (previous_month dt).month)
      × ((previous_month dt).month ≤ 12)
      × ((previous_month dt).year ≤ dt.year)
unfolding previous_month
previous_month_number dt p q h = ((ground arith, p, q), ground arith, ground arith, ground arith)

-- From a valid date, `next_month` goes to the month that follows. Up to 2035 it takes the last day
-- of that month that `isvalid` accepts and that is not later in the month; from December 2035 it
-- goes to day 0.
pub next_month_lem :
    (dt : Date)
    → datevalid dt ≡ true
    → IsNextMonth dt (next_month dt)
      × ((((next_month dt).year ≤ 2035)
            × IsFit (next_month dt).month (next_month dt).year dt.day (next_month dt).day)
          ⊎ ((dt.year ≡ 2035) × (dt.month ≡ 12) × ((next_month dt).day ≡ 0)))
unfolding datevalid next_month
next_month_lem dt v =
    let (year, some_month, in_year, some_day, length) = (isvalid_lem dt.month dt.day dt.year).0 v in
    let (number, low, high) = next_month_number dt some_month in_year in
    (
      (number, low, high),
      elim (Bool-cases (leb (next_month dt).year 2035)) [
        | inl e ↦
            let h : (next_month dt).year ≤ 2035 = leb→le _ _ e in
            inl (h, fit_day-IsFit _ _ dt.day (first_valid _ _ low high h) some_day)
        | inr e ↦ inr (ground arith, ground arith, fit_day-none _ _ dt.day (ground arith))
      ],
    )

-- From a valid date of a year from 1 on, `previous_month` goes to the month before, and takes its
-- last day that `isvalid` accepts and that is not later in the month.
pub previous_month_lem :
    (dt : Date)
    → datevalid dt ≡ true
    → 1 ≤ dt.year
    → (month_number dt ≡ month_number (previous_month dt) + 1)
      × IsFit (previous_month dt).month (previous_month dt).year dt.day (previous_month dt).day
unfolding datevalid previous_month
previous_month_lem dt v h =
    let (year, some_month, in_year, some_day, length) = (isvalid_lem dt.month dt.day dt.year).0 v in
    let ((number, p, q), low, high, past) = previous_month_number dt some_month in_year h in
    (number, fit_day-IsFit _ _ dt.day (first_valid _ _ low high (omega arith)) some_day)
