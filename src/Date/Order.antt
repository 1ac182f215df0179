-- ===== src/Date/Order.antt =====
-- The order of dates is that of their numbers.
use flimg.Prelude.{
  ℕ, zero, suc, ◌+◌, ◌≤◌, ◌<◌, ◌≡◌, ◌⊎◌, inl, inr, refl, ap, ap₂, arith, Bool, true, false,
  Bool-cases,
}
use flimg.Prelude.{ltb, ◌==◌, ==_iff, if◌then◌else◌}
use flimg.Date.{Date, leap_year, month_days, dayofepoch, before, behind, same_date}
use flimg.Date.Count.{
  days_of_years, days_of_months, calendar_day, calendar_day-suc, dayofepoch-calendar_day,
}
use flimg.Date.Valid.{IsReal}
use flimg.Date.Increment.{epoch}

days_of_months_mono :
    (leap : Bool) (m n : ℕ) → m ≤ n → days_of_months leap m ≤ days_of_months leap n
unfolding days_of_months
days_of_months_mono leap m zero h = ground (arith, ap (days_of_months leap) (none m h))
  where
    none : (m : ℕ) → m ≤ 0 → m ≡ 0
    none m h = omega arith
days_of_months_mono leap m (suc n) h = elim (Bool-cases (m == suc n)) [
  | inl e ↦ rw ((==_iff m (suc n)).0 e) (omega arith)
  | inr e ↦ omega (arith, days_of_months_mono leap m n (ground arith))
]

days_of_years_mono : (m n : ℕ) → m ≤ n → days_of_years m ≤ days_of_years n
unfolding days_of_years
days_of_years_mono m zero h = ground (arith, ap days_of_years (none m h))
  where
    none : (m : ℕ) → m ≤ 0 → m ≡ 0
    none m h = omega arith
days_of_years_mono m (suc n) h = elim (Bool-cases (m == suc n)) [
  | inl e ↦ rw ((==_iff m (suc n)).0 e) (omega arith)
  | inr e ↦ omega (arith, days_of_years_mono m n (ground arith))
]

-- A day lies in its month, and its month in its year.
within_month :
    (leap : Bool) (m n d : ℕ)
    → d ≤ month_days (suc m) leap
    → m < n
    → days_of_months leap m + d ≤ days_of_months leap n
unfolding days_of_months
within_month leap m n d h lt = omega (arith, days_of_months_mono leap (suc m) n lt)

whole_year : (leap : Bool) → days_of_months leap 12 ≡ (if leap then 366 else 365)
unfolding days_of_months month_days flimg.Date.mdays
whole_year true = refl
whole_year false = refl

within_year :
    (y z m d : ℕ)
    → m < 12
    → d ≤ month_days (suc m) (leap_year (suc y))
    → y < z
    → days_of_years y + days_of_months (leap_year (suc y)) m + d ≤ days_of_years z
unfolding days_of_years
within_year y z m d small h lt = omega (
  arith,
  days_of_years_mono (suc y) z lt,
  within_month (leap_year (suc y)) m 12 d h small,
  whole_year (leap_year (suc y)),
)

-- The three ways to stand before another day.
earlier :
    (y z m n d e : ℕ)
    → IsReal (record { year = suc y; month = suc m; day = d; fmt = 0 })
    → IsReal (record { year = suc z; month = suc n; day = e; fmt = 0 })
    → (y < z) ⊎ ((y ≡ z) × ((m < n) ⊎ ((m ≡ n) × (d < e))))
    → calendar_day (suc y) (suc m) d < calendar_day (suc z) (suc n) e
earlier y z m n d e r s (inl lt) = omega (
  arith,
  calendar_day-suc y m d,
  calendar_day-suc z n e,
  within_year y z m d (omega (arith, r.month_in_year)) r.day_in_month lt,
  s.some_day,
)
earlier y z m n d e r s (inr (same, inl lt)) = omega (
  arith,
  calendar_day-suc y m d,
  calendar_day-suc z n e,
  ap days_of_years same,
  ap (λ k. days_of_months (leap_year (suc k)) n) same,
  within_month (leap_year (suc y)) m n d r.day_in_month lt,
  s.some_day,
)
earlier y z m n d e r s (inr (same, inr (too, lt))) = omega (
  arith,
  calendar_day-suc y m d,
  calendar_day-suc z n e,
  ap days_of_years same,
  ap₂ (λ k l. days_of_months (leap_year (suc k)) l) same too,
)

before_cases :
    (a b : Date)
    → before a b ≡ true
    → (a.year < b.year)
      ⊎ ((a.year ≡ b.year) × ((a.month < b.month) ⊎ ((a.month ≡ b.month) × (a.day < b.day))))
unfolding before
before_cases a b h = grind arith

before-total : (a b : Date) → before a b ≡ false → same_date a b ≡ false → before b a ≡ true
unfolding before same_date
before-total a b h g = grind arith

same_date_lem :
    (a b : Date) → same_date a b ≡ true → (a.year ≡ b.year) × (a.month ≡ b.month) × (a.day ≡ b.day)
unfolding same_date
same_date_lem a b h = (grind arith, grind arith, grind arith)

before-same_date : (a b : Date) → before a b ≡ true → same_date a b ≡ false
unfolding before same_date
before-same_date a b h = grind arith

from_one :
    (y z m n d e f g : ℕ)
    → IsReal (record { year = y; month = m; day = d; fmt = f })
    → IsReal (record { year = z; month = n; day = e; fmt = g })
    → (y < z) ⊎ ((y ≡ z) × ((m < n) ⊎ ((m ≡ n) × (d < e))))
    → calendar_day y m d < calendar_day z n e
from_one zero z m n d e f g r s h = absurd (omega (arith, r.some_year))
from_one (suc y) zero m n d e f g r s h = absurd (omega (arith, s.some_year))
from_one (suc y) (suc z) zero n d e f g r s h = absurd (omega (arith, r.some_month))
from_one (suc y) (suc z) (suc m) zero d e f g r s h = absurd (omega (arith, s.some_month))
from_one (suc y) (suc z) (suc m) (suc n) d e f g r s h =
    earlier y z m n d e (unformatted r) (unformatted s) (predecessors h)
  where
    unformatted :
        {x k i j : ℕ}
        → IsReal (record { year = x; month = k; day = i; fmt = j })
        → IsReal (record { year = x; month = k; day = i; fmt = 0 })
    unformatted real = record {
      some_year = real.some_year;
      some_month = real.some_month;
      month_in_year = real.month_in_year;
      some_day = real.some_day;
      day_in_month = real.day_in_month;
    }

    predecessors :
        (suc y < suc z) ⊎ ((suc y ≡ suc z) × ((suc m < suc n) ⊎ ((suc m ≡ suc n) × (d < e))))
        → (y < z) ⊎ ((y ≡ z) × ((m < n) ⊎ ((m ≡ n) × (d < e))))
    predecessors h = grind arith

epoch_lem : (a : Date) → IsReal a → epoch a ≡ calendar_day a.year a.month a.day
epoch_lem a r =
    dayofepoch-calendar_day a.year a.month a.day r.some_year r.some_month r.month_in_year

before_earlier : (a b : Date) → IsReal a → IsReal b → before a b ≡ true → epoch a < epoch b
before_earlier a b r s h =
    rw (epoch_lem a r, epoch_lem b s)
      (from_one a.year b.year a.month b.month a.day b.day a.fmt b.fmt r s (before_cases a b h))

same_epoch : (a b : Date) → same_date a b ≡ true → epoch a ≡ epoch b
same_epoch a b h = let (y, m, d) = same_date_lem a b h in rw (y, m, d) refl

-- Of two days of the calendar, `operator<`, `operator==` and `operator>` hold exactly if the
-- `dayofepoch` of the one is below, equal to or above that of the other.
pub before-epoch :
    (a b : Date)
    → IsReal a
    → IsReal b
    → (before a b ≡ ltb (epoch a) (epoch b))
      × (same_date a b ≡ (epoch a == epoch b))
      × (behind a b ≡ ltb (epoch b) (epoch a))
unfolding behind
before-epoch a b r s = elim (Bool-cases (before a b)) [
  | inl e ↦
      let lt = before_earlier a b r s e in
      let differ = before-same_date a b e in (ground arith, ground arith, ground arith)
  | inr e ↦ elim (Bool-cases (same_date a b)) [
    | inl f ↦ let same = same_epoch a b f in (ground arith, ground arith, ground arith)
    | inr f ↦
        let lt = before_earlier b a s r (before-total a b e f) in
        (ground arith, ground arith, ground arith)
  ]
]
