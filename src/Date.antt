-- ===== src/Date.antt =====
-- Class `Date` of src/include/date.h and src/widgets/date.cxx: a day of the Gregorian calendar.
--
-- The fields hold the values of the C++ fields that are not negative; `year--` at year 0 is outside
-- of the model. An index outside of a table is undefined in C, and reads 0 here. `now` is the day
-- that the system's clock gives to `today`. `dJulian` is floating point and left out.
pub mod Count
pub mod Increment
pub mod Order
pub mod Months
pub mod Years
pub mod Valid
mod Tests
use flimg.Prelude.{
  ℕ, zero, suc, ◌+◌, ◌-◌, ◌*◌, ◌/◌, ◌%◌, Bool, true, false, ◌&&◌, ◌||◌, not, List, [], ◌∷◌, ◌++◌,
  map,
}
use flimg.Prelude.{ltb, leb, ◌==◌, if◌then◌else◌, get_or, take, length, replicate, codes}
use flimg.Cstd.{ℤ, pos, negsuc, print_int, print_nat}

pub record Date : Type 0 where
  pub year : ℕ
  pub month : ℕ
  pub day : ℕ
  pub fmt : ℕ

abbrev mday_table : List ℕ
mday_table = 0 ∷ 31 ∷ 28 ∷ 31 ∷ 30 ∷ 31 ∷ 30 ∷ 31 ∷ 31 ∷ 30 ∷ 31 ∷ 30 ∷ 31 ∷ []

-- `mdays[month]`
unfoldable pub mdays : ℕ → ℕ
mdays month = get_or mday_table month 0

abbrev jday_table : Bool → List ℕ
jday_table false = 0 ∷ 0 ∷ 31 ∷ 59 ∷ 90 ∷ 120 ∷ 151 ∷ 181 ∷ 212 ∷ 243 ∷ 273 ∷ 304 ∷ 334 ∷ []
jday_table true = 0 ∷ 0 ∷ 31 ∷ 60 ∷ 91 ∷ 121 ∷ 152 ∷ 182 ∷ 213 ∷ 244 ∷ 274 ∷ 305 ∷ 335 ∷ []

-- `jdays[leap][month]`
unfoldable pub jdays : Bool → ℕ → ℕ
jdays leap month = get_or (jday_table leap) month 0

abbrev name_table : List (List ℕ)
name_table =
    codes "January"
    ∷ codes "Febuary"
    ∷ codes "March"
    ∷ codes "April"
    ∷ codes "May"
    ∷ codes "June"
    ∷ codes "July"
    ∷ codes "August"
    ∷ codes "September"
    ∷ codes "October"
    ∷ codes "November"
    ∷ codes "December"
    ∷ []

-- `month_name[month - 1]`
unfoldable pub month_name : ℕ → List ℕ
month_name month = get_or name_table (month - 1) []

unfoldable pub today : Date → Date → Date
today now dt = record dt { year = now.year; month = now.month; day = now.day }

unfoldable pub leap_year : ℕ → Bool
leap_year y = (y % 400 == 0) || (not (y % 100 == 0) && (y % 4 == 0))

unfoldable pub isvalid : ℕ → ℕ → ℕ → Bool
isvalid m d y =
    if ltb 2035 y
    then false
    else if ltb m 1 || ltb 12 m
    then false
    else if ltb d 1
    then false
    else if leap_year y
    then (if (m == 2) && ltb 29 d then false else true)
    else if ltb (mdays m) d
    then false
    else true

unfoldable pub datevalid : Date → Bool
datevalid dt = isvalid dt.month dt.day dt.year

-- The constructors, and `setDate` with three numbers.
unfoldable pub set_date : Date → ℕ → ℕ → ℕ → Date → Date
set_date now mm dd yy dt =
    if isvalid mm dd yy then record dt { year = yy; month = mm; day = dd } else today now dt

unfoldable pub new_date : Date → Date
new_date now = record now { fmt = 0 }

unfoldable pub new_date_of : Date → ℕ → ℕ → ℕ → Date
new_date_of now m d y = record (set_date now m d y now) { fmt = 1 }

-- `operator=`, and `setDate` with a date.
unfoldable pub assign : Date → Date → Date
assign dt other = record dt { year = other.year; month = other.month; day = other.day }

-- The switch of `daysinmonth`.
unfoldable pub month_days : ℕ → Bool → ℕ
month_days month leap = if month == 2 then (if leap then 29 else 28) else mdays month

unfoldable pub daysinmonth : ℕ → Bool → ℤ
daysinmonth month leap =
    if ltb month 1 || ltb 12 month then negsuc 0 else pos (month_days month leap)

unfoldable pub dayofyear : ℕ → ℕ → ℕ → ℕ
dayofyear year mon mday = mday + jdays (leap_year year) mon

-- The part of `dayofepoch` that the years before contribute, from `rest = year - 1` on.
unfoldable pub epoch_years : ℕ → ℕ
epoch_years rest =
    let quad = rest / 4 in
    let cent = quad / 25 in
    let era = cent / 4 in
    era * (400 * 365 + 97)
    + cent % 4 * (100 * 365 + 24)
    + quad % 25 * (4 * 365 + 1)
    + rest % 4 * 365

-- `dayofepoch` of a year from 1 on; in year 0 `rest` is -1 in C, and the result lower by 365.
unfoldable pub dayofepoch : ℕ → ℕ → ℕ → ℕ
dayofepoch year mon mday = dayofyear year mon mday + epoch_years (year - 1)

unfoldable pub dayofweek : ℕ → ℕ → ℕ → ℕ
dayofweek year mon mday = dayofepoch year mon mday % 7

-- The loop of `next_month` and `previous_month`: the day that is left.
unfoldable pub fit_day : ℕ → ℕ → ℕ → ℕ
fit_day month year zero = zero
fit_day month year (suc d) = if isvalid month (suc d) year then suc d else fit_day month year d

unfoldable pub previous_month : Date → Date
previous_month dt =
    let month = if dt.month == 1 then 12 else dt.month - 1 in
    let year = if dt.month == 1 then dt.year - 1 else dt.year in
    record dt { year = year; month = month; day = fit_day month year dt.day }

unfoldable pub next_month : Date → Date
next_month dt =
    let month = if dt.month == 12 then 1 else dt.month + 1 in
    let year = if dt.month == 12 then dt.year + 1 else dt.year in
    record dt { year = year; month = month; day = fit_day month year dt.day }

unfoldable pub previous_year : Date → Date
previous_year dt =
    let day = if (dt.month == 2) && (dt.day == 29) then 28 else dt.day in
    record dt { year = dt.year - 1; day = day }

unfoldable pub next_year : Date → Date
next_year dt =
    let day = if (dt.month == 2) && (dt.day == 29) then 28 else dt.day in
    record dt { year = dt.year + 1; day = day }

-- `endOfMonth`
unfoldable pub end_of_month : Date → ℕ → Bool
end_of_month dt d = if (dt.month == 2) && leap_year dt.year then d == 29 else d == mdays dt.month

-- `helpIncrement`, which is `operator++` too.
unfoldable pub help_increment : Date → Date
help_increment dt =
    if end_of_month dt dt.day && (dt.month == 12)
    then record dt { day = 1; month = 1; year = dt.year + 1 }
    else if end_of_month dt dt.day
    then record dt { day = 1; month = dt.month + 1 }
    else record dt { day = dt.day + 1 }

-- `operator+=`
unfoldable pub add_days : Date → ℕ → Date
add_days dt zero = dt
add_days dt (suc ndays) = add_days (help_increment dt) ndays

-- `operator==`
unfoldable pub same_date : Date → Date → Bool
same_date a b =
    if not (a.year == b.year)
    then false
    else if not (a.month == b.month)
    then false
    else if not (a.day == b.day)
    then false
    else true

-- `operator<`
unfoldable pub before : Date → Date → Bool
before a b =
    if ltb a.year b.year
    then true
    else if ltb b.year a.year
    then false
    else if ltb a.month b.month
    then true
    else if ltb b.month a.month
    then false
    else if ltb a.day b.day
    then true
    else false

-- `operator>`
unfoldable pub behind : Date → Date → Bool
behind a b = if before a b then false else if same_date a b then false else true

-- `%0wd` and `%wd` of a number that is not negative.
unfoldable pub padded : ℕ → ℕ → ℕ → List ℕ
padded fill width n = replicate (width - length (print_nat n)) fill ++ print_nat n

-- `year > 1999 ? year - 2000 : year - 1900`, as `%02d` prints it.
unfoldable pub short_year : ℕ → List ℕ
short_year year =
    if ltb 1999 year
    then padded b'0' 2 (year - 2000)
    else if leb 1900 year
    then padded b'0' 2 (year - 1900)
    else print_int (negsuc (1900 - year - 1))

unfoldable pub toupper : ℕ → ℕ
toupper c = if leb b'a' c && leb c b'z' then c - 32 else c

-- `szDate`, in a buffer of 20 bytes.
unfoldable pub sz_date : ℕ → Date → List ℕ
sz_date fmt dt =
    let name = month_name dt.month in
    let behind_month = b' ' ∷ (padded b' ' 2 dt.day ++ b',' ∷ b' ' ∷ padded b' ' 4 dt.year) in
    take 19 (
      if fmt == 1
      then padded b'0' 2 dt.month ++ b'/' ∷ (padded b'0' 2 dt.day ++ b'/' ∷ short_year dt.year)
      else if fmt == 2
      then padded b' ' 4 dt.year ++ b'-' ∷ (padded b'0' 2 dt.month ++ b'-' ∷ padded b'0' 2 dt.day)
      else if fmt == 3
      then name ++ behind_month
      else if fmt == 4
      then take 3 name ++ behind_month
      else if fmt == 5
      then map toupper (take 3 name) ++ b' ' ∷ print_nat dt.day
      else padded b'0' 2 dt.month ++ b'/' ∷ (padded b'0' 2 dt.day ++ b'/' ∷ padded b'0' 4 dt.year))
