-- ===== src/Calendar.antt =====
-- Dates of the Gregorian calendar, as `datetime.date` and `calendar.monthrange` give them to the
-- program. A date is its ordinal: 0001-01-01 is 1 and 9999-12-31 is 3652059, so that the order of
-- dates is that of the numbers. Sums that leave this range raise OverflowError, and a year past
-- 9999 raises ValueError.
pub mod Blocks
pub mod Fields
use oublie_pas_backend.Base.{
  ℕ, zero, suc, ◌+◌, ◌-◌, ◌*◌, ◌/◌, ◌%◌, Bool, not, ◌&&◌, ◌||◌, ltb, leb, ◌==◌, if◌then◌else◌,
}
use oublie_pas_backend.Errors.{Result, ok, err, Error, value_error, overflow_error}

abbrev pub Date : Type 0
Date = ℕ

abbrev pub max_year : ℕ
max_year = 9999

-- `date.max.toordinal()`
abbrev pub max_date : Date
max_date = 3652059

unfoldable pub is_leap : ℕ → Bool
is_leap y = y % 4 == 0 && (not (y % 100 == 0) || y % 400 == 0)

-- `calendar.monthrange(y, m)[1]`
unfoldable pub month_length : ℕ → ℕ → ℕ
month_length y m =
    if m == 2
    then (if is_leap y then 29 else 28)
    else if m == 4 || (m == 6 || (m == 9 || m == 11))
    then 30
    else 31

unfoldable pub days_before_year : ℕ → ℕ
days_before_year y = let p = y - 1 in p * 365 + p / 4 - p / 100 + p / 400

-- The days of year `y` before its month `m`.
unfoldable pub days_before_month : ℕ → ℕ → ℕ
days_before_month y zero = 0
days_before_month y (suc zero) = 0
days_before_month y (suc (suc m)) = days_before_month y (suc m) + month_length y (suc m)

-- `date(y, m, d).toordinal()`
unfoldable pub to_ordinal : ℕ → ℕ → ℕ → Date
to_ordinal y m d = days_before_year y + days_before_month y m + d

-- The largest index up to `i`, and at least 0, at which `start` lies below `n`.
unfoldable pub last_below : (ℕ → ℕ) → ℕ → ℕ → ℕ
last_below start zero n = zero
last_below start (suc i) n =
    let rest = last_below start i n in if ltb (start (suc i)) n then suc i else rest

-- The fields `date.year`, `date.month` and `date.day`.
unfoldable pub year : Date → ℕ
year t = last_below days_before_year (t / 365 + 1) t

unfoldable pub month : Date → ℕ
month t = last_below (days_before_month (year t)) 12 (t - days_before_year (year t))

unfoldable pub day : Date → ℕ
day t = t - days_before_year (year t) - days_before_month (year t) (month t)

-- The constructor `date(y, m, d)` raises ValueError outside the calendar.
unfoldable pub mk_date : ℕ → ℕ → ℕ → Result Date
mk_date y m d =
    if (leb 1 y && leb y max_year)
      && ((leb 1 m && leb m 12) && (leb 1 d && leb d (month_length y m)))
    then ok (to_ordinal y m d)
    else err value_error

-- `t + timedelta(days=n)`
unfoldable pub add_days : Date → ℕ → Result Date
add_days t n = if leb (t + n) max_date then ok (t + n) else err overflow_error

-- `t - timedelta(days=n)`
unfoldable pub sub_days : Date → ℕ → Result Date
sub_days t n = if ltb n t then ok (t - n) else err overflow_error

-- `t.weekday()`: Monday is 0.
unfoldable pub weekday : Date → ℕ
weekday t = (t + 6) % 7

abbrev pub seconds_per_day : ℕ
seconds_per_day = 86400

-- The UTC date of an instant, in seconds since 0001-01-01 00:00.
unfoldable pub date_of : ℕ → Date
date_of instant = instant / seconds_per_day + 1
