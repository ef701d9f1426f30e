-- ===== src/Calendar/Fields.antt =====
-- The fields `year`, `month` and `day` of a date, and the constructor that takes them.
use oublie_pas_backend.Base.{
  ℕ, zero, suc, ◌+◌, ◌-◌, ◌*◌, ◌/◌, ◌≤◌, ◌<◌, ◌≡◌, ◌↔◌, min, leb, if◌then◌else◌, ◌%◌, arith, refl,
}
use oublie_pas_backend.Errors.{ok, err, value_error}
use oublie_pas_backend.Calendar.{
  max_date, mk_date, Date, days_before_year, days_before_month, month_length, to_ordinal,
  last_below, year, month, day,
}
use oublie_pas_backend.Calendar.Blocks.{
  span, start, days_before_year-suc, days_before_month-suc, days_before_january, to_ordinal-start,
  span_lem, start_inj, month_length_bounds, start-suc, start_mono,
}
use native.Mathlib.Decide.{dec_lt}

last_below_lem :
    (f : ℕ → ℕ) (i n : ℕ)
    → 1 ≤ i
    → f 1 < n
    → n ≤ f (suc i)
    → let r = last_below f i n in (1 ≤ r) × (r ≤ i) × (f r < n) × (n ≤ f (suc r))
unfolding last_below
last_below_lem f zero n hi lo up = absurd (omega arith)
last_below_lem f (suc zero) n hi lo up = ground arith
last_below_lem f (suc (suc i)) n hi lo up =
    ground (arith, last_below_lem f (suc i) n (omega arith) lo)

-- The number of a date's month.
unfoldable pub month_index : Date → ℕ
month_index t = year t * 12 + (month t - 1)

pub record HasFields (t y m d : ℕ) : Type 0 where
  pub year_pos : 1 ≤ y
  pub month_in : (1 ≤ m) × (m ≤ 12)
  pub day_in : (1 ≤ d) × (d ≤ month_length y m)
  pub sum : to_ordinal y m d ≡ t

year_lem :
    (t : Date)
    → 1 ≤ t
    → let y = year t in (1 ≤ y) × (days_before_year y < t) × (t ≤ days_before_year (suc y))
unfolding year days_before_year
year_lem t h =
    let (a, _, b, c) =
      last_below_lem days_before_year (t / 365 + 1) t (omega arith) (omega arith) (omega arith) in
    (a, b, c)

month_lem :
    (t : Date)
    → 1 ≤ t
    → let n = t - days_before_year (year t) in
      (1 ≤ month t)
      × (month t ≤ 12)
      × (days_before_month (year t) (month t) < n)
      × (n ≤ days_before_month (year t) (suc (month t)))
unfolding month
month_lem t h =
    let (a, b, c) = year_lem t h in
    last_below_lem (days_before_month (year t)) 12 (t - days_before_year (year t)) (omega arith)
      (omega (arith, days_before_january (year t))) (omega (arith, days_before_year-suc (year t) a))

-- The fields of a date are those of a day of the calendar, and their ordinal is the date.
pub fields_lem : (t : Date) → 1 ≤ t → HasFields t (year t) (month t) (day t)
unfolding to_ordinal day
fields_lem t h =
    let (a, b, c) = year_lem t h in
    let (d, e, f, g) = month_lem t h in
    record {
      year_pos = a;
      month_in = (d, e);
      day_in = (omega arith, omega (arith, days_before_month-suc (year t) (month t) d));
      sum = omega arith;
    }

-- A date through its month's number and its day.
pub date-month_index :
    (t : Date)
    → 1 ≤ t
    → (12 ≤ month_index t)
      × (1 ≤ day t)
      × (day t ≤ span (month_index t))
      × (start (month_index t) + day t ≡ t)
unfolding month_index
date-month_index t h =
    let v = fields_lem t h in
    (
      omega (arith, v.year_pos),
      v.day_in.0,
      omega (arith, v.day_in.1, span_lem (year t) (month t) v.month_in.0 v.month_in.1),
      omega (arith, v.sum, to_ordinal-start (year t) (month t) (day t) v.month_in.0 v.month_in.1),
    )

-- A date that is given by its month's number and its day has them.
pub month_index_unique :
    (t : Date) (i d : ℕ)
    → 12 ≤ i
    → (1 ≤ d) × (d ≤ span i)
    → start i + d ≡ t
    → (month_index t ≡ i) × (day t ≡ d)
month_index_unique t i d hi hd e =
    let v = date-month_index t (omega arith) in
    start_inj (month_index t) i (day t) d v.0 hi (v.1, v.2) hd (omega arith)

-- The day that `d` is in month `i`: the last day of a month that has no day `d`.
abbrev pub clamped : ℕ → ℕ → Date
clamped d i = start i + min d (span i)

-- The months up to December 9999.
abbrev pub last_month : ℕ
last_month = 120000

-- The constructor, at a day of month `i` that is clamped to its length.
pub mk_date-clamped :
    (i d : ℕ)
    → 12 ≤ i
    → 1 ≤ d
    → mk_date (i / 12) (i % 12 + 1) (min d (month_length (i / 12) (i % 12 + 1)))
      ≡ (if leb (i + 1) last_month then ok (clamped d i) else err value_error)
unfolding mk_date to_ordinal start span
mk_date-clamped i d hi hd = ground (arith, month_length_bounds (i / 12) (i % 12 + 1))

last_day : start last_month ≡ max_date
unfolding start days_before_year days_before_month
last_day = refl

-- The ordinals up to the last day of December 9999 are those of the dates.
pub clamped_range : (i d : ℕ) → 12 ≤ i → 1 ≤ d → (i < last_month) ↔ (clamped d i ≤ max_date)
unfolding span
clamped_range i d hi hd = (
  λ lt. omega (arith, start-suc i hi, start_mono (suc i) last_month (omega arith) lt, last_day),
  λ le. elim (dec_lt i last_month) [
    | yes p ↦ p
    | no p ↦ absurd (
        omega (
          arith,
          last_day,
          start_mono last_month i (omega arith) (omega arith),
          month_length_bounds (i / 12) (i % 12 + 1),
        ))
  ],
)
