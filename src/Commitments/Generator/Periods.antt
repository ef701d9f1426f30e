-- ===== src/Commitments/Generator/Periods.antt =====
-- The due dates of a recurring commitment as a function of their index.
use native.Mathlib.Nat.{add-zero}
use oublie_pas_backend.Base.{ℕ, ◌+◌, ◌-◌, ◌/◌, ◌%◌, ◌≤◌, ◌≡◌, arith, leb, if◌then◌else◌, suc, ◌*◌}
use oublie_pas_backend.Errors.{ok, err, value_error}
use oublie_pas_backend.Calendar.{Date, year, month, day, add_days, max_date}
use oublie_pas_backend.Calendar.Fields.{
  clamped, last_month, mk_date-clamped, month_index, fields_lem, date-month_index, clamped_range,
}
use oublie_pas_backend.Commitments.Generator.{
  add_months, nth_due_date, longest_period_days, months_by_frequency,
}
use oublie_pas_backend.Models.Columns.{Frequency, oneoff, monthly, weekly, quarterly, yearly}
use oublie_pas_backend.Calendar.Blocks.{
  start-suc, span_bounds, three_months, start_mono, start-year_gap,
}

-- `add_months` moves the month's number and keeps the day of the month where the month has it, and
-- raises past the year 9999.
pub add_months_lem :
    (t : Date) (k : ℕ)
    → 1 ≤ t
    → add_months t k ≡ (
        if leb (month_index t + k + 1) last_month
        then ok (clamped (day t) (month_index t + k))
        else err value_error)
unfolding add_months month_index
add_months_lem t k h =
    let v = fields_lem t h in
    let y : year t + (month t - 1 + k) / 12 ≡ (month_index t + k) / 12 =
      omega (arith, v.month_in.0) in
    let m : (month t - 1 + k) % 12 ≡ (month_index t + k) % 12 = omega (arith, v.month_in.0) in
    rw (y, m) (mk_date-clamped (month_index t + k) (day t) (omega (arith, v.year_pos)) v.day_in.0)

-- Every frequency but the one that yields a single date.
abbrev pub IsRecurring : Frequency → Type 0
IsRecurring oneoff = ⊥
IsRecurring _ = Unit

abbrev pub period_months : Frequency → ℕ
period_months monthly = 1
period_months quarterly = 3
period_months yearly = 12
period_months _ = 0

-- The due date of index `k`, with no bound on the calendar.
unfoldable pub due_at : Date → Frequency → ℕ → Date
due_at s weekly k = s + 7 * k
due_at s frequency k = clamped (day s) (month_index s + k * period_months frequency)

month_step :
    (i d : ℕ)
    → 12 ≤ i
    → 1 ≤ d
    → (clamped d i + 7 ≤ clamped d (i + 1)) × (clamped d (i + 1) ≤ clamped d i + 31)
month_step i d hi hd =
    let e : i + 1 ≡ suc i = omega arith in
    rw e (omega (arith, start-suc i hi, span_bounds i, span_bounds (suc i)))

quarter_step :
    (i d : ℕ)
    → 12 ≤ i
    → 1 ≤ d
    → (clamped d i + 7 ≤ clamped d (i + 3)) × (clamped d (i + 3) ≤ clamped d i + 92)
quarter_step i d hi hd =
    let e : i + 3 ≡ suc (suc (suc i)) = omega arith in
    rw e (
      omega (
        arith,
        start-suc i hi,
        start-suc (suc i) (omega arith),
        start-suc (suc (suc i)) (omega arith),
        three_months i,
        three_months (suc i),
        span_bounds i,
        span_bounds (suc i),
        span_bounds (suc (suc i)),
        span_bounds (suc (suc (suc i))),
      ))

year_step :
    (i d : ℕ)
    → 12 ≤ i
    → 1 ≤ d
    → (clamped d i + 7 ≤ clamped d (i + 12)) × (clamped d (i + 12) ≤ clamped d i + 366)
year_step i d hi hd = (
  omega (
    arith,
    start-suc i hi,
    start-suc (suc i) (omega arith),
    start_mono (suc (suc i)) (i + 12) (omega arith) (omega arith),
    span_bounds i,
    span_bounds (suc i),
    span_bounds (i + 12),
  ),
  start-year_gap i d hi,
)

-- `due_at` of the next index.
pub due_step :
    (s : Date) (f : Frequency) (k : ℕ)
    → IsRecurring f
    → 1 ≤ s
    → (due_at s f k + 7 ≤ due_at s f (suc k))
      × (due_at s f (suc k) ≤ due_at s f k + longest_period_days f)
unfolding due_at
due_step s weekly k r h = omega arith
due_step s monthly k r h =
    let e : month_index s + suc k * 1 ≡ month_index s + k * 1 + 1 = omega arith in
    rw e (
      month_step (month_index s + k * 1) (day s) (omega (arith, date-month_index s h))
        (date-month_index s h).1)
due_step s quarterly k r h =
    let e : month_index s + suc k * 3 ≡ month_index s + k * 3 + 3 = omega arith in
    rw e (
      quarter_step (month_index s + k * 3) (day s) (omega (arith, date-month_index s h))
        (date-month_index s h).1)
due_step s yearly k r h =
    let e : month_index s + suc k * 12 ≡ month_index s + k * 12 + 12 = omega arith in
    rw e (
      year_step (month_index s + k * 12) (day s) (omega (arith, date-month_index s h))
        (date-month_index s h).1)
due_step s oneoff k r h = absurd r

clamped_self : (s : Date) → 1 ≤ s → clamped (day s) (month_index s + 0) ≡ s
clamped_self s h = rw add-zero (omega (arith, date-month_index s h))

-- The first due date is the start.
pub due_at-zero : (s : Date) (f : Frequency) → IsRecurring f → 1 ≤ s → due_at s f 0 ≡ s
unfolding due_at
due_at-zero s weekly r h = omega arith
due_at-zero s monthly r h = clamped_self s h
due_at-zero s quarterly r h = clamped_self s h
due_at-zero s yearly r h = clamped_self s h
due_at-zero s oneoff r h = absurd r

-- `nth_due_date` returns the due date of its index while the calendar has it.
pub nth_due_date-due_at :
    (s : Date) (f : Frequency) (k : ℕ)
    → IsRecurring f
    → 1 ≤ s
    → due_at s f k ≤ max_date
    → nth_due_date s f k ≡ ok (due_at s f k)
unfolding nth_due_date due_at months_by_frequency add_days
nth_due_date-due_at s weekly k r h b = ground arith
nth_due_date-due_at s monthly k r h b = rw (add_months_lem s (k * 1) h) (
    ground (
      arith,
      clamped_range (month_index s + k * 1) (day s) (omega (arith, date-month_index s h))
          (date-month_index s h).1,
    ))
nth_due_date-due_at s quarterly k r h b = rw (add_months_lem s (k * 3) h) (
    ground (
      arith,
      clamped_range (month_index s + k * 3) (day s) (omega (arith, date-month_index s h))
          (date-month_index s h).1,
    ))
nth_due_date-due_at s yearly k r h b = rw (add_months_lem s (k * 12) h) (
    ground (
      arith,
      clamped_range (month_index s + k * 12) (day s) (omega (arith, date-month_index s h))
          (date-month_index s h).1,
    ))
nth_due_date-due_at s oneoff k r h b = absurd r

-- `nth_due_date` returns a date only of the calendar, and then it is `due_at`.
pub due_at-nth_due_date :
    (s : Date) (f : Frequency) (k d : ℕ)
    → IsRecurring f
    → 1 ≤ s
    → nth_due_date s f k ≡ ok d
    → due_at s f k ≡ d
unfolding nth_due_date due_at months_by_frequency add_days
due_at-nth_due_date s weekly k d r h e = ground arith
due_at-nth_due_date s monthly k d r h e = ground (arith, add_months_lem s (k * 1) h)
due_at-nth_due_date s quarterly k d r h e = ground (arith, add_months_lem s (k * 3) h)
due_at-nth_due_date s yearly k d r h e = ground (arith, add_months_lem s (k * 12) h)
due_at-nth_due_date s oneoff k d r h e = absurd r

-- For a recurring commitment, where `nth_due_date` returns for an index and for the next one, the
-- second date follows the first by a week at least, and by the longest period of the frequency at most.
pub nth_due_date-step :
    (s : Date) (f : Frequency) (k : ℕ) (d e : Date)
    → IsRecurring f
    → 1 ≤ s
    → nth_due_date s f k ≡ ok d
    → nth_due_date s f (suc k) ≡ ok e
    → (d + 7 ≤ e) × (e ≤ d + longest_period_days f)
nth_due_date-step s f k d e r h now next =
    let here = due_at-nth_due_date s f k d r h now in
    let there = due_at-nth_due_date s f (suc k) e r h next in
    omega (arith, here, there, due_step s f k r h)
