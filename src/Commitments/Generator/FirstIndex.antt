-- ===== src/Commitments/Generator/FirstIndex.antt =====
-- `_first_index`: where the loop of `occurrence_dates` starts.
use oublie_pas_backend.Calendar.{Date, year, day, month}
use oublie_pas_backend.Models.Columns.{Frequency, weekly, monthly, quarterly, yearly, oneoff}
use oublie_pas_backend.Base.{
  ◌≤◌, ℕ, ◌<◌, arith, ◌≡◌, ◌*◌, ◌+◌, Bool-cases, min, leb, ◌-◌, inl, leb→le, inr, leb→gt, ◌/◌, refl,
}
use oublie_pas_backend.Calendar.Fields.{month_index, clamped, date-month_index, fields_lem}
use oublie_pas_backend.Commitments.Generator.Periods.{IsRecurring, due_at, due_at-zero}
use oublie_pas_backend.Commitments.Generator.{first_index, periods_elapsed, months_by_frequency}
use native.Mathlib.Decide.{dec_lt}
use oublie_pas_backend.Errors.{ok}
use oublie_pas_backend.Calendar.Blocks.{start-lt, span_bounds, span}
use oublie_pas_backend.Commitments.Generator.Dates.{due_at_mono}

-- No due date of the window comes before `index`, and the window is reached two periods later at
-- the latest.
pub record StartsBefore (s : Date) (f : Frequency) (floor index : ℕ) : Type 0 where
  pub skips_none : (k : ℕ) → k < index → due_at s f k < floor
  pub reaches : floor ≤ due_at s f (index + 2)

module _ (s floor : Date) (h : 1 ≤ s) (hf : 1 ≤ floor) where
  -- The months that `_first_index` counts.
  elapsed_lem :
      year floor * 12 + month floor - (year s * 12 + month s) ≡ month_index floor - month_index s
  unfolding month_index
  elapsed_lem = omega (arith, (fields_lem s h).month_in, (fields_lem floor hf).month_in)

  month_before : (i d : ℕ) → 12 ≤ i → i < month_index floor → clamped d i < floor
  month_before i d hi lt = omega (
    arith,
    date-month_index floor hf,
    start-lt i (month_index floor) (min d (span i)) (day floor) hi lt (omega arith)
        (date-month_index floor hf).1,
  )

  month_after : (i : ℕ) → month_index floor < i → floor ≤ clamped (day s) i
  month_after i lt = omega (
    arith,
    date-month_index floor hf,
    span_bounds i,
    start-lt (month_index floor) i (day floor) (min (day s) (span i)) (date-month_index floor hf).0
        lt (date-month_index floor hf).2 (omega (arith, date-month_index s h, span_bounds i)),
  )

  months_in_order : s ≤ floor → month_index s ≤ month_index floor
  months_in_order le = elim (dec_lt (month_index floor) (month_index s)) [
    | no p ↦ omega arith
    | yes p ↦ absurd (
        omega (
          arith,
          date-month_index s h,
          date-month_index floor hf,
          start-lt (month_index floor) (month_index s) (day floor) (day s)
              (date-month_index floor hf).0 p (date-month_index floor hf).2
              (date-month_index s h).1,
        ))
  ]

  StartsBefore-zero : (f : Frequency) → IsRecurring f → floor ≤ s → StartsBefore s f floor 0
  StartsBefore-zero f r le = record {
    skips_none = λ k lt. absurd (omega arith);
    reaches = omega (arith, due_at-zero s f r h, due_at_mono s f r h 0 (0 + 2) (omega arith));
  }

  periods_elapsed-StartsBefore :
      (f : Frequency)
      → IsRecurring f
      → s < floor
      → (n : ℕ) × (periods_elapsed s f floor ≡ ok n) × StartsBefore s f floor n
  unfolding periods_elapsed months_by_frequency due_at
  periods_elapsed-StartsBefore weekly r lt = (
    (floor - s) / 7 - 1,
    refl,
    record { skips_none = λ k lt. omega arith; reaches = omega arith },
  )
  periods_elapsed-StartsBefore monthly r lt = (
    (month_index floor - month_index s) / 1 - 1,
    rw elapsed_lem,
    record {
      skips_none = λ k lt.
          month_before (month_index s + k * 1) (day s) (omega (arith, date-month_index s h))
            (omega arith);
      reaches = month_after _ (omega (arith, months_in_order (omega arith)));
    },
  )
  periods_elapsed-StartsBefore quarterly r lt = (
    (month_index floor - month_index s) / 3 - 1,
    rw elapsed_lem,
    record {
      skips_none = λ k lt.
          month_before (month_index s + k * 3) (day s) (omega (arith, date-month_index s h))
            (omega arith);
      reaches = month_after _ (omega (arith, months_in_order (omega arith)));
    },
  )
  periods_elapsed-StartsBefore yearly r lt = (
    (month_index floor - month_index s) / 12 - 1,
    rw elapsed_lem,
    record {
      skips_none = λ k lt.
          month_before (month_index s + k * 12) (day s) (omega (arith, date-month_index s h))
            (omega arith);
      reaches = month_after _ (omega (arith, months_in_order (omega arith)));
    },
  )
  periods_elapsed-StartsBefore oneoff r lt = absurd r

  -- `first_index` returns a start of the loop that skips no due date of the window.
  pub first_index-StartsBefore :
      (f : Frequency)
      → IsRecurring f
      → (n : ℕ) × (first_index s f floor ≡ ok n) × StartsBefore s f floor n
  unfolding first_index
  first_index-StartsBefore f r = elim (Bool-cases (leb floor s)) [
    | inl e ↦ (0, rw e, StartsBefore-zero f r (leb→le floor s e))
    | inr e ↦ rw e (periods_elapsed-StartsBefore f r (leb→gt floor s e))
  ]
