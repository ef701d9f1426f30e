-- ===== src/Commitments/Tests/Dates.antt =====
-- Runs of the generator and of the action windows.
use oublie_pas_backend.Base.{
  List, ℕ, Option, ◌≡◌, none, ◌∷◌, ◌+◌, arith, if◌then◌else◌, leb, ◌≤◌, max, refl,
}
use oublie_pas_backend.Commitments.Generator.{
  add_months, occurrence_dates, first_index, horizon_days, longest_period_days, nth_due_date,
  months_by_frequency,
}
use oublie_pas_backend.Commitments.Generator.Periods.{add_months_lem, nth_due_date-step}
use oublie_pas_backend.Commitments.Generator.Window.{Lists, occurrence_dates-Lists}
use oublie_pas_backend.Calendar.{
  Date, year, month, day, days_before_year, days_before_month, month_length, is_leap, last_below,
  mk_date, to_ordinal,
}
use oublie_pas_backend.Models.Columns.{monthly, yearly}
use oublie_pas_backend.Commitments.ActionWindow.{ActionWindow, action_window}
use oublie_pas_backend.Errors.{ok, err, value_error}
use oublie_pas_backend.Commitments.Generator.FirstIndex.{StartsBefore, first_index-StartsBefore}
use oublie_pas_backend.Commitments.ActionWindow.Choice.{Chosen, action_window-Chosen}
use oublie_pas_backend.Calendar.Fields.{month_index, last_month, clamped}
use oublie_pas_backend.Commitments.Generator.Horizon.{occurrence_dates-horizon_days}
use oublie_pas_backend.Commitments.Tests.{rent}

-- The last day of the month where the month has no day 31.
add_months-clamps : add_months 739282 1 ≡ ok 739310
unfolding add_months year month day days_before_year days_before_month month_length is_leap
    last_below mk_date to_ordinal
add_months-clamps = refl

add_months_lem_example : add_months 739282 1 ≡ (
    if leb (month_index 739282 + 1 + 1) last_month
    then ok (clamped (day 739282) (month_index 739282 + 1))
    else err value_error)
add_months_lem_example = add_months_lem 739282 1 (omega arith)

nth_due_date-step_example : (739282 + 7 ≤ 739310) × (739310 ≤ 739282 + longest_period_days monthly)
unfolding nth_due_date months_by_frequency add_months mk_date year last_below days_before_year month
    days_before_month month_length is_leap day to_ordinal
nth_due_date-step_example =
    nth_due_date-step 739282 monthly 0 739282 739310 tt (omega arith) refl refl

first_index-StartsBefore_example :
    (n : ℕ) × (first_index 739282 monthly 739400 ≡ ok n) × StartsBefore 739282 monthly 739400 n
first_index-StartsBefore_example =
    first_index-StartsBefore 739282 739400 (omega arith) (omega arith) monthly tt

occurrence_dates-Lists_example :
    Lists 739282 monthly none 739300 739420 (occurrence_dates 739282 monthly none 739300 739420)
occurrence_dates-Lists_example =
    occurrence_dates-Lists 739282 monthly none 739300 739420 tt (omega arith, omega arith)
      (omega arith) (omega arith) (omega arith)

occurrence_dates-horizon_days_example :
    (d : Date) × (rest : List Date) × (occurrence_dates 739282 yearly none 739300
        (739300 + horizon_days yearly)
      ≡ ok (d ∷ rest))
    × (739300 ≤ d)
    × (d ≤ max 739282 (739300 + longest_period_days yearly))
occurrence_dates-horizon_days_example =
    occurrence_dates-horizon_days 739282 yearly 739300 tt (omega arith, omega arith) (omega arith)
      (omega arith) (omega arith)

action_window-Chosen_example :
    (r : Option ActionWindow) × (action_window rent 739282 739270 ≡ ok r)
    × Chosen rent 739282 739270 r
action_window-Chosen_example = action_window-Chosen rent 739282 739270 refl
