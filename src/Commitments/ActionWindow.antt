-- ===== src/Commitments/ActionWindow.antt =====
-- services/commitments/action_window.py: the days in which the holder of a commitment can still
-- act, before a trial or a cancellation notice closes.
use oublie_pas_backend.Calendar.{Date, sub_days}
use oublie_pas_backend.Errors.{Result, ◌>>=◌, ok}
use oublie_pas_backend.Models.Commitments.{Commitment, min_trial_notice_days}
use oublie_pas_backend.Base.{
  ℕ, Bool, Option, false, ltb, some, leb, ◌||◌, ◌&&◌, ◌==◌, if◌then◌else◌, not, max,
}
use oublie_pas_backend.Base.Int.{ℤ, sub_ℕ}
use mathlib.Core.Option.{none}
pub mod Choice

-- The constructors stand in the order of the strings "cancellation" and "trial".
pub data Reason : Type 0 where
  cancellation trial : Reason

pub record ActionWindow : Type 0 where
  pub deadline : Date
  pub reason : Reason
  pub lead_days : ℕ

-- `ActionWindow.opens_on`
unfoldable pub opens_on : ActionWindow → Result Date
opens_on w = sub_days w.deadline w.lead_days

-- `ActionWindow.is_open`. Python stops a chained comparison at its first false part, and the call
-- in it is made in any case.
unfoldable pub is_open : ActionWindow → Date → Result Bool
unfolding opens_on
is_open w reference = opens_on w >>= λ opens. ok (leb opens reference && leb reference w.deadline)

-- `ActionWindow.days_left`
unfoldable pub days_left : ActionWindow → Date → ℤ
days_left w reference = sub_ℕ w.deadline reference

unfoldable pub trial_window : Commitment → Date → Option ActionWindow
trial_window c due_date = elim c.trial_ends_on [
  | none ↦ none
  | some ends ↦
      if not (due_date == c.starts_on)
      then none
      else some (record {
        deadline = ends;
        reason = trial;
        lead_days = max c.reminder_days_before min_trial_notice_days;
      })
]

unfoldable pub cancellation_window : Commitment → Date → Result (Option ActionWindow)
cancellation_window c due_date = elim c.cancellation_notice_days [
  | none ↦ ok none
  | some notice ↦ sub_days due_date notice >>= λ deadline. ok (
      some
        (record { deadline = deadline; reason = cancellation; lead_days = c.reminder_days_before }))
]

-- `window is not None and window.deadline >= reference`
abbrev pub is_ahead : Date → Option ActionWindow → Bool
is_ahead reference none = false
is_ahead reference (some w) = leb reference w.deadline

reason_rank : Reason → ℕ
reason_rank cancellation = 0
reason_rank trial = 1

-- The order of the keys `(window.deadline, window.reason)`.
key_lt : ActionWindow → ActionWindow → Bool
unfolding reason_rank
key_lt v w =
    ltb v.deadline w.deadline
    || (v.deadline == w.deadline && ltb (reason_rank v.reason) (reason_rank w.reason))

-- `min` keeps the first of two windows with one key.
earliest : Option ActionWindow → Option ActionWindow → Option ActionWindow
unfolding key_lt
earliest none w = w
earliest (some v) none = some v
earliest (some v) (some w) = if key_lt w v then some w else some v

keep_ahead : Date → Option ActionWindow → Option ActionWindow
keep_ahead reference w = if is_ahead reference w then w else none

unfoldable pub action_window : Commitment → Date → Date → Result (Option ActionWindow)
unfolding earliest keep_ahead
action_window c due_date reference = cancellation_window c due_date >>= λ w.
    ok (earliest (keep_ahead reference (trial_window c due_date)) (keep_ahead reference w))
