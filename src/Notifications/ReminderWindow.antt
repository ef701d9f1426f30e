-- ===== src/Notifications/ReminderWindow.antt =====
-- services/notifications/reminder_window.py: which due dates a reminder of each kind is about.
use oublie_pas_backend.Base.{ℕ, Bool, min, leb, ◌&&◌, ◌+◌}
use oublie_pas_backend.Models.Columns.{ReminderKind, notice, overdue, action_required}
use oublie_pas_backend.Calendar.{Date, add_days, sub_days}
use oublie_pas_backend.Models.Commitments.{
  Commitment, CommitmentOccurrence, max_reminder_days, overdue_reminder_window_days,
  overdue_reminder_days, max_cancellation_notice_days,
}
use oublie_pas_backend.Errors.{Result, ◌>>=◌, ok}
pub mod Zones

abbrev pub timezone_spread_days : ℕ
timezone_spread_days = 1

-- The bounds of a kind on a day, as the pair (earliest, latest).
unfoldable pub bounds : ReminderKind → Date → Result (Date × Date)
bounds notice on_date = add_days on_date max_reminder_days >>= λ latest. ok (on_date, latest)
bounds overdue on_date = sub_days on_date overdue_reminder_window_days >>= λ earliest.
    sub_days on_date overdue_reminder_days >>= λ latest. ok (earliest, latest)
bounds action_required on_date =
    add_days on_date (max_cancellation_notice_days + max_reminder_days) >>= λ latest.
    ok (on_date, latest)

unfoldable pub query_bounds : ReminderKind → Date → Result (Date × Date)
query_bounds kind on_date = bounds kind on_date >>= λ b.
    sub_days b.0 timezone_spread_days >>= λ earliest.
    add_days b.1 timezone_spread_days >>= λ latest. ok (earliest, latest)

-- A notice is further bounded by the commitment's own delay.
notice_latest : ReminderKind → Commitment → Date → Date → Result Date
notice_latest notice c today latest =
    add_days today c.reminder_days_before >>= λ own. ok (min latest own)
notice_latest _ c today latest = ok latest

unfoldable pub is_due : ReminderKind → CommitmentOccurrence → Commitment → Date → Result Bool
unfolding notice_latest
is_due kind o c today = bounds kind today >>= λ b.
    notice_latest kind c today b.1 >>= λ latest. ok (leb b.0 o.due_date && leb o.due_date latest)
