-- ===== src/Notifications/ReminderWindow/Zones.antt =====
-- The query of a server's day against the days of the users, who live in other time zones.
use oublie_pas_backend.Calendar.{Date, add_days, max_date, sub_days}
use oublie_pas_backend.Notifications.ReminderWindow.{
  is_due, query_bounds, bounds, timezone_spread_days,
}
use oublie_pas_backend.Base.{
  ◌≤◌, ◌+◌, ◌≡◌, true, some, ◌-◌, ◌<◌, arith, false, leb, Bool, List, none, ◌&&◌, refl, All,
  All-map,
}
use oublie_pas_backend.Commitments.ActionWindow.{
  is_open, opens_on, cancellation_window, ActionWindow, trial_window,
}
use oublie_pas_backend.Models.Commitments.{CommitmentOccurrence, Commitment, meets_checks}
use oublie_pas_backend.Models.Columns.{
  ReminderKind, notice, action_required, overdue, Channel, pending, active,
}
use oublie_pas_backend.Errors.{ok}
use oublie_pas_backend.Repositories.Reminders.{
  is_unreminded, due_for_reminder, unreminded, Joined, was_sent, joined, due_le,
}
use oublie_pas_backend.Session.{Db}
use oublie_pas_backend.Base.Sql.{count, select, order_by}
use oublie_pas_backend.Base.Sql.Laws.{count-select, count-order_by, count-le}

-- The day of a user differs by one day at most from the server's.
pub record AreNear (today on_date : Date) : Type 0 where
  pub behind : on_date ≤ today + 1
  pub ahead : today ≤ on_date + 1

-- Days on which no bound leaves the calendar.
pub record IsCurrent (on_date : Date) : Type 0 where
  pub early : 40 ≤ on_date
  pub late : on_date + 100 ≤ max_date

-- The query bounds of the server's day take in every occurrence that is due on the day of its
-- user, for each kind of reminder, whatever the user's time zone.
pub is_due-query_bounds :
    (kind : ReminderKind) (o : CommitmentOccurrence) (c : Commitment) (today on_date : Date)
    → AreNear today on_date
    → IsCurrent on_date
    → is_due kind o c today ≡ ok true
    → (b : Date × Date) × (query_bounds kind on_date ≡ ok b)
      × (b.0 ≤ o.due_date)
      × (o.due_date ≤ b.1)
unfolding is_due query_bounds bounds add_days sub_days
is_due-query_bounds notice o c today on_date n cur due =
    ((on_date - 1, on_date + 30 + 1), ground arith, ground arith, ground arith)
is_due-query_bounds overdue o c today on_date n cur due =
    ((on_date - 30 - 1, on_date - 3 + 1), ground arith, ground arith, ground arith)
is_due-query_bounds action_required o c today on_date n cur due =
    ((on_date - 1, on_date + 90 + 1), ground arith, ground arith, ground arith)

-- An occurrence that a notice is for: pending, of a running commitment whose reminders are on, without
-- a notice on the channel, and due on the day of its user.
pub record IsForNotice (channel : Channel) (db : Db) (on_date : Date) (j : Joined) : Type 0 where
  pub is_pending : j.0.status ≡ pending
  pub is_active : j.1.status ≡ active
  pub not_deleted : j.1.deleted_at ≡ none
  pub is_enabled : j.1.is_reminder_enabled ≡ true
  pub unsent : was_sent notice channel db j.0.id ≡ false
  pub due : (today : Date) × AreNear today on_date × (is_due notice j.0 j.1 today ≡ ok true)

is_due-reminder_days_before :
    (o : CommitmentOccurrence) (c : Commitment) (today on_date : Date)
    → AreNear today on_date
    → is_due notice o c today ≡ ok true
    → o.due_date ≤ on_date + timezone_spread_days + c.reminder_days_before
unfolding is_due bounds add_days sub_days
is_due-reminder_days_before o c today on_date n due = ground arith

is_due-notice_window :
    (o : CommitmentOccurrence) (c : Commitment) (today on_date : Date)
    → AreNear today on_date
    → IsCurrent on_date
    → is_due notice o c today ≡ ok true
    → (on_date - 1 ≤ o.due_date) × (o.due_date ≤ on_date + 30 + 1)
unfolding is_due bounds add_days sub_days
is_due-notice_window o c today on_date n cur due = (ground arith, ground arith)

notice_bounds :
    (on_date : Date)
    → IsCurrent on_date
    → query_bounds notice on_date ≡ ok (on_date - 1, on_date + 30 + 1)
unfolding query_bounds bounds add_days sub_days
notice_bounds on_date cur = ground arith

taken_in :
    (channel : Channel) (db : Db) (on_date : Date) (j : Joined)
    → IsCurrent on_date
    → IsForNotice channel db on_date j
    → (is_unreminded notice (on_date - 1) (on_date + 30 + 1) channel db j ≡ true)
      × (leb j.0.due_date (on_date + timezone_spread_days + j.1.reminder_days_before) ≡ true)
unfolding is_unreminded
taken_in channel db on_date (o, c) cur n =
    let (today, near, due) = n.due in
    let (from, until) = is_due-notice_window o c today on_date near cur due in
    let before = is_due-reminder_days_before o c today on_date near due in
    (
      rw (n.is_pending, n.is_active, n.not_deleted, n.is_enabled, n.unsent)
          (ground (arith, from, until)),
      ground (arith, before),
    )

all_three : (a b c : Bool) → (a ≡ true) × (b ≡ true) → c ≡ true → (a && (b && c)) ≡ true
all_three a b c h e = ground (arith, h, e)

-- The notices of a server's day leave out no occurrence that a notice is for: of the joined rows that
-- a test selects, when it selects only such occurrences, all are in the answer of `due_for_reminder`,
-- whatever the time zones of their users.
pub due_for_reminder-count :
    (t : Joined → Bool) (channel : Channel) (db : Db) (on_date : Date)
    → IsCurrent on_date
    → All (λ j. t j ≡ true → IsForNotice channel db on_date j) (joined db db.occurrences)
    → (rows : List Joined) × (due_for_reminder on_date channel db ≡ ok rows)
      × (count t (joined db db.occurrences) ≤ count t rows)
unfolding due_for_reminder unreminded
due_for_reminder-count t channel db on_date cur h =
    let q = is_unreminded notice (on_date - 1) (on_date + 30 + 1) channel db in
    let p = λ (j : Joined).
      leb j.0.due_date (on_date + timezone_spread_days + j.1.reminder_days_before) in
    let all = joined db db.occurrences in
    (
      select p (order_by due_le (select q all)),
      rw (notice_bounds on_date cur) refl,
      omega (
        arith,
        count-select t p (order_by due_le (select q all)),
        count-order_by (λ j. p j && t j) due_le (select q all),
        count-select (λ j. p j && t j) q all,
        count-le t (λ j. q j && (p j && t j)) all
            (All-map _ _
              (λ j for_notice yes'.
                all_three (q j) (p j) (t j) (taken_in channel db on_date j cur (for_notice yes'))
                  yes')
              all h),
      ),
    )

-- On a day when the cancellation window of an occurrence is open, the occurrence is due for an
-- action reminder, for a commitment that meets the table's checks.
pub is_open-is_due :
    (o : CommitmentOccurrence) (c : Commitment) (w : ActionWindow) (today : Date)
    → meets_checks c ≡ true
    → cancellation_window c o.due_date ≡ ok (some w)
    → is_open w today ≡ ok true
    → today + 90 ≤ max_date
    → is_due action_required o c today ≡ ok true
unfolding is_due is_open opens_on bounds add_days sub_days cancellation_window meets_checks
is_open-is_due o c w today checks e opens b = ground arith

-- A trial that ends more than 90 days before the first due date: on no day when its window is open
-- is that occurrence due for an action reminder.
pub trial_window-is_due :
    (o : CommitmentOccurrence) (c : Commitment) (w : ActionWindow) (today : Date)
    → trial_window c o.due_date ≡ some w
    → w.deadline + 90 < c.starts_on
    → c.starts_on ≤ max_date
    → is_open w today ≡ ok true
    → is_due action_required o c today ≡ ok false
unfolding is_due is_open opens_on bounds add_days sub_days trial_window
trial_window-is_due o c w today e far b opens = ground arith
