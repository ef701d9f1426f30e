-- ===== src/Notifications/Tests.antt =====
-- Runs of services/notifications on concrete rows.
use oublie_pas_backend.Models.Commitments.{Commitment, CommitmentOccurrence, meets_checks}
use oublie_pas_backend.Commitments.ActionWindow.{
  ActionWindow, is_open, trial, cancellation, opens_on, cancellation_window, trial_window,
}
use oublie_pas_backend.Notifications.ReminderWindow.{is_due, bounds, query_bounds}
use oublie_pas_backend.Models.Columns.{
  email, subscription, pending, yearly, action_required, active, notice, ReminderKind, Channel,
}
use oublie_pas_backend.Base.{none, some, ◌≤◌, true, ◌≡◌, arith, false, refl, All, [], ℕ, ◌∷◌, List}
use oublie_pas_backend.Calendar.{add_days, sub_days, Date}
use oublie_pas_backend.Errors.{ok}
use oublie_pas_backend.Notifications.ReminderWindow.Zones.{
  is_due-query_bounds, is_open-is_due, trial_window-is_due, IsForNotice, due_for_reminder-count,
}
use oublie_pas_backend.Session.{Db}
use oublie_pas_backend.Base.Sql.{count, exists, find}
use oublie_pas_backend.Repositories.Reminders.{
  is_unreminded, is_reminder, mark_reminders_sent, was_sent, joined, Joined, due_for_reminder,
}
use oublie_pas_backend.Notifications.Journal.{
  mark_reminders_sent-is_unreminded, mark_reminders_sent-count,
}
use oublie_pas_backend.Repositories.Subscriptions.Limit.{
  AreDevices, DeviceOp, apply_devices, save_op, apply_devices-AreDevices, remove_op,
}
use oublie_pas_backend.Repositories.Occurrences.{commitment_of}

abbrev plan : Commitment
plan = record {
  id = 1;
  user_id = 7;
  title = "Plan";
  type = subscription;
  category = "Home";
  amount = 1_000;
  frequency = yearly;
  starts_on = 739400;
  ends_on = none;
  trial_ends_on = some 739300;
  cancellation_notice_days = some 10;
  reminder_days_before = 3;
  is_reminder_enabled = true;
  status = active;
  notes = none;
  deleted_at = none;
  created_at = 0;
}

abbrev first_due : CommitmentOccurrence
first_due = record {
  id = 2;
  commitment_id = 1;
  user_id = 7;
  due_date = 739400;
  amount = 1_000;
  status = pending;
  paid_at = none;
  paid_on = none;
}

abbrev trial_end : ActionWindow
trial_end = record { deadline = 739300; reason = trial; lead_days = 3 }

abbrev notice_end : ActionWindow
notice_end = record { deadline = 739390; reason = cancellation; lead_days = 3 }

is_due-query_bounds_example :
    (b : Date × Date) × (query_bounds action_required 739389 ≡ ok b)
    × (b.0 ≤ 739400)
    × (739400 ≤ b.1)
unfolding is_due bounds add_days sub_days
is_due-query_bounds_example =
    is_due-query_bounds action_required first_due plan 739388 739389
      (record { behind = omega arith; ahead = omega arith })
      (record { early = omega arith; late = omega arith }) refl

is_open-is_due_example : is_due action_required first_due plan 739388 ≡ ok true
unfolding is_open opens_on sub_days cancellation_window meets_checks
is_open-is_due_example =
    is_open-is_due first_due plan notice_end 739388 refl refl refl (omega arith)

trial_window-is_due_example : is_due action_required first_due plan 739299 ≡ ok false
unfolding is_open opens_on sub_days trial_window
trial_window-is_due_example =
    trial_window-is_due first_due plan trial_end 739299 refl (omega arith) (omega arith) refl

abbrev empty_journal : Db
empty_journal = record {
  users = [];
  refresh_tokens = [];
  attempts = [];
  subscriptions = [];
  commitments = plan ∷ [];
  occurrences = first_due ∷ [];
  reminders = [];
  digests = [];
  next_id = 3;
}

mark_reminders_sent-is_unreminded_example :
    All
      (λ id.
        (o : CommitmentOccurrence) (c : Commitment)
        → o.id ≡ id
        → is_unreminded notice 739390 739410 email
            (mark_reminders_sent (2 ∷ []) notice email 50 empty_journal).1
            (o, c)
          ≡ false)
      (2 ∷ [])
mark_reminders_sent-is_unreminded_example =
    mark_reminders_sent-is_unreminded (2 ∷ []) notice email 50 empty_journal 739390 739410

journal_unique :
    (id : ℕ) (k : ReminderKind) (c : Channel)
    → count (is_reminder id k c) empty_journal.reminders ≤ 1
unfolding count
journal_unique id k c = omega arith

mark_reminders_sent-count_example :
    count
      (is_reminder 2 notice email)
      (mark_reminders_sent (2 ∷ 2 ∷ []) notice email 50 empty_journal).1.reminders
    ≤ 1
mark_reminders_sent-count_example =
    mark_reminders_sent-count (2 ∷ 2 ∷ []) notice email 50 empty_journal journal_unique 2 notice
      email

abbrev registrations : List DeviceOp
registrations =
    save_op 7 "https://push.example.org/a" "key" "auth" none 100
    ∷ save_op 8 "https://push.example.org/a" "key" "auth" none 200
    ∷ remove_op 8 "https://push.example.org/a"
    ∷ []

empty_journal-AreDevices : AreDevices empty_journal
unfolding count
empty_journal-AreDevices = record { few = λ v. omega arith; unique = λ i. omega arith; below = tt }

apply_devices-AreDevices_example : AreDevices (apply_devices registrations empty_journal)
apply_devices-AreDevices_example =
    apply_devices-AreDevices registrations empty_journal empty_journal-AreDevices

plan-IsForNotice : IsForNotice email empty_journal 739398 (first_due, plan)
unfolding is_due bounds add_days sub_days was_sent exists
plan-IsForNotice = record {
  is_pending = refl;
  is_active = refl;
  not_deleted = refl;
  is_enabled = refl;
  unsent = refl;
  due = (739397, record { behind = omega arith; ahead = omega arith }, refl);
}

due_for_reminder-count_example :
    (rows : List Joined) × (due_for_reminder 739398 email empty_journal ≡ ok rows)
    × (count (λ j. true) (joined empty_journal empty_journal.occurrences) ≤ count (λ j. true) rows)
unfolding joined commitment_of find
due_for_reminder-count_example =
    due_for_reminder-count (λ j. true) email empty_journal 739398
      (record { early = omega arith; late = omega arith }) ((λ e. plan-IsForNotice), tt)
