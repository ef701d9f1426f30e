-- ===== src/Models/Commitments.antt =====
-- models/db/commitments_db.py: the commitments, their occurrences, and the journals of what was
-- sent. An identifier is a number, as are instants (seconds since 0001-01-01 00:00 UTC) and amounts
-- (cents, NUMERIC(10, 2)). `updated_at` and the `created_at` of occurrences, which no code reads,
-- are left out.
use Prim.Native.String.{String}
use oublie_pas_backend.Base.{ℕ, ◌+◌, Bool, true, false, ◌&&◌, Option, none, some, ltb, leb}
use oublie_pas_backend.Calendar.{Date}
use oublie_pas_backend.Models.Columns.{
  CommitmentType, Frequency, CommitmentStatus, active, paused, archived, OccurrenceStatus,
  ReminderKind, Channel,
}

abbrev pub default_reminder_days : ℕ
default_reminder_days = 3

abbrev pub max_reminder_days : ℕ
max_reminder_days = 30

abbrev pub overdue_reminder_days : ℕ
overdue_reminder_days = 3

abbrev pub overdue_reminder_window_days : ℕ
overdue_reminder_window_days = 30

abbrev pub reminder_log_margin_days : ℕ
reminder_log_margin_days = 15

abbrev pub purge_reminders_after_days : ℕ
purge_reminders_after_days = overdue_reminder_window_days + reminder_log_margin_days

abbrev pub min_trial_notice_days : ℕ
min_trial_notice_days = 3

abbrev pub purge_after_days : ℕ
purge_after_days = 30

abbrev pub max_cancellation_notice_days : ℕ
max_cancellation_notice_days = 60

abbrev pub max_commitments_per_type : ℕ
max_commitments_per_type = 25

abbrev pub restore_ceiling_factor : ℕ
restore_ceiling_factor = 2

-- `status in COUNTED_STATUSES`
abbrev pub is_counted : CommitmentStatus → Bool
is_counted active = true
is_counted paused = true
is_counted archived = false

pub record Commitment : Type 0 where
  pub id : ℕ
  pub user_id : ℕ
  pub title : String
  pub type : CommitmentType
  pub category : String
  pub amount : ℕ
  pub frequency : Frequency
  pub starts_on : Date
  pub ends_on : Option Date
  pub trial_ends_on : Option Date
  pub cancellation_notice_days : Option ℕ
  pub reminder_days_before : ℕ
  pub is_reminder_enabled : Bool
  pub status : CommitmentStatus
  pub notes : Option String
  pub deleted_at : Option ℕ
  pub created_at : ℕ

pub record CommitmentOccurrence : Type 0 where
  pub id : ℕ
  pub commitment_id : ℕ
  pub user_id : ℕ
  pub due_date : Date
  pub amount : ℕ
  pub status : OccurrenceStatus
  pub paid_at : Option ℕ
  pub paid_on : Option Date

pub record OccurrenceReminder : Type 0 where
  pub id : ℕ
  pub occurrence_id : ℕ
  pub kind : ReminderKind
  pub channel : Channel
  pub sent_at : ℕ

pub record WeeklyDigest : Type 0 where
  pub id : ℕ
  pub user_id : ℕ
  pub week_start : Date
  pub channel : Channel
  pub sent_at : ℕ

-- `column IS NULL OR p(column)`
abbrev pub null_or {ℓ} : {A : Type ℓ} → (A → Bool) → Option A → Bool
null_or p none = true
null_or p (some a) = p a

-- The CHECK constraints of the table `commitments` that its types leave open.
unfoldable pub meets_checks : Commitment → Bool
meets_checks c =
    ltb 0 c.amount
    && (leb c.reminder_days_before max_reminder_days
        && (null_or (λ e. leb c.starts_on e) c.ends_on
            && (null_or (λ t. leb t c.starts_on) c.trial_ends_on
                && null_or (λ n. leb 1 n && leb n max_cancellation_notice_days)
                    c.cancellation_notice_days)))
