-- ===== src/Repositories/Reminders.antt =====
-- repositories/commitment_repository.py: the occurrences that a reminder or a digest is about, and
-- the journal of the reminders that were sent.
use oublie_pas_backend.Models.Commitments.{CommitmentOccurrence, Commitment, OccurrenceReminder}
use oublie_pas_backend.Errors.{Result, ok, ◌>>=◌}
use oublie_pas_backend.Base.{none, some}
use oublie_pas_backend.Session.{Db}
use oublie_pas_backend.Base.{
  Bool, ℕ, List, ◌∷◌, leb, ◌≟◌, ltb, ◌==◌, ◌&&◌, ◌++◌, [], not, ◌+◌, if◌then◌else◌, ◌||◌,
}
use oublie_pas_backend.Calendar.{Date}
use oublie_pas_backend.Models.Columns.{
  ReminderKind, Channel, active, pending, kind_eq, notice, overdue, action_required, status_eq,
  occurrence_status_eq, channel_eq,
}
use oublie_pas_backend.Base.Sql.{order_by, count, exists, select, delete, is_none}
use oublie_pas_backend.Repositories.Occurrences.{commitment_of, is_between}
use oublie_pas_backend.Errors.{Result, ok}
use oublie_pas_backend.Notifications.ReminderWindow.{query_bounds, timezone_spread_days}

abbrev pub Joined : Type 0
Joined = CommitmentOccurrence × Commitment

-- The join of occurrences and commitments, on a list of occurrences.
unfoldable pub joined : Db → List CommitmentOccurrence → List Joined
joined db [] = []
joined db (o ∷ os) =
    let rest = joined db os in elim (commitment_of db o) [ none ↦ rest | some c ↦ (o, c) ∷ rest ]

abbrev pub due_le : Joined → Joined → Bool
due_le a b = leb a.0.due_date b.0.due_date

abbrev pub is_running : Commitment → Bool
is_running c = c.status ≟ active && is_none c.deleted_at

unfoldable pub due_between : Date → Date → Db → List Joined
due_between first last db = order_by due_le (
    select (λ j. (j.0.status ≟ pending && is_between first last j.0) && is_running j.1)
      (joined db db.occurrences))

abbrev pub is_reminder : ℕ → ReminderKind → Channel → OccurrenceReminder → Bool
is_reminder occurrence_id kind channel r =
    r.occurrence_id == occurrence_id && (r.kind ≟ kind && r.channel ≟ channel)

-- A row of the journal for the occurrence, the kind and the channel.
unfoldable pub was_sent : ReminderKind → Channel → Db → ℕ → Bool
was_sent kind channel db occurrence_id =
    exists (is_reminder occurrence_id kind channel) db.reminders

-- The WHERE clause of `_unreminded`.
unfoldable pub is_unreminded : ReminderKind → Date → Date → Channel → Db → Joined → Bool
unfolding was_sent
is_unreminded kind earliest latest channel db (o, c) =
    ((o.status ≟ pending && is_between earliest latest o)
      && (is_running c && c.is_reminder_enabled))
    && not (was_sent kind channel db o.id)

unfoldable pub unreminded : ReminderKind → Date → Date → Channel → Db → List Joined
unfolding is_unreminded
unreminded kind earliest latest channel db =
    order_by due_le
      (select (is_unreminded kind earliest latest channel db) (joined db db.occurrences))

unfoldable pub due_for_reminder : Date → Channel → Db → Result (List Joined)
due_for_reminder on_date channel db = query_bounds notice on_date >>= λ b. ok (
    select (λ j. leb j.0.due_date (on_date + timezone_spread_days + j.1.reminder_days_before))
      (unreminded notice b.0 b.1 channel db))

unfoldable pub overdue_for_reminder : Date → Channel → Db → Result (List Joined)
overdue_for_reminder on_date channel db =
    query_bounds overdue on_date >>= λ b. ok (unreminded overdue b.0 b.1 channel db)

unfoldable pub action_candidates : Date → Channel → Db → Result (List Joined)
action_candidates on_date channel db = query_bounds action_required on_date >>= λ b. ok (
    select (λ j. not (is_none j.1.trial_ends_on) || not (is_none j.1.cancellation_notice_days))
      (unreminded action_required b.0 b.1 channel db))

delete_reminders : (OccurrenceReminder → Bool) → Db → ℕ × Db
delete_reminders p db = (count p db.reminders, record db { reminders = delete p db.reminders })

-- `OccurrenceReminder.occurrence_id IN (SELECT ...)`
abbrev about : (CommitmentOccurrence → Bool) → Db → OccurrenceReminder → Bool
about q db r = exists (λ o. q o && o.id == r.occurrence_id) db.occurrences

unfoldable pub purge_reminders : Date → Db → ℕ × Db
unfolding delete_reminders
purge_reminders before db = delete_reminders (about (λ o. ltb o.due_date before) db) db

unfoldable pub clear_reminders : ℕ → ReminderKind → Db → ℕ × Db
unfolding delete_reminders
clear_reminders commitment_id kind db =
    delete_reminders
      (λ r.
        r.kind ≟ kind && about (λ o. o.commitment_id == commitment_id && o.status ≟ pending) db r)
      db

unfoldable pub insert_reminder : ℕ → ReminderKind → Channel → ℕ → Db → Db
insert_reminder occurrence_id kind channel sent_at db =
    let row : OccurrenceReminder = record {
      id = db.next_id;
      occurrence_id = occurrence_id;
      kind = kind;
      channel = channel;
      sent_at = sent_at;
    } in
    record db { reminders = db.reminders ++ (row ∷ []); next_id = db.next_id + 1 }

-- INSERT ... ON CONFLICT DO NOTHING on `uq_reminder_occurrence_kind_channel`, row by row.
unfoldable pub mark_reminders_sent : List ℕ → ReminderKind → Channel → ℕ → Db → ℕ × Db
unfolding was_sent insert_reminder
mark_reminders_sent [] kind channel sent_at db = (0, db)
mark_reminders_sent (o ∷ os) kind channel sent_at db =
    let (n, after) =
      mark_reminders_sent os kind channel sent_at
        (if was_sent kind channel db o then db else insert_reminder o kind channel sent_at db) in
    (if was_sent kind channel db o then n else n + 1, after)
