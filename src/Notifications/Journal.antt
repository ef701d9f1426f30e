-- ===== src/Notifications/Journal.antt =====
-- The journal of sent reminders: what is marked as sent is not selected again.
use oublie_pas_backend.Repositories.Reminders.{
  was_sent, mark_reminders_sent, is_unreminded, insert_reminder, is_reminder,
}
use oublie_pas_backend.Base.{
  List, ℕ, ◌≡◌, All, true, false, ◌≤◌, ◌∷◌, ◌∙◌, Bool-cases, All-map, arith, ==_refl, sym, inl, inr,
  refl,
}
use oublie_pas_backend.Base.Sql.{exists, count}
use oublie_pas_backend.Models.Columns.{ReminderKind, Channel, kind_beq_iff, channel_beq_iff}
use oublie_pas_backend.Session.{Db}
use oublie_pas_backend.Calendar.{Date}
use oublie_pas_backend.Models.Commitments.{CommitmentOccurrence, Commitment}
use oublie_pas_backend.Base.Sql.Laws.{exists-append, count-append, count-exists}
use mathlib.Core.Path.{subst}
use mathlib.Core.List.{[]}

pub insert_reminder-was_sent :
    (id new : ℕ) (k kind : ReminderKind) (c channel : Channel) (at : ℕ) (db : Db)
    → was_sent k c db id ≡ true
    → was_sent k c (insert_reminder new kind channel at db) id ≡ true
unfolding was_sent insert_reminder
insert_reminder-was_sent id new k kind c channel at db h =
    exists-append (is_reminder id k c) db.reminders _ ∙ ground (arith, h)

inserted-was_sent :
    (id : ℕ) (kind : ReminderKind) (channel : Channel) (at : ℕ) (db : Db)
    → was_sent kind channel (insert_reminder id kind channel at db) id ≡ true
unfolding was_sent insert_reminder exists
inserted-was_sent id kind channel at db =
    exists-append (is_reminder id kind channel) db.reminders _ ∙ ground (arith, ==_refl id)

mark_reminders_sent-was_sent :
    (ids : List ℕ) (kind : ReminderKind) (channel : Channel) (at : ℕ) (id : ℕ) (db : Db)
    → was_sent kind channel db id ≡ true
    → was_sent kind channel (mark_reminders_sent ids kind channel at db).1 id ≡ true
unfolding mark_reminders_sent
mark_reminders_sent-was_sent [] kind channel at id db h = h
mark_reminders_sent-was_sent (i ∷ ids) kind channel at id db h =
    elim (Bool-cases (was_sent kind channel db i)) [
      | inl e ↦ rw e (mark_reminders_sent-was_sent ids kind channel at id db h)
      | inr e ↦ rw e (
          mark_reminders_sent-was_sent ids kind channel at id (insert_reminder i kind channel at db)
            (insert_reminder-was_sent id i kind kind channel channel at db h))
    ]

pub marked-was_sent :
    (ids : List ℕ) (kind : ReminderKind) (channel : Channel) (at : ℕ) (db : Db)
    → All (λ id. was_sent kind channel (mark_reminders_sent ids kind channel at db).1 id ≡ true) ids
unfolding mark_reminders_sent
marked-was_sent [] kind channel at db = tt
marked-was_sent (i ∷ ids) kind channel at db = elim (Bool-cases (was_sent kind channel db i)) [
  | inl e ↦
      let step : (mark_reminders_sent (i ∷ ids) kind channel at db).1
          ≡ (mark_reminders_sent ids kind channel at db).1 =
        rw e refl in
      held _ _ (sym step) (mark_reminders_sent-was_sent ids kind channel at i db e)
        (marked-was_sent ids kind channel at db)
  | inr e ↦
      let grown = insert_reminder i kind channel at db in
      let step : (mark_reminders_sent (i ∷ ids) kind channel at db).1
          ≡ (mark_reminders_sent ids kind channel at grown).1 =
        rw e refl in
      held _ _ (sym step)
        (mark_reminders_sent-was_sent ids kind channel at i grown
          (inserted-was_sent i kind channel at db))
        (marked-was_sent ids kind channel at grown)
]
  where
    held :
        (a b : Db)
        → a ≡ b
        → was_sent kind channel a i ≡ true
        → All (λ j. was_sent kind channel a j ≡ true) ids
        → All (λ j. was_sent kind channel b j ≡ true) (i ∷ ids)
    held a b e h k = subst (λ x. All (λ j. was_sent kind channel x j ≡ true) (i ∷ ids)) e (h, k)

-- After a batch is marked as sent, no occurrence of the batch is unreminded for its kind and channel,
-- whatever the window that is asked for.
pub mark_reminders_sent-is_unreminded :
    (ids : List ℕ) (kind : ReminderKind) (channel : Channel) (at : ℕ) (db : Db)
    (earliest latest : Date)
    → All
        (λ id.
          (o : CommitmentOccurrence) (c : Commitment)
          → o.id ≡ id
          → is_unreminded kind earliest latest channel
              (mark_reminders_sent ids kind channel at db).1
              (o, c)
            ≡ false)
        ids
unfolding is_unreminded
mark_reminders_sent-is_unreminded ids kind channel at db earliest latest =
    All-map _ _ (λ id sent o c e. ground (arith, (rw (sym e) at sent))) ids
      (marked-was_sent ids kind channel at db)

inserted-count :
    (i : ℕ) (kind : ReminderKind) (channel : Channel) (at : ℕ) (db : Db)
    → was_sent kind channel db i ≡ false
    → ((id : ℕ) (k : ReminderKind) (c : Channel) → count (is_reminder id k c) db.reminders ≤ 1)
    → (id : ℕ) (k : ReminderKind) (c : Channel)
    → count (is_reminder id k c) (insert_reminder i kind channel at db).reminders ≤ 1
unfolding was_sent insert_reminder count
inserted-count i kind channel at db fresh h id k c =
    rw (count-append (is_reminder id k c) db.reminders _) (
      ground (
        arith,
        h id k c,
        count-exists (is_reminder i kind channel) db.reminders fresh,
        kind_beq_iff kind k,
        channel_beq_iff channel c,
      ))

-- The constraint `uq_reminder_occurrence_kind_channel`: a journal with at most one row for each
-- occurrence, kind and channel stays so when a batch is marked as sent, even with repeated
-- identifiers.
pub mark_reminders_sent-count :
    (ids : List ℕ) (kind : ReminderKind) (channel : Channel) (at : ℕ) (db : Db)
    → ((id : ℕ) (k : ReminderKind) (c : Channel) → count (is_reminder id k c) db.reminders ≤ 1)
    → (id : ℕ) (k : ReminderKind) (c : Channel)
    → count (is_reminder id k c) (mark_reminders_sent ids kind channel at db).1.reminders ≤ 1
unfolding mark_reminders_sent
mark_reminders_sent-count [] kind channel at db h id k c = h id k c
mark_reminders_sent-count (i ∷ ids) kind channel at db h id k c =
    elim (Bool-cases (was_sent kind channel db i)) [
      | inl e ↦ rw e (mark_reminders_sent-count ids kind channel at db h id k c)
      | inr e ↦ rw e (
          mark_reminders_sent-count ids kind channel at (insert_reminder i kind channel at db)
            (inserted-count i kind channel at db e h) id k c)
    ]
