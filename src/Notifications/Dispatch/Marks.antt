-- ===== src/Notifications/Dispatch/Marks.antt =====
-- What the marks of a batch do to the journal and to the other tables.
use oublie_pas_backend.Base.{
  ℕ, Bool, List, ◌≡◌, true, false, All, ◌∷◌, [], Bool-cases, inl, inr, refl, arith, ◌==◌, All-map,
  ◌≤◌,
}
use oublie_pas_backend.Base.Sql.{count, select}
use oublie_pas_backend.Models.Columns.{ReminderKind, Channel, notice, overdue, action_required}
use oublie_pas_backend.Notifications.Dispatch.{mark, ids_of, is_trial}
use oublie_pas_backend.Notifications.Journal.{marked-was_sent, insert_reminder-was_sent}
use oublie_pas_backend.Notifications.Run.{Entry}
use oublie_pas_backend.Repositories.Reminders.{mark_reminders_sent, insert_reminder, was_sent}
use oublie_pas_backend.Session.{Db}

-- The tables that a mark leaves as they are.
pub record SameRows (a b : Db) : Type 0 where
  pub users : b.users ≡ a.users
  pub commitments : b.commitments ≡ a.commitments
  pub occurrences : b.occurrences ≡ a.occurrences
  pub digests : b.digests ≡ a.digests
  pub next_id : a.next_id ≤ b.next_id

pub mark_reminders_sent-SameRows :
    (ids : List ℕ) (kind : ReminderKind) (channel : Channel) (at : ℕ) (db : Db)
    → SameRows db (mark_reminders_sent ids kind channel at db).1
unfolding mark_reminders_sent insert_reminder
mark_reminders_sent-SameRows [] kind channel at db = ground arith
mark_reminders_sent-SameRows (i ∷ ids) kind channel at db =
    elim (Bool-cases (was_sent kind channel db i)) [
      | inl e ↦ rw e (mark_reminders_sent-SameRows ids kind channel at db)
      | inr e ↦ rw e (
          ground (
            arith,
            mark_reminders_sent-SameRows ids kind channel at (insert_reminder i kind channel at db),
          ))
    ]

pub mark-SameRows :
    (kind : ReminderKind) (channel : Channel) (rows : List Entry) (at : ℕ) (db : Db)
    → SameRows db (mark kind channel rows at db)
unfolding mark
mark-SameRows action_required channel rows at db = ground (
  arith,
  mark_reminders_sent-SameRows (ids_of rows) action_required channel at db,
  mark_reminders_sent-SameRows (ids_of (select (λ e. is_trial e.window) rows)) notice channel at
      (mark_reminders_sent (ids_of rows) action_required channel at db).1,
)
mark-SameRows notice channel rows at db =
    mark_reminders_sent-SameRows (ids_of rows) notice channel at db
mark-SameRows overdue channel rows at db =
    mark_reminders_sent-SameRows (ids_of rows) overdue channel at db

-- A journal keeps what it has, for every kind and channel.
pub kept-was_sent :
    (ids : List ℕ) (kind k : ReminderKind) (channel c : Channel) (at id : ℕ) (db : Db)
    → was_sent k c db id ≡ true
    → was_sent k c (mark_reminders_sent ids kind channel at db).1 id ≡ true
unfolding mark_reminders_sent
kept-was_sent [] kind k channel c at id db h = h
kept-was_sent (i ∷ ids) kind k channel c at id db h =
    elim (Bool-cases (was_sent kind channel db i)) [
      | inl e ↦ rw e (kept-was_sent ids kind k channel c at id db h)
      | inr e ↦ rw e (
          kept-was_sent ids kind k channel c at id (insert_reminder i kind channel at db)
            (insert_reminder-was_sent id i k kind c channel at db h))
    ]

module _ (k : ReminderKind) (c : Channel) (at id : ℕ) where
  pub mark-was_sent :
      (kind : ReminderKind) (channel : Channel) (rows : List Entry) (db : Db)
      → was_sent k c db id ≡ true
      → was_sent k c (mark kind channel rows at db) id ≡ true
  unfolding mark
  mark-was_sent action_required channel rows db h =
      kept-was_sent _ notice k channel c at id _
        (kept-was_sent (ids_of rows) action_required k channel c at id db h)
  mark-was_sent notice channel rows db h = kept-was_sent (ids_of rows) notice k channel c at id db h
  mark-was_sent overdue channel rows db h =
      kept-was_sent (ids_of rows) overdue k channel c at id db h

abbrev pub is_about : ℕ → Entry → Bool
is_about id e = e.occurrence.id == id

-- A test that holds of all the identifiers of the rows, but not of `id`.
unmarked :
    (p : ℕ → Bool) (id : ℕ) (rows : List Entry)
    → All (λ i. p i ≡ true) (ids_of rows)
    → p id ≡ false
    → count (is_about id) rows ≡ 0
unfolding count
unmarked p id [] h n = refl
unmarked p id (e ∷ es) h n = elim (Bool-cases (e.occurrence.id == id)) [
  | inl same ↦ absurd (let clash : p id ≡ true = ground (arith, h.0) in cc)
  | inr other ↦ rw other (unmarked p id es h.1 n)
]

-- The rows of a batch are in the journal after its marks.
pub mark-All :
    (kind : ReminderKind) (channel : Channel) (rows : List Entry) (at : ℕ) (db : Db)
    → All (λ i. was_sent kind channel (mark kind channel rows at db) i ≡ true) (ids_of rows)
unfolding mark
mark-All action_required channel rows at db =
    All-map _ _
      (λ i sent.
        kept-was_sent (ids_of (select (λ e. is_trial e.window) rows)) notice action_required channel
          channel at i (mark_reminders_sent (ids_of rows) action_required channel at db).1 sent)
      (ids_of rows) (marked-was_sent (ids_of rows) action_required channel at db)
mark-All notice channel rows at db = marked-was_sent (ids_of rows) notice channel at db
mark-All overdue channel rows at db = marked-was_sent (ids_of rows) overdue channel at db

pub mark-count :
    (kind : ReminderKind) (channel : Channel) (rows : List Entry) (at id : ℕ) (db : Db)
    → was_sent kind channel (mark kind channel rows at db) id ≡ false
    → count (is_about id) rows ≡ 0
mark-count kind channel rows at id db =
    unmarked (was_sent kind channel (mark kind channel rows at db)) id rows
      (mark-All kind channel rows at db)
