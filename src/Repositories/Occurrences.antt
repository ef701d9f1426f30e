-- ===== src/Repositories/Occurrences.antt =====
-- repositories/commitment_repository.py: the rows of `commitment_occurrences`.
use oublie_pas_backend.Session.{Db}
use oublie_pas_backend.Base.{
  Option, ℕ, List, Bool, ◌∷◌, none, ◌==◌, false, leb, ◌++◌, ◌&&◌, min, ◌≟◌, map, not, ltb, ◌+◌,
  if◌then◌else◌,
}
use oublie_pas_backend.Calendar.{Date}
use oublie_pas_backend.Models.Commitments.{CommitmentOccurrence, Commitment}
use oublie_pas_backend.Models.Columns.{
  OccurrenceStatus, pending, CommitmentType, type_eq, occurrence_status_eq, skipped,
}
use oublie_pas_backend.Base.Sql.{
  find, limit, select, sum_by, count, update, order_by, delete, is_none, given, exists,
}
use mathlib.Core.Option.{some}
use mathlib.Core.List.{[]}
use oublie_pas_backend.Errors.{Result, ok, err, integrity_error}
use mathlib.Core.Option

-- The commitment that a join finds for an occurrence.
unfoldable pub commitment_of : Db → CommitmentOccurrence → Option Commitment
commitment_of db o = find (λ c. c.id == o.commitment_id) db.commitments

abbrev not_deleted : Option Commitment → Bool
not_deleted none = false
not_deleted (some c) = is_none c.deleted_at

-- `_live_occurrences`: those of a user whose commitment is not in the trash.
unfoldable pub is_live_occurrence : Db → ℕ → CommitmentOccurrence → Bool
unfolding commitment_of
is_live_occurrence db user_id o = o.user_id == user_id && not_deleted (commitment_of db o)

abbrev pub is_between : Date → Date → CommitmentOccurrence → Bool
is_between first last o = leb first o.due_date && leb o.due_date last

abbrev due_le : CommitmentOccurrence → CommitmentOccurrence → Bool
due_le a b = leb a.due_date b.due_date

-- A row of `add_occurrences`.
pub record NewOccurrence : Type 0 where
  pub commitment_id : ℕ
  pub user_id : ℕ
  pub due_date : Date
  pub amount : ℕ

-- The constraint `uq_occurrence_commitment_due`.
abbrev pub same_due : ℕ → Date → CommitmentOccurrence → Bool
same_due commitment_id due_date o = o.commitment_id == commitment_id && o.due_date == due_date

abbrev pub occurrence_of : ℕ → NewOccurrence → CommitmentOccurrence
occurrence_of id row = record {
  id = id;
  commitment_id = row.commitment_id;
  user_id = row.user_id;
  due_date = row.due_date;
  amount = row.amount;
  status = pending;
  paid_at = none;
  paid_on = none;
}

unfoldable pub has_due : NewOccurrence → Db → Bool
has_due row db = exists (same_due row.commitment_id row.due_date) db.occurrences

unfoldable pub insert_occurrence : NewOccurrence → Db → Db
insert_occurrence row db = record db {
  occurrences = db.occurrences ++ (occurrence_of db.next_id row ∷ []);
  next_id = db.next_id + 1;
}

-- INSERT ... ON CONFLICT DO NOTHING, row by row: the number of rows that went in, and the tables.
unfoldable pub add_occurrences : List NewOccurrence → Db → ℕ × Db
unfolding has_due insert_occurrence
add_occurrences [] db = (0, db)
add_occurrences (row ∷ rows) db =
    let (n, after) =
      add_occurrences rows (if has_due row db then db else insert_occurrence row db) in
    (if has_due row db then n else n + 1, after)

unfoldable pub get_occurrence : ℕ → ℕ → Db → Option CommitmentOccurrence
get_occurrence occurrence_id user_id db =
    find (λ o. is_live_occurrence db user_id o && o.id == occurrence_id) db.occurrences

unfoldable pub list_occurrences :
    ℕ → Date → Date → Option OccurrenceStatus → Option ℕ → Db → List CommitmentOccurrence
list_occurrences user_id first last status at_most db = limit at_most (
    order_by due_le (
      select
        (λ o. is_live_occurrence db user_id o && (is_between first last o && given status o.status))
        db.occurrences))

abbrev min_of : List Date → Option Date
min_of [] = none
min_of (d ∷ ds) = elim (min_of ds) [ none ↦ some d | some e ↦ some (min d e) ]

pub record DueDates : Type 0 where
  pub next_due : Option Date
  pub late : Option Date

-- The entry of `due_dates` for one commitment. The source has no entry where no occurrence is
-- pending; the two columns are NULL here, and its callers read both alike.
unfoldable pub due_dates : ℕ → Date → Db → ℕ → DueDates
due_dates user_id floor db commitment_id =
    let rows =
      select
        (λ o.
          is_live_occurrence db user_id o
          && (o.status ≟ pending && o.commitment_id == commitment_id))
        db.occurrences in
    record {
      next_due = min_of (map (λ o. o.due_date) (select (λ o. leb floor o.due_date) rows));
      late = min_of (map (λ o. o.due_date) (select (λ o. ltb o.due_date floor) rows));
    }

abbrev type_is : Db → CommitmentType → CommitmentOccurrence → Bool
type_is db t o = elim (commitment_of db o) [ none ↦ false | some c ↦ c.type ≟ t ]

-- The entry of `totals_by_type` for a type, 0 where it has none.
unfoldable pub totals_by_type : ℕ → Date → Date → Db → CommitmentType → ℕ
totals_by_type user_id first last db t =
    sum_by (λ o. o.amount)
      (select
        (λ o.
          (is_live_occurrence db user_id o && (is_between first last o && not (o.status ≟ skipped)))
          && type_is db t o)
        db.occurrences)

-- The entry of `totals_by_status` for a status, 0 where it has none.
unfoldable pub totals_by_status : ℕ → Date → Date → Db → OccurrenceStatus → ℕ
totals_by_status user_id first last db s =
    sum_by (λ o. o.amount)
      (select (λ o. (is_live_occurrence db user_id o && is_between first last o) && o.status ≟ s)
        db.occurrences)

abbrev pub is_late_on : Date → CommitmentOccurrence → Bool
is_late_on on_date o = o.status ≟ pending && ltb o.due_date on_date

unfoldable pub list_late : ℕ → Date → Option ℕ → Db → List CommitmentOccurrence
list_late user_id on_date at_most db = limit at_most (
    order_by due_le
      (select (λ o. is_live_occurrence db user_id o && is_late_on on_date o) db.occurrences))

unfoldable pub count_late : ℕ → Date → Db → ℕ
count_late user_id on_date db =
    count (λ o. is_live_occurrence db user_id o && is_late_on on_date o) db.occurrences

unfoldable pub count_occurrences : ℕ → Date → Date → Option OccurrenceStatus → Db → ℕ
count_occurrences user_id first last status db =
    count
      (λ o. is_live_occurrence db user_id o && (is_between first last o && given status o.status))
      db.occurrences

-- DELETE of occurrences, with the cascade to their reminders.
unfoldable pub delete_occurrences : (CommitmentOccurrence → Bool) → Db → ℕ × Db
delete_occurrences p db = (
  count p db.occurrences,
  record db {
    occurrences = delete p db.occurrences;
    reminders =
        delete (λ r. exists (λ o. p o && o.id == r.occurrence_id) db.occurrences) db.reminders;
  },
)

abbrev pub is_pending_from : ℕ → Date → CommitmentOccurrence → Bool
is_pending_from commitment_id floor o =
    o.commitment_id == commitment_id && (o.status ≟ pending && leb floor o.due_date)

unfoldable pub delete_pending_occurrences_from : ℕ → Date → Db → ℕ × Db
delete_pending_occurrences_from commitment_id floor =
    delete_occurrences (is_pending_from commitment_id floor)

abbrev pub or_kept : Option ℕ → ℕ → ℕ
or_kept none old = old
or_kept (some new) old = new

abbrev pub settled :
    OccurrenceStatus
    → Option ℕ
    → Option ℕ
    → Option Date
    → CommitmentOccurrence
    → CommitmentOccurrence
settled status amount paid_at paid_on o = record o {
  amount = or_kept amount o.amount;
  status = status;
  paid_at = paid_at;
  paid_on = paid_on;
}

-- `status` is NULL where a request says so; the column refuses that when the row is flushed.
unfoldable pub set_occurrence_status :
    ℕ
    → ℕ
    → Option OccurrenceStatus
    → Option ℕ
    → Option ℕ
    → Option Date
    → Db
    → Result (Option CommitmentOccurrence) × Db
unfolding get_occurrence
set_occurrence_status occurrence_id user_id none amount paid_at paid_on db =
    (if is_none (get_occurrence occurrence_id user_id db) then ok none else err integrity_error, db)
set_occurrence_status occurrence_id user_id (some status) amount paid_at paid_on db = (
  ok (Option.map (settled status amount paid_at paid_on) (get_occurrence occurrence_id user_id db)),
  record db {
    occurrences =
        update (λ o. is_live_occurrence db user_id o && o.id == occurrence_id)
          (settled status amount paid_at paid_on) db.occurrences;
  },
)
