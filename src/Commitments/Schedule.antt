-- ===== src/Commitments/Schedule.antt =====
-- OccurrenceGenerator: what the table of occurrences holds after a synchronisation.
use oublie_pas_backend.Repositories.Occurrences.{
  insert_occurrence, add_occurrences, has_due, delete_pending_occurrences_from, NewOccurrence,
  delete_occurrences, is_pending_from, same_due, occurrence_of,
}
use oublie_pas_backend.Commitments.Sync.{sync, resync, add_rows}
use oublie_pas_backend.Base.{
  List, Bool, ◌≡◌, All, ℕ, true, ◌≤◌, ◌∷◌, ==_refl, Bool-cases, false, ◌≟◌, arith, inl, refl, ◌∙◌,
  inr, ap, sym, map, ◌+◌, leb, ◌==◌, ◌⊎◌, ◌<◌,
}
use oublie_pas_backend.Models.Commitments.{Commitment, CommitmentOccurrence}
use oublie_pas_backend.Base.Sql.{exists, count}
use oublie_pas_backend.Calendar.{Date, add_days, max_date}
use oublie_pas_backend.Session.{Db}
use oublie_pas_backend.Errors.{ok, Result, err}
use oublie_pas_backend.Base.Sql.Laws.{exists-append, count-delete_eq, count-append}
use native.Mathlib.Nat.{le_refl}
use mathlib.Core.List.{[]}
use oublie_pas_backend.Models.Columns.{active, status_eq, paid, skipped}
use oublie_pas_backend.Commitments.Rows.{rows, new_row}
use mathlib.Core.Path.{subst}
use oublie_pas_backend.Commitments.Generator.{horizon_days, occurrence_dates}

insert_occurrence-has_due :
    (row new : NewOccurrence) (db : Db)
    → has_due row db ≡ true
    → has_due row (insert_occurrence new db) ≡ true
unfolding insert_occurrence has_due
insert_occurrence-has_due row new db h =
    exists-append (same_due row.commitment_id row.due_date) db.occurrences
      (occurrence_of db.next_id new ∷ [])
    ∙ ground (arith, h)

inserted-has_due : (row : NewOccurrence) (db : Db) → has_due row (insert_occurrence row db) ≡ true
unfolding insert_occurrence has_due exists
inserted-has_due row db =
    exists-append (same_due row.commitment_id row.due_date) db.occurrences
      (occurrence_of db.next_id row ∷ [])
    ∙ ground (arith, ==_refl row.commitment_id, ==_refl row.due_date)

add_occurrences-has_due :
    (new : List NewOccurrence) (row : NewOccurrence) (db : Db)
    → has_due row db ≡ true
    → has_due row (add_occurrences new db).1 ≡ true
unfolding add_occurrences
add_occurrences-has_due [] row db h = h
add_occurrences-has_due (r ∷ new) row db h = elim (Bool-cases (has_due r db)) [
  | inl e ↦ rw e (add_occurrences-has_due new row db h)
  | inr e ↦ rw e (
      add_occurrences-has_due new row (insert_occurrence r db)
        (insert_occurrence-has_due row r db h))
]

added-has_due :
    (new : List NewOccurrence) (db : Db)
    → All (λ row. has_due row (add_occurrences new db).1 ≡ true) new
unfolding add_occurrences
added-has_due [] db = tt
added-has_due (row ∷ new) db = elim (Bool-cases (has_due row db)) [
  | inl e ↦
      let step : (add_occurrences (row ∷ new) db).1 ≡ (add_occurrences new db).1 = rw e refl in
      held _ _ (sym step) (add_occurrences-has_due new row db e) (added-has_due new db)
  | inr e ↦
      let grown = insert_occurrence row db in
      let step : (add_occurrences (row ∷ new) db).1 ≡ (add_occurrences new grown).1 = rw e refl in
      held _ _ (sym step) (add_occurrences-has_due new row grown (inserted-has_due row db))
        (added-has_due new grown)
]
  where
    held :
        (a b : Db)
        → a ≡ b
        → has_due row a ≡ true
        → All (λ r. has_due r a ≡ true) new
        → All (λ r. has_due r b ≡ true) (row ∷ new)
    held a b e h k = subst (λ x. All (λ r. has_due r x ≡ true) (row ∷ new)) e (h, k)

adds_nothing :
    (new : List NewOccurrence) (db : Db)
    → All (λ row. has_due row db ≡ true) new
    → add_occurrences new db ≡ (0, db)
unfolding add_occurrences
adds_nothing [] db h = refl
adds_nothing (row ∷ new) db h = rw h.0 (adds_nothing new db h.1)

-- A second synchronisation on the same day adds no row and leaves the tables as they are.
pub sync-sync :
    (c : Commitment) (today : Date) (db : Db) (n : ℕ) (after : Db)
    → sync c today db ≡ (ok n, after)
    → sync c today after ≡ (ok 0, after)
unfolding sync add_rows
sync-sync c today db n after e = elim (Bool-cases (c.status ≟ active)) [
  | inr f ↦ rw f refl
  | inl f ↦ rw f (again (rows c today) (rw f at e))
]
  where
    again :
        (new : Result (List NewOccurrence))
        → add_rows new db ≡ (ok n, after)
        → add_rows new after ≡ (ok 0, after)
    again (ok new) q =
        let same : (add_occurrences new db).1 ≡ after = ap (λ r. r.1) q in
        rw
          (adds_nothing new after
            (subst (λ x. All (λ r. has_due r x ≡ true) new) same (added-has_due new db)))
          refl
    again (err x) q = absurd (let clash = ap (λ r. r.0) q in cc)

add_occurrences-count :
    (q : CommitmentOccurrence → Bool) (new : List NewOccurrence) (db : Db)
    → count q db.occurrences ≤ count q (add_occurrences new db).1.occurrences
unfolding add_occurrences insert_occurrence
add_occurrences-count q [] db = le_refl _
add_occurrences-count q (row ∷ new) db = elim (Bool-cases (has_due row db)) [
  | inl e ↦ rw e (add_occurrences-count q new db)
  | inr e ↦ rw e (
      omega (
        arith,
        count-append q db.occurrences (occurrence_of db.next_id row ∷ []),
        add_occurrences-count q new (insert_occurrence row db),
      ))
]

sync-count :
    (q : CommitmentOccurrence → Bool) (c : Commitment) (today : Date) (db : Db)
    → count q db.occurrences ≤ count q (sync c today db).1.occurrences
unfolding sync add_rows
sync-count q c today db = elim (Bool-cases (c.status ≟ active)) [
  | inr f ↦ rw f (le_refl _)
  | inl f ↦ rw f (go (rows c today))
]
  where
    go :
        (new : Result (List NewOccurrence))
        → count q db.occurrences ≤ count q (add_rows new db).1.occurrences
    go (ok new) = add_occurrences-count q new db
    go (err e) = le_refl _

-- A row that a new schedule of the commitment `c` leaves: one of another commitment, one that is paid
-- or skipped, or one that was due before the day.
abbrev pub IsKept : Commitment → Date → CommitmentOccurrence → Type 0
IsKept c today o =
    ((o.commitment_id == c.id) ≡ false)
    ⊎ ((o.status ≡ paid) ⊎ ((o.status ≡ skipped) ⊎ (o.due_date < today)))

kept-is_pending_from :
    (c : Commitment) (today : Date) (o : CommitmentOccurrence)
    → IsKept c today o
    → is_pending_from c.id today o ≡ false
kept-is_pending_from c today o (inl other) = rw other refl
kept-is_pending_from c today o (inr (inl done)) = ground (arith, done)
kept-is_pending_from c today o (inr (inr (inl done))) = ground (arith, done)
kept-is_pending_from c today o (inr (inr (inr past))) = ground (arith, past)

-- A new schedule removes no row of another commitment, none that is paid or skipped, and none that was
-- due before the day: of the rows that a test selects there are as many after it as before, or more,
-- when the test selects only such rows.
pub resync-count :
    (q : CommitmentOccurrence → Bool) (c : Commitment) (today : Date) (db : Db)
    → ((o : CommitmentOccurrence) → q o ≡ true → IsKept c today o)
    → count q db.occurrences ≤ count q (resync c today db).1.occurrences
unfolding resync delete_pending_occurrences_from delete_occurrences
resync-count q c today db h =
    let cleared = (delete_pending_occurrences_from c.id today db).1 in
    omega (
      arith,
      count-delete_eq (is_pending_from c.id today) q db.occurrences
          (λ o t. kept-is_pending_from c today o (h o t)),
      sync-count q c today cleared,
    )

of_rows :
    (c : Commitment) (dates : List Date) (after : Db)
    → All (λ row. has_due row after ≡ true) (map (new_row c) dates)
    → All (λ d. exists (same_due c.id d) after.occurrences ≡ true) dates
unfolding has_due new_row
of_rows c [] after h = tt
of_rows c (d ∷ dates) after h = (h.0, of_rows c dates after h.1)

-- A synchronisation of an active commitment leaves an occurrence on each date that
-- `occurrence_dates` returns for the horizon of its frequency.
pub sync-has_due :
    (c : Commitment) (today : Date) (db : Db) (dates : List Date)
    → c.status ≡ active
    → today + horizon_days c.frequency ≤ max_date
    → occurrence_dates c.starts_on c.frequency c.ends_on today (today + horizon_days c.frequency)
      ≡ ok dates
    → All (λ d. exists (same_due c.id d) (sync c today db).1.occurrences ≡ true) dates
unfolding sync rows add_rows add_days has_due
sync-has_due c today db dates live fits e =
    let within : leb (today + horizon_days c.frequency) max_date ≡ true = ground arith in
    let new = map (new_row c) dates in
    let is_live : (c.status ≟ active) ≡ true = ground arith in
    let listed : rows c today ≡ ok new = rw (within, e) refl in
    let step : (sync c today db).1 ≡ (add_occurrences new db).1 = rw (is_live, listed) refl in
    subst (λ x. All (λ d. exists (same_due c.id d) x.occurrences ≡ true) dates) (sym step)
      (of_rows c dates (add_occurrences new db).1 (added-has_due new db))
