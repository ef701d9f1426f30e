-- ===== src/Commitments/Population/Frame.antt =====
-- The calls that leave the commitments as they are.
use oublie_pas_backend.Session.{Db, lift}
use oublie_pas_backend.Repositories.Occurrences.{
  add_occurrences, delete_pending_occurrences_from, NewOccurrence, delete_occurrences,
  insert_occurrence, has_due, set_occurrence_status,
}
use oublie_pas_backend.Commitments.Sync.{
  sync, resync, add_rows, sync_each, sync_all_active, floor_of,
}
use oublie_pas_backend.Base.{
  ◌≡◌, ◌∙◌, List, ◌≤◌, ◌∷◌, refl, Bool-cases, inl, inr, arith, ◌≟◌, Option, ℕ, ◌+◌, some,
}
use native.Mathlib.Nat.{le_refl, le_trans}
use oublie_pas_backend.Commitments.Population.{IsPopulated, Cap}
use oublie_pas_backend.Models.Commitments.{Commitment, CommitmentOccurrence}
use oublie_pas_backend.Calendar.{Date}
use mathlib.Core.List.{[]}
use oublie_pas_backend.Commitments.Service.Update.{after_update, reschedules, changes_actions}
use oublie_pas_backend.Errors.{Result, ok, err}
use oublie_pas_backend.Models.Columns.{active, status_eq, OccurrenceStatus}
use oublie_pas_backend.Repositories.Reminders.{clear_reminders}
use oublie_pas_backend.Commitments.Rows.{rows}
use oublie_pas_backend.Schemas.Commitments.{CommitmentUpdate, OccurrenceUpdate}
use Prim.Native.String.{String}
use oublie_pas_backend.Repositories.Commitments.{active_with_timezone}
use oublie_pas_backend.Commitments.Service.Occurrences.{write_occurrence, get_or_old}
use mathlib.Core.Option.{none}
use oublie_pas_backend.Commitments.Requests.Calls.{>>=-after}
use oublie_pas_backend.Commitments.Service.{settle}
use mathlib.Core.Path.{subst}

pub record SameCommitments (before after : Db) : Type 0 where
  pub commitments : after.commitments ≡ before.commitments
  pub next_id : before.next_id ≤ after.next_id

pub SameCommitments-refl : (db : Db) → SameCommitments db db
SameCommitments-refl db = record { commitments = refl; next_id = le_refl db.next_id }

pub SameCommitments-trans :
    (a b c : Db) → SameCommitments a b → SameCommitments b c → SameCommitments a c
SameCommitments-trans a b c h k = record {
  commitments = k.commitments ∙ h.commitments;
  next_id = le_trans h.next_id k.next_id;
}

pub IsPopulated-same :
    (cap : Cap) (a b : Db) → SameCommitments a b → IsPopulated cap a → IsPopulated cap b
IsPopulated-same cap a b s p = record {
  keyed = λ i. rw s.commitments (p.keyed i);
  fresh = λ i le. rw s.commitments (p.fresh i (le_trans s.next_id le));
  capped = λ u t. rw s.commitments (p.capped u t);
}

pub add_occurrences-SameCommitments :
    (new : List NewOccurrence) (db : Db) → SameCommitments db (add_occurrences new db).1
unfolding add_occurrences
add_occurrences-SameCommitments [] db = SameCommitments-refl db
add_occurrences-SameCommitments (row ∷ new) db = elim (Bool-cases (has_due row db)) [
  | inl e ↦ rw e (add_occurrences-SameCommitments new db)
  | inr e ↦ rw e (grow (add_occurrences-SameCommitments new (insert_occurrence row db)))
]
  where
    grow :
        {after : Db} → SameCommitments (insert_occurrence row db) after → SameCommitments db after
    grow s = record { commitments = s.commitments; next_id = omega arith }

add_rows-SameCommitments :
    (new : Result (List NewOccurrence)) (db : Db) → SameCommitments db (add_rows new db).1
unfolding add_rows
add_rows-SameCommitments (ok new) db = add_occurrences-SameCommitments new db
add_rows-SameCommitments (err e) db = SameCommitments-refl db

pub sync-SameCommitments :
    (c : Commitment) (today : Date) (db : Db) → SameCommitments db (sync c today db).1
unfolding sync
sync-SameCommitments c today db = elim (Bool-cases (c.status ≟ active)) [
  | inl e ↦ rw e (add_rows-SameCommitments (rows c today) db)
  | inr e ↦ rw e (SameCommitments-refl db)
]

pub resync-SameCommitments :
    (c : Commitment) (today : Date) (db : Db) → SameCommitments db (resync c today db).1
unfolding resync delete_pending_occurrences_from delete_occurrences
resync-SameCommitments c today db =
    let s = sync-SameCommitments c today (delete_pending_occurrences_from c.id today db).1 in
    record { commitments = s.commitments; next_id = s.next_id }

pub after_update-SameCommitments :
    (c : Commitment) (p : CommitmentUpdate) (today : Date) (db : Db)
    → SameCommitments db (after_update c p today db).1
unfolding after_update clear_reminders
after_update-SameCommitments c p today db = elim (Bool-cases (reschedules p)) [
  | inl e ↦ rw e (resync-SameCommitments c today db)
  | inr e ↦ elim (Bool-cases (changes_actions p)) [
    | inl f ↦ rw (e, f) (record { commitments = refl; next_id = le_refl db.next_id })
    | inr f ↦ rw (e, f) (SameCommitments-refl db)
  ]
]

sync_each-SameCommitments :
    (today_in : String → Date) (today : Option Date) (cs : List (Commitment × String)) (n : ℕ)
    (db : Db)
    → SameCommitments db (sync_each today_in today cs n db).1
unfolding sync_each floor_of
sync_each-SameCommitments today_in today [] n db = SameCommitments-refl db
sync_each-SameCommitments today_in today ((c, zone) ∷ cs) n db =
    let floor = floor_of today (today_in zone) in
    let step = sync-SameCommitments c floor db in
    go (sync c floor db) step (λ m after. sync_each-SameCommitments today_in today cs (n + m) after)
  where
    go :
        (r : Result ℕ × Db)
        → SameCommitments db r.1
        → ((m : ℕ) (after : Db)
            → SameCommitments after (sync_each today_in today cs (n + m) after).1)
        → SameCommitments db
            (elim r.0 as (λ _. Result ℕ × Db) [
              | ok m ↦ sync_each today_in today cs (n + m) r.1
              | err e ↦ (err e, r.1)
            ]).1
    go (ok m, after) s later = SameCommitments-trans db after _ s (later m after)
    go (err e, after) s later = s

pub sync_all_active-SameCommitments :
    (today_in : String → Date) (today : Option Date) (db : Db)
    → SameCommitments db (sync_all_active today_in today db).1
unfolding sync_all_active
sync_all_active-SameCommitments today_in today db =
    sync_each-SameCommitments today_in today (active_with_timezone db) 0 db

set_occurrence_status-SameCommitments :
    (id u : ℕ) (status : Option OccurrenceStatus) (amount paid_at : Option ℕ)
    (paid_on : Option Date) (db : Db)
    → SameCommitments db (set_occurrence_status id u status amount paid_at paid_on db).1
unfolding set_occurrence_status
set_occurrence_status-SameCommitments id u none amount paid_at paid_on db = SameCommitments-refl db
set_occurrence_status-SameCommitments id u (some s) amount paid_at paid_on db = record {
  commitments = refl;
  next_id = le_refl db.next_id;
}

pub write_occurrence-SameCommitments :
    (u id : ℕ) (p : OccurrenceUpdate) (today : Date) (now : ℕ) (o : CommitmentOccurrence) (db : Db)
    → SameCommitments db (write_occurrence u id p today now o db).1
unfolding write_occurrence
write_occurrence-SameCommitments u id p today now o db =
    let status = get_or_old p.status (some o.status) in
    >>=-after (SameCommitments db)
      (lift (settle o status (get_or_old p.paid_on o.paid_on) today now))
      (λ s. set_occurrence_status id u status (get_or_old p.amount none) s.0 s.1) db
      (SameCommitments-refl db)
      (λ s after e.
        SameCommitments-trans db after _
          (subst (λ r. SameCommitments db r.1) e (SameCommitments-refl db))
          (set_occurrence_status-SameCommitments id u status _ s.0 s.1 after))
