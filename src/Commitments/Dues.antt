-- ===== src/Commitments/Dues.antt =====
-- The occurrences under all requests: one for each due date of a commitment, and a payment where one
-- is due.
use oublie_pas_backend.Models.Commitments.{CommitmentOccurrence, Commitment}
use oublie_pas_backend.Session.{Db, lift, modify, ◌>>=◌}
use oublie_pas_backend.Repositories.Occurrences.{
  insert_occurrence, add_occurrences, has_due, NewOccurrence, same_due, occurrence_of, settled,
  set_occurrence_status, delete_pending_occurrences_from, delete_occurrences,
}
use oublie_pas_backend.Commitments.Service.{settle}
use oublie_pas_backend.Base.{
  Bool, ℕ, List, ◌≡◌, Option, false, ◌≤◌, some, All, ◌∷◌, true, [], Bool-cases, arith, inl, inr,
  All-append, refl, if◌then◌else◌, ◌≟◌, ap, not, ◌&&◌,
}
use oublie_pas_backend.Models.Columns.{OccurrenceStatus, ReminderKind, paid, occurrence_status_eq}
use oublie_pas_backend.Base.Sql.{count, delete, is_none}
use oublie_pas_backend.Commitments.Requests.Calls.{Preserves, >>=-after}
use native.Mathlib.Nat.{le_trans}
use oublie_pas_backend.Calendar.{Date}
use oublie_pas_backend.Base.Sql.Laws.{
  count-append, count-delete, All-delete, count-exists, count-update_eq, All-update,
}
use oublie_pas_backend.Errors.{ok}
use oublie_pas_backend.Repositories.Commitments.{
  delete_commitments, delete_many, restore_rows, update_commitment, delete_one, soft_delete,
  delete_all, purge_now, purge_deleted, create,
}
use oublie_pas_backend.Repositories.Reminders.{clear_reminders}
use oublie_pas_backend.Commitments.Requests.{Request, run_all}
use oublie_pas_backend.Schemas.Commitments.{CommitmentUpdate}
use oublie_pas_backend.Commitments.Service.Update.{update_service, status_only}
use oublie_pas_backend.Commitments.Requests.Handlers.{run_all-Preserves, Handles}
use mathlib.Core.Path.{subst}
use oublie_pas_backend.Commitments.Requests.Unguarded.{
  update_service-writes, after_update-writes, create_commitment-writes, sync-writes, restore-writes,
  sync_all_active-writes,
}
use mathlib.Core.Option.{none}
use oublie_pas_backend.Commitments.Service.Occurrences.{write_occurrence}

-- A paid occurrence has an instant and a day of payment, and any other has neither.
abbrev pub is_settled : CommitmentOccurrence → Bool
is_settled o =
    if o.status ≟ paid
    then not (is_none o.paid_at) && not (is_none o.paid_on)
    else is_none o.paid_at && is_none o.paid_on

pub record IsLedger (db : Db) : Type 0 where
  pub unique :
      (commitment_id due_date : ℕ) → count (same_due commitment_id due_date) db.occurrences ≤ 1
  pub payments : All (λ o. is_settled o ≡ true) db.occurrences

insert-IsLedger :
    (row : NewOccurrence) (db : Db)
    → has_due row db ≡ false
    → IsLedger db
    → IsLedger (insert_occurrence row db)
unfolding insert_occurrence has_due count
insert-IsLedger row db fresh h = record {
  unique = λ c d.
      rw (count-append (same_due c d) db.occurrences (occurrence_of db.next_id row ∷ [])) (
        ground (
          arith,
          h.unique c d,
          count-exists (same_due row.commitment_id row.due_date) db.occurrences fresh,
        ));
  payments = All-append _ db.occurrences (occurrence_of db.next_id row ∷ []) h.payments (refl, tt);
}

add_occurrences-IsLedger :
    (new : List NewOccurrence) → Preserves IsLedger (modify (add_occurrences new))
unfolding add_occurrences
add_occurrences-IsLedger [] db h = h
add_occurrences-IsLedger (row ∷ new) db h = elim (Bool-cases (has_due row db)) [
  | inl e ↦ rw e (add_occurrences-IsLedger new db h)
  | inr e ↦
      rw e (add_occurrences-IsLedger new (insert_occurrence row db) (insert-IsLedger row db e h))
]

delete-IsLedger :
    (p : CommitmentOccurrence → Bool) (before after : Db)
    → after.occurrences ≡ delete p before.occurrences
    → IsLedger before
    → IsLedger after
delete-IsLedger p before after e h = record {
  unique = λ c d. rw e (le_trans (count-delete p (same_due c d) before.occurrences) (h.unique c d));
  payments = rw e (All-delete _ p before.occurrences h.payments);
}

same_occurrences :
    (before after : Db) → after.occurrences ≡ before.occurrences → IsLedger before → IsLedger after
same_occurrences before after e h = record {
  unique = λ c d. rw e (h.unique c d);
  payments = rw e h.payments;
}

-- The settlement of a status is that of a row with this status.
settle-is_settled :
    (o : CommitmentOccurrence) (s : OccurrenceStatus) (paid_on : Option Date) (today now : ℕ)
    (at : Option ℕ) (on : Option Date) (amount : Option ℕ) (x : CommitmentOccurrence)
    → settle o (some s) paid_on today now ≡ ok (at, on)
    → is_settled (settled s amount at on x) ≡ true
unfolding settle
settle-is_settled o s paid_on today now at on amount x e = ground arith

set_occurrence_status-IsLedger :
    (id u : ℕ) (s : OccurrenceStatus) (amount at : Option ℕ) (on : Option Date)
    → ((x : CommitmentOccurrence) → is_settled (settled s amount at on x) ≡ true)
    → Preserves IsLedger (set_occurrence_status id u (some s) amount at on)
unfolding set_occurrence_status
set_occurrence_status-IsLedger id u s amount at on fits db h = record {
  unique = λ c d.
      rw (count-update_eq _ (same_due c d) (settled s amount at on) db.occurrences (λ x. refl))
        (h.unique c d);
  payments = All-update _ _ _ db.occurrences (λ x e. fits x) h.payments;
}

-- What is written in place of a row: its status may be absent, and then the write is refused.
write_status :
    (id u : ℕ) (o : CommitmentOccurrence) (status : Option OccurrenceStatus) (paid_on : Option Date)
    (amount : Option ℕ) (today now : ℕ)
    → Preserves IsLedger (
        lift (settle o status paid_on today now) >>= λ s.
        set_occurrence_status id u status amount s.0 s.1)
unfolding settle set_occurrence_status
write_status id u o none paid_on amount today now db h = h
write_status id u o (some s) paid_on amount today now db h =
    >>=-after IsLedger (lift (settle o (some s) paid_on today now))
      (λ p. set_occurrence_status id u (some s) amount p.0 p.1) db h
      (λ p after e.
        set_occurrence_status-IsLedger id u s amount p.0 p.1
          (λ x. settle-is_settled o s paid_on today now p.0 p.1 amount x (ap (λ r. r.0) e)) after
          (subst (λ r. IsLedger r.1) e h))

delete_commitments-IsLedger :
    (p : Commitment → Bool) → Preserves IsLedger (modify (delete_commitments p))
unfolding delete_commitments
delete_commitments-IsLedger p db h = delete-IsLedger _ db _ refl h

delete_pending-IsLedger :
    (id floor : ℕ) → Preserves IsLedger (modify (delete_pending_occurrences_from id floor))
unfolding delete_pending_occurrences_from delete_occurrences
delete_pending-IsLedger id floor db h = delete-IsLedger _ db _ refl h

clear_reminders-IsLedger :
    (id : ℕ) (k : ReminderKind) → Preserves IsLedger (modify (clear_reminders id k))
unfolding clear_reminders
clear_reminders-IsLedger id k db h = same_occurrences db _ refl h

delete_many-IsLedger :
    (u : ℕ) (ids : List ℕ) (now : ℕ) → Preserves IsLedger (modify (delete_many u ids now))
unfolding delete_many soft_delete
delete_many-IsLedger u [] now db h = h
delete_many-IsLedger u (i ∷ ids) now db h = same_occurrences db _ refl h

restore_rows-IsLedger : (u : ℕ) (ids : List ℕ) → Preserves IsLedger (modify (restore_rows u ids))
unfolding restore_rows
restore_rows-IsLedger u [] db h = h
restore_rows-IsLedger u (i ∷ ids) db h = same_occurrences db _ refl h

updates-IsLedger :
    (u id : ℕ) (p : CommitmentUpdate) (today : Date)
    → Preserves IsLedger (update_service u id p today)
unfolding update_commitment
updates-IsLedger u id p today =
    update_service-writes IsLedger u id p today (λ db h. same_occurrences db _ refl h)
      (λ c.
        after_update-writes IsLedger add_occurrences-IsLedger c p today delete_pending-IsLedger
          clear_reminders-IsLedger)

IsLedger-Handles : Handles IsLedger (λ _. Unit)
unfolding delete_one delete_all purge_now purge_deleted soft_delete create write_occurrence
IsLedger-Handles = record {
  creates = λ u p days today now _.
      create_commitment-writes IsLedger u p days today now (λ db h. same_occurrences db _ refl h)
        (λ c. sync-writes IsLedger add_occurrences-IsLedger c today);
  updates = λ u id p today _. updates-IsLedger u id p today;
  updates_many = λ u ids status today _ id. updates-IsLedger u id (status_only status) today;
  deletes = λ u id now _ db h. same_occurrences db _ refl h;
  deletes_many = λ u ids now _. delete_many-IsLedger u ids now;
  deletes_all = λ u t status now _ db h. same_occurrences db _ refl h;
  restores = λ u ids _. restore-writes IsLedger u ids (restore_rows-IsLedger u ids);
  purges = λ u t _. delete_commitments-IsLedger _;
  settles = λ u id p today now _ o. write_status id u o _ _ _ today now;
  expires = λ before _. delete_commitments-IsLedger _;
  syncs =
      λ today_in today _. sync_all_active-writes IsLedger add_occurrences-IsLedger today_in today;
}

-- After any list of requests from a database that does so, each commitment has at most one
-- occurrence on a day, and an occurrence has an instant and a day of payment just when it is paid.
pub run_all-IsLedger : (rs : List Request) (db : Db) → IsLedger db → IsLedger (run_all rs db)
run_all-IsLedger = run_all-Preserves IsLedger (λ _. Unit) IsLedger-Handles (λ r. tt)
