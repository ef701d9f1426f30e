-- ===== src/Commitments/Settlement.antt =====
-- CommitmentService.update_occurrence: what a change of an occurrence writes.
use mathlib.Core.Option
use oublie_pas_backend.Schemas.Commitments.{OccurrenceUpdate, null}
use oublie_pas_backend.Commitments.Service.{settle, on_or, at_or, occurrence_response}
use oublie_pas_backend.Commitments.Service.Occurrences.{
  update_occurrence, owned_occurrence, write_occurrence, no_changes, get_or_old, occurrence_answer,
}
use oublie_pas_backend.Calendar.{Date}
use oublie_pas_backend.Models.Commitments.{CommitmentOccurrence, null_or}
use oublie_pas_backend.Models.Columns.{OccurrenceStatus, paid, pending, skipped}
use oublie_pas_backend.Base.{
  ◌≡◌, Option, ℕ, false, some, ◌∙◌, none, ◌≤◌, refl, ltb, true, arith, ap, leb, ◌&&◌, ◌==◌,
}
use oublie_pas_backend.Repositories.Occurrences.{
  set_occurrence_status, get_occurrence, or_kept, settled, is_live_occurrence, commitment_of,
}
use oublie_pas_backend.Session.{Db, raise_if, lift, ◌>>=◌}
use oublie_pas_backend.Errors.{err, integrity_error, ok, no_fields_to_update}
use oublie_pas_backend.Commitments.Requests.Calls.{>>=-ok, >>=-err}
use oublie_pas_backend.Commitments.Dues.{is_settled}
use oublie_pas_backend.Base.Sql.Laws.{find-update}

-- The day of payment that a change asks for: its own, else the one of the occurrence, else today.
abbrev pub requested_day : Option Date → Date → Date
requested_day none today = today
requested_day (some d) today = d

abbrev pub day_paid : OccurrenceStatus → Option Date → Date → Option Date
day_paid paid asked today = some (requested_day asked today)
day_paid pending asked today = none
day_paid skipped asked today = none

-- The instant of the first payment stays.
abbrev pub instant_paid : OccurrenceStatus → Option ℕ → ℕ → Option ℕ
instant_paid paid none now = some now
instant_paid paid (some at) now = some at
instant_paid pending at now = none
instant_paid skipped at now = none

-- `x` is the occurrence `o` with the status `s`, the requested amount, and the requested day of payment
-- and an instant of payment just when it is paid.
pub record IsChanged (p : OccurrenceUpdate) (today now : ℕ) (s : OccurrenceStatus)
    (o x : CommitmentOccurrence) : Type 0 where
  pub row : x ≡ record o {
    amount = or_kept (get_or_old p.amount none) o.amount;
    status = s;
    paid_on = day_paid s (get_or_old p.paid_on o.paid_on) today;
    paid_at = instant_paid s o.paid_at now;
  }
  pub payment : is_settled x ≡ true
  pub not_ahead : null_or (λ d. leb d today) x.paid_on ≡ true

on_or-requested_day :
    (asked : Option Date) (today : Date) → on_or asked today ≡ requested_day asked today
on_or-requested_day none today = refl
on_or-requested_day (some d) today = refl

at_or-instant_paid : (at : Option ℕ) (now : ℕ) → at_or at now ≡ instant_paid paid at now
at_or-instant_paid none now = refl
at_or-instant_paid (some at) now = refl

same_row :
    (p : OccurrenceUpdate) (o : CommitmentOccurrence) (today now : ℕ)
    → settled paid
        (get_or_old p.amount none)
        (at_or o.paid_at now)
        (some (on_or (get_or_old p.paid_on o.paid_on) today))
        o
      ≡ record o {
        amount = or_kept (get_or_old p.amount none) o.amount;
        status = paid;
        paid_on = some (requested_day (get_or_old p.paid_on o.paid_on) today);
        paid_at = instant_paid paid o.paid_at now;
      }
same_row p o today now =
    ap (λ d. settled paid (get_or_old p.amount none) (at_or o.paid_at now) (some d) o)
      (on_or-requested_day (get_or_old p.paid_on o.paid_on) today)
    ∙ ap
        (λ at.
          settled paid (get_or_old p.amount none) at
            (some (requested_day (get_or_old p.paid_on o.paid_on) today)) o)
        (at_or-instant_paid o.paid_at now)

settle_ok :
    (p : OccurrenceUpdate) (o : CommitmentOccurrence) (s : OccurrenceStatus) (today now : ℕ)
    → (s ≡ paid → on_or (get_or_old p.paid_on o.paid_on) today ≤ today)
    → (at : Option ℕ) × (on : Option Date) × (settle o
          (some s)
          (get_or_old p.paid_on o.paid_on)
          today
          now
        ≡ ok (at, on))
      × IsChanged p today now s o (settled s (get_or_old p.amount none) at on o)
unfolding settle
settle_ok p o pending today now h =
    (none, none, refl, record { row = refl; payment = refl; not_ahead = refl })
settle_ok p o skipped today now h =
    (none, none, refl, record { row = refl; payment = refl; not_ahead = refl })
settle_ok p o paid today now h =
    let asked = get_or_old p.paid_on o.paid_on in
    let in_time : ltb today (on_or asked today) ≡ false = ground (arith, h refl) in
    (
      at_or o.paid_at now,
      some (on_or asked today),
      rw in_time refl,
      record {
        row = same_row p o today now;
        payment = ground arith;
        not_ahead = ground (arith, h refl);
      },
    )

reaches_write :
    (u id : ℕ) (p : OccurrenceUpdate) (today : Date) (now : ℕ) (db : Db) (o : CommitmentOccurrence)
    → no_changes p ≡ false
    → get_occurrence id u db ≡ some o
    → update_occurrence u id p today now db
      ≡ (write_occurrence u id p today now o >>= occurrence_answer today) db
unfolding update_occurrence owned_occurrence
reaches_write u id p today now db o given found =
    >>=-ok (raise_if (no_changes p) no_fields_to_update)
      (λ _. owned_occurrence u id >>= λ x.
        write_occurrence u id p today now x >>= occurrence_answer today)
      db tt db (rw given refl)
    ∙ >>=-ok (owned_occurrence u id)
        (λ x. write_occurrence u id p today now x >>= occurrence_answer today) db o db
        (rw found refl)

-- The row that the write leaves in the table.
written_row :
    (u id : ℕ) (db : Db) (o : CommitmentOccurrence) (s : OccurrenceStatus) (amount at : Option ℕ)
    (on : Option Date)
    → get_occurrence id u db ≡ some o
    → get_occurrence id u (set_occurrence_status id u (some s) amount at on db).1
      ≡ some (settled s amount at on o)
unfolding get_occurrence set_occurrence_status is_live_occurrence commitment_of
written_row u id db o s amount at on found =
    find-update (λ x. is_live_occurrence db u x && x.id == id) (settled s amount at on)
      db.occurrences (λ x. refl)
    ∙ ap (Option.map (settled s amount at on)) found

write_ok :
    (u id : ℕ) (p : OccurrenceUpdate) (today : Date) (now : ℕ) (db : Db) (o : CommitmentOccurrence)
    (s : OccurrenceStatus) (at : Option ℕ) (on : Option Date)
    → get_occurrence id u db ≡ some o
    → get_or_old p.status (some o.status) ≡ some s
    → settle o (some s) (get_or_old p.paid_on o.paid_on) today now ≡ ok (at, on)
    → write_occurrence u id p today now o db ≡ (
      ok (some (settled s (get_or_old p.amount none) at on o)),
      (set_occurrence_status id u (some s) (get_or_old p.amount none) at on db).1,
    )
unfolding write_occurrence set_occurrence_status
write_ok u id p today now db o s at on found status e = rw status (
    >>=-ok (lift (settle o (some s) (get_or_old p.paid_on o.paid_on) today now))
      (λ t. set_occurrence_status id u (some s) (get_or_old p.amount none) t.0 t.1) db (at, on) db
      (ap (λ r. (r, db)) e)
    ∙ rw found refl)

-- A change with some field, of an occurrence that the account has, to a status that is not null and
-- with a day of payment that is not ahead of today where it is paid, returns the response of the
-- occurrence with the changes, and leaves that row in the table: the status, the requested amount, and just when it is
-- paid the requested day of payment, or today, and the instant of its first payment.
pub update_occurrence-IsChanged :
    (u id : ℕ) (p : OccurrenceUpdate) (today : Date) (now : ℕ) (db : Db) (o : CommitmentOccurrence)
    (s : OccurrenceStatus)
    → no_changes p ≡ false
    → get_occurrence id u db ≡ some o
    → get_or_old p.status (some o.status) ≡ some s
    → (s ≡ paid → on_or (get_or_old p.paid_on o.paid_on) today ≤ today)
    → (x : CommitmentOccurrence) × (after : Db) × (update_occurrence u id p today now db
        ≡ (ok (occurrence_response after today x), after))
      × (get_occurrence id u after ≡ some x)
      × IsChanged p today now s o x
unfolding update_occurrence occurrence_answer
update_occurrence-IsChanged u id p today now db o s given found status day =
    let (at, on, e, changed) = settle_ok p o s today now day in
    let amount = get_or_old p.amount none in
    (
      settled s amount at on o,
      (set_occurrence_status id u (some s) amount at on db).1,
      reaches_write u id p today now db o given found
          ∙ >>=-ok (write_occurrence u id p today now o) (occurrence_answer today) db
              (some (settled s amount at on o))
              (set_occurrence_status id u (some s) amount at on db).1
              (write_ok u id p today now db o s at on found status e),
      written_row u id db o s amount at on found,
      changed,
    )

-- A change to the status null of an occurrence that the account has: the database refuses the row.
pub update_occurrence-integrity_error :
    (u id : ℕ) (p : OccurrenceUpdate) (today : Date) (now : ℕ) (db : Db) (o : CommitmentOccurrence)
    → p.status ≡ null
    → get_occurrence id u db ≡ some o
    → update_occurrence u id p today now db ≡ (err integrity_error, db)
unfolding write_occurrence set_occurrence_status settle
update_occurrence-integrity_error u id p today now db o e found =
    reaches_write u id p today now db o (rw e refl) found
    ∙ >>=-err (write_occurrence u id p today now o) (occurrence_answer today) db integrity_error db
        (rw (e, found) refl)
