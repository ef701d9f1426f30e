-- ===== src/Commitments/Tests/Rows.antt =====
-- Runs of the synchronisation and of the changes of occurrences.
-- A commitment with a single date.
use oublie_pas_backend.Models.Commitments.{Commitment, CommitmentOccurrence}
use oublie_pas_backend.Commitments.Generator.{
  occurrence_dates, is_oneoff, oneoff_dates, horizon_days,
}
use oublie_pas_backend.Commitments.Sync.{sync, add_rows, resync}
use oublie_pas_backend.Base.{
  All, ◌≟◌, ◌≡◌, none, true, ◌+◌, ◌∷◌, ◌≤◌, [], refl, arith, some, inr, inl,
}
use oublie_pas_backend.Base.Sql.{count, exists, find}
use oublie_pas_backend.Repositories.Occurrences.{
  get_occurrence, same_due, is_live_occurrence, commitment_of, add_occurrences, has_due,
}
use oublie_pas_backend.Commitments.Tests.{
  rent, one_commitment, one_occurrence, no_status, payment, rent_due,
}
use oublie_pas_backend.Models.Columns.{oneoff, paid, occurrence_status_eq}
use oublie_pas_backend.Commitments.Rows.{rows}
use oublie_pas_backend.Calendar.{add_days}
use oublie_pas_backend.Errors.{ok, err, integrity_error}
use oublie_pas_backend.Commitments.Schedule.{sync-sync, sync-has_due, resync-count}
use oublie_pas_backend.Commitments.Service.Occurrences.{update_occurrence}
use oublie_pas_backend.Session.{Db}
use oublie_pas_backend.Commitments.Settlement.{
  IsChanged, update_occurrence-integrity_error, update_occurrence-IsChanged,
}
use oublie_pas_backend.Commitments.Service.{occurrence_response}

abbrev once : Commitment
once = record rent { frequency = oneoff; starts_on = 739290 }

once-dates :
    occurrence_dates 739290 oneoff none 739282 (739282 + horizon_days oneoff) ≡ ok (739290 ∷ [])
unfolding occurrence_dates is_oneoff oneoff_dates horizon_days
once-dates = refl

once-added : sync once 739282 one_commitment ≡ (ok 1, (sync once 739282 one_commitment).1)
unfolding sync add_rows rows add_days occurrence_dates is_oneoff oneoff_dates add_occurrences
    has_due exists horizon_days
once-added = refl

sync-sync_example :
    sync once 739282 (sync once 739282 one_commitment).1
    ≡ (ok 0, (sync once 739282 one_commitment).1)
sync-sync_example =
    sync-sync once 739282 one_commitment 1 (sync once 739282 one_commitment).1 once-added

sync-has_due_example :
    All
      (λ d. exists (same_due 1 d) (sync once 739282 one_commitment).1.occurrences ≡ true)
      (739290 ∷ [])
unfolding horizon_days
sync-has_due_example =
    sync-has_due once 739282 one_commitment (739290 ∷ []) refl (omega arith) once-dates

resync-count_example :
    count (λ o. o.status ≟ paid) one_occurrence.occurrences
    ≤ count (λ o. o.status ≟ paid) (resync rent 739282 one_occurrence).1.occurrences
resync-count_example =
    resync-count (λ o. o.status ≟ paid) rent 739282 one_occurrence
      (λ o h. inr (inl ((occurrence_status_eq.beq_iff o.status paid).0 h)))

update_occurrence-IsChanged_example :
    (x : CommitmentOccurrence) × (after : Db) × (update_occurrence 7 5 payment 739290 900
        one_occurrence
      ≡ (ok (occurrence_response after 739290 x), after))
    × (get_occurrence 5 7 after ≡ some x)
    × IsChanged payment 739290 900 paid rent_due x
unfolding get_occurrence find is_live_occurrence commitment_of
update_occurrence-IsChanged_example =
    update_occurrence-IsChanged 7 5 payment 739290 900 one_occurrence rent_due paid refl refl refl
      (λ e. omega arith)

update_occurrence-integrity_error_example :
    update_occurrence 7 5 no_status 739290 900 one_occurrence
    ≡ (err integrity_error, one_occurrence)
unfolding get_occurrence find is_live_occurrence commitment_of
update_occurrence-integrity_error_example =
    update_occurrence-integrity_error 7 5 no_status 739290 900 one_occurrence rent_due refl refl
