-- ===== src/Commitments/Tests/Limits.antt =====
-- Runs of requests.
use oublie_pas_backend.Models.Commitments.{max_commitments_per_type, meets_checks}
use oublie_pas_backend.Schemas.Commitments.{accepts_create, accepts_update}
use oublie_pas_backend.Base.{[], ◌≡◌, none, ◌∷◌, arith, true, ◌≤◌, max, refl}
use oublie_pas_backend.Base.Sql.{count, find}
use oublie_pas_backend.Commitments.Population.{IsPopulated, tracked}
use oublie_pas_backend.Models.Columns.{subscription, paused}
use oublie_pas_backend.Commitments.Service.Trash.{ceiling}
use oublie_pas_backend.Commitments.Service.Update.{status_only, dates_in_order, apply_changes}
use oublie_pas_backend.Commitments.Requests.{run_all, run, creation, full_deletion, actor}
use oublie_pas_backend.Commitments.Population.Requests.{run_all-IsPopulated, run-max_commitments}
use oublie_pas_backend.Commitments.Tests.{one_commitment, requests, gym, one_occurrence, rent}
use oublie_pas_backend.Commitments.Isolation.{foreign, run-foreign}
use oublie_pas_backend.Commitments.Dues.{IsLedger, run_all-IsLedger}
use oublie_pas_backend.Repositories.Commitments.{get_by_id, restore_rows, delete_one}
use oublie_pas_backend.Commitments.Service.{row_of}
use oublie_pas_backend.Commitments.Checks.{accepts_create-meets_checks, accepts_update-meets_checks}
use oublie_pas_backend.Commitments.Restoration.{delete_one-restore_rows}

one_commitment-IsPopulated : IsPopulated (λ _ _. ceiling) one_commitment
unfolding count
one_commitment-IsPopulated = record {
  keyed = λ i. ground arith;
  fresh = λ i le. ground arith;
  capped = λ u t. ground arith;
}

run_all-IsPopulated_example : IsPopulated (λ _ _. ceiling) (run_all requests one_commitment)
run_all-IsPopulated_example = run_all-IsPopulated requests one_commitment one_commitment-IsPopulated

run-max_commitments_example :
    tracked 7 subscription (run (creation 7 gym 3 739300 100) one_commitment)
    ≤ max max_commitments_per_type (tracked 7 subscription one_commitment)
run-max_commitments_example =
    run-max_commitments (creation 7 gym 3 739300 100) one_commitment 7 subscription refl
      one_commitment-IsPopulated

run-foreign_example :
    foreign 8 (run (full_deletion 8 none none 300) one_commitment) ≡ foreign 8 one_commitment
unfolding actor
run-foreign_example = run-foreign (full_deletion 8 none none 300) one_commitment 8 refl

one_occurrence-IsLedger : IsLedger one_occurrence
unfolding count
one_occurrence-IsLedger = record { unique = λ c d. ground arith; payments = (refl, tt) }

run_all-IsLedger_example : IsLedger (run_all requests one_occurrence)
run_all-IsLedger_example = run_all-IsLedger requests one_occurrence one_occurrence-IsLedger

delete_one-restore_rows_example :
    (restore_rows 7 (1 ∷ []) (delete_one 1 7 200 one_commitment).1).1.commitments
    ≡ one_commitment.commitments
unfolding count get_by_id find
delete_one-restore_rows_example =
    delete_one-restore_rows 7 1 200 one_commitment rent (omega arith) refl

accepts_create-meets_checks_example : meets_checks (row_of 7 gym 3 100 2) ≡ true
unfolding accepts_create
accepts_create-meets_checks_example = accepts_create-meets_checks 7 gym 3 100 2 refl (omega arith)

accepts_update-meets_checks_example : meets_checks (apply_changes (status_only paused) rent) ≡ true
unfolding accepts_update dates_in_order meets_checks
accepts_update-meets_checks_example =
    accepts_update-meets_checks (status_only paused) rent refl refl refl
