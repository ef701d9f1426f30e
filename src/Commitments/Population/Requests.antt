-- ===== src/Commitments/Population/Requests.antt =====
-- Every request keeps the population within its cap.
use oublie_pas_backend.Commitments.Population.{Cap, IsPopulated, tracked}
use oublie_pas_backend.Base.{List, ℕ, ◌≤◌, ◌≡◌, false, arith, ◌∷◌, max, true, sym, ◌∙◌, refl}
use oublie_pas_backend.Commitments.Requests.{Request, is_restoration, run_all, run}
use oublie_pas_backend.Session.{Db, modify}
use oublie_pas_backend.Models.Columns.{CommitmentType}
use oublie_pas_backend.Models.Commitments.{max_commitments_per_type}
use oublie_pas_backend.Commitments.Service.Trash.{ceiling}
use oublie_pas_backend.Repositories.Commitments.{
  delete_many, delete_one, delete_all, purge_now, purge_deleted,
}
use oublie_pas_backend.Commitments.Requests.Handlers.{run_all-Preserves, run-Preserves, Handles}
use oublie_pas_backend.Commitments.Requests.Calls.{Preserves}
use native.Mathlib.Nat.{le_refl}
use oublie_pas_backend.Commitments.Population.Frame.{
  IsPopulated-same, sync_all_active-SameCommitments, write_occurrence-SameCommitments,
}
use oublie_pas_backend.Commitments.Population.Steps.{
  soft_delete-IsPopulated, delete_commitments-IsPopulated,
}
use mathlib.Core.List.{[]}
use oublie_pas_backend.Commitments.Population.Guards.{
  create_commitment-Preserves, update_service-Preserves, restore-Preserves,
}
use oublie_pas_backend.Commitments.Service.Update.{status_only}

module _ {cap : Cap}
    (least : (u : ℕ) (t : CommitmentType) → max_commitments_per_type ≤ cap u t) where
  delete_many-IsPopulated :
      (u : ℕ) (ids : List ℕ) (now : ℕ)
      → Preserves (IsPopulated cap) (modify (delete_many u ids now))
  unfolding delete_many
  delete_many-IsPopulated u [] now db p = p
  delete_many-IsPopulated u (i ∷ ids) now db p = soft_delete-IsPopulated _ now db p

  population_handlers :
      Handles
        (IsPopulated cap)
        (λ r. is_restoration r ≡ true → (u : ℕ) (t : CommitmentType) → ceiling ≤ cap u t)
  unfolding delete_one delete_all purge_now purge_deleted
  population_handlers = record {
    creates =
        λ u p days today now _. create_commitment-Preserves u p days today now (least u p.type);
    updates = λ u id p today _. update_service-Preserves u id p today (least u);
    updates_many = λ u ids status today _ id.
        update_service-Preserves u id (status_only status) today (least u);
    deletes = λ u id now _. soft_delete-IsPopulated _ now;
    deletes_many = λ u ids now _. delete_many-IsPopulated u ids now;
    deletes_all = λ u t status now _. soft_delete-IsPopulated _ now;
    restores = λ u ids most. restore-Preserves u ids (most refl);
    purges = λ u t _. delete_commitments-IsPopulated _;
    settles = λ u id p today now _ o db.
        IsPopulated-same cap _ _ (write_occurrence-SameCommitments u id p today now o db);
    expires = λ before _. delete_commitments-IsPopulated _;
    syncs = λ today_in today _ db.
        IsPopulated-same cap db _ (sync_all_active-SameCommitments today_in today db);
  }

-- After any list of requests from a database whose commitments have unique identifiers below the
-- next one and where no account has more than 50 live active or paused commitments of one type, the
-- same holds.
pub run_all-IsPopulated :
    (rs : List Request) (db : Db)
    → IsPopulated (λ _ _. ceiling) db
    → IsPopulated (λ _ _. ceiling) (run_all rs db)
run_all-IsPopulated =
    run_all-Preserves (IsPopulated (λ _ _. ceiling)) _ (population_handlers (λ u t. omega arith))
      (λ r restores u t. le_refl ceiling)

-- A request other than a restoration, from a database whose commitments have unique identifiers below
-- the next one and where no account has more than 50 live active or paused commitments of one type,
-- leaves each account with at most 25 of them of each type, or with at most as many as it had.
pub run-max_commitments :
    (r : Request) (db : Db) (u : ℕ) (t : CommitmentType)
    → is_restoration r ≡ false
    → IsPopulated (λ _ _. ceiling) db
    → tracked u t (run r db) ≤ max max_commitments_per_type (tracked u t db)
run-max_commitments r db u t other p =
    let cap : Cap = λ v s. max max_commitments_per_type (tracked v s db) in
    let after : IsPopulated cap (run r db) =
      run-Preserves (IsPopulated cap) _ (population_handlers (λ v s. omega arith)) r db
        (λ yes'. absurd (let clash = sym yes' ∙ other in cc))
        (record { keyed = p.keyed; fresh = p.fresh; capped = λ v s. omega arith }) in
    after.capped u t
