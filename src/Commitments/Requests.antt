-- ===== src/Commitments/Requests.antt =====
-- The requests of services/commitments that write, and the daily jobs, as one data type.
use oublie_pas_backend.Base.{ℕ, List, Bool, Option, ◌∷◌, true, some, false, none}
use oublie_pas_backend.Session.{Db, run_request, modify}
use oublie_pas_backend.Schemas.Commitments.{CommitmentCreate, CommitmentUpdate, OccurrenceUpdate}
use oublie_pas_backend.Calendar.{Date}
use oublie_pas_backend.Commitments.Service.{create_commitment}
use oublie_pas_backend.Commitments.Service.Update.{update_service, set_status_many}
use oublie_pas_backend.Models.Columns.{CommitmentStatus, CommitmentType}
use oublie_pas_backend.Commitments.Service.Trash.{
  delete_service, delete_many_service, delete_all_service, restore, purge_now_service,
}
use Prim.Native.String.{String}
use mathlib.Core.List.{[]}
use oublie_pas_backend.Commitments.Service.Occurrences.{update_occurrence}
use oublie_pas_backend.Repositories.Commitments.{purge_deleted}
use oublie_pas_backend.Commitments.Sync.{sync_all_active}
pub mod Calls
pub mod Handlers
pub mod Unguarded

pub data Request : Type 0 where
  creation : ℕ → CommitmentCreate → ℕ → Date → ℕ → Request
  change : ℕ → ℕ → CommitmentUpdate → Date → Request
  status_change : ℕ → List ℕ → CommitmentStatus → Date → Request
  deletion : ℕ → ℕ → ℕ → Request
  batch_deletion : ℕ → List ℕ → ℕ → Request
  full_deletion : ℕ → Option CommitmentType → Option CommitmentStatus → ℕ → Request
  restoration : ℕ → List ℕ → Request
  purge : ℕ → Option CommitmentType → Request
  occurrence_change : ℕ → ℕ → OccurrenceUpdate → Date → ℕ → Request
  expiry : ℕ → Request
  daily_sync : (String → Date) → Option Date → Request

-- The database after a request, in its session.
unfoldable pub run : Request → Db → Db
run (creation u p days today now) db = (run_request (create_commitment u p days today now) db).1
run (change u id p today) db = (run_request (update_service u id p today) db).1
run (status_change u ids status today) db = (run_request (set_status_many u ids status today) db).1
run (deletion u id now) db = (run_request (delete_service u id now) db).1
run (batch_deletion u ids now) db = (run_request (delete_many_service u ids now) db).1
run (full_deletion u t status now) db = (run_request (delete_all_service u t status now) db).1
run (restoration u ids) db = (run_request (restore u ids) db).1
run (purge u t) db = (run_request (purge_now_service u t) db).1
run (occurrence_change u id p today now) db =
    (run_request (update_occurrence u id p today now) db).1
run (expiry before) db = (run_request (modify (purge_deleted before)) db).1
run (daily_sync today_in today) db = (run_request (sync_all_active today_in today) db).1

unfoldable pub run_all : List Request → Db → Db
unfolding run
run_all [] db = db
run_all (r ∷ rs) db = run_all rs (run r db)

abbrev pub is_restoration : Request → Bool
is_restoration (restoration _ _) = true
is_restoration _ = false

-- The account that a request is from; the daily jobs have none.
unfoldable pub actor : Request → Option ℕ
actor (creation u _ _ _ _) = some u
actor (change u _ _ _) = some u
actor (status_change u _ _ _) = some u
actor (deletion u _ _) = some u
actor (batch_deletion u _ _) = some u
actor (full_deletion u _ _ _) = some u
actor (restoration u _) = some u
actor (purge u _) = some u
actor (occurrence_change u _ _ _ _) = some u
actor (expiry _) = none
actor (daily_sync _ _) = none
