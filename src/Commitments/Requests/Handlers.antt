-- ===== src/Commitments/Requests/Handlers.antt =====
-- What an invariant of the database owes to each handler, for every request to keep it.
use oublie_pas_backend.Session.{Db, modify, raise_if, ◌>>=◌}
use oublie_pas_backend.Commitments.Service.{owned, create_commitment}
use oublie_pas_backend.Commitments.Service.Trash.{
  delete_service, delete_many_service, delete_all_service, purge_now_service, restore,
}
use oublie_pas_backend.Commitments.Service.Occurrences.{
  update_occurrence, owned_occurrence, write_occurrence, no_changes, occurrence_answer,
}
use oublie_pas_backend.Base.{ℕ, List, ◌∷◌, Bool-cases, inl, Option, inr, some}
use oublie_pas_backend.Commitments.Requests.{
  Request, run, run_all, creation, deletion, change, status_change, batch_deletion, full_deletion,
  restoration, purge, occurrence_change, expiry, daily_sync,
}
use oublie_pas_backend.Commitments.Requests.Calls.{
  Preserves, or_raise-Preserves, >>=-Preserves, run_request-Preserves, raise_if-Preserves,
}
use oublie_pas_backend.Models.Columns.{CommitmentStatus, CommitmentType}
use oublie_pas_backend.Schemas.Commitments.{
  CommitmentCreate, OccurrenceUpdate, CommitmentUpdate, BatchStatusResult,
}
use oublie_pas_backend.Calendar.{Date}
use oublie_pas_backend.Repositories.Commitments.{
  get_by_id, delete_one, delete_many, delete_all, purge_now, purge_deleted,
}
use oublie_pas_backend.Models.Commitments.{CommitmentOccurrence}
use oublie_pas_backend.Commitments.Service.Update.{
  update_service, status_only, set_status_many, set_status_one, set_status_from, passes_over,
}
use oublie_pas_backend.Errors.{commitment_not_found, no_fields_to_update, occurrence_not_found}
use mathlib.Core.List.{[]}
use oublie_pas_backend.Repositories.Occurrences.{get_occurrence}
use Prim.Native.String.{String}
use oublie_pas_backend.Commitments.Sync.{sync_all_active}
use mathlib.Core.Option.{none}

module _ (P : Db → Type 0) where
  pub owned-Preserves : (u id : ℕ) → Preserves P (owned u id)
  unfolding owned
  owned-Preserves u id db = or_raise-Preserves P (get_by_id id u db) commitment_not_found db

  delete_service-Preserves :
      (u id now : ℕ)
      → Preserves P (modify (delete_one id u now))
      → Preserves P (delete_service u id now)
  unfolding delete_service
  delete_service-Preserves u id now h =
      >>=-Preserves (owned u id) (λ _. modify (delete_one id u now)) (owned-Preserves u id) (λ _. h)

  occurrence_answer-Preserves :
      (today : Date) (o : Option CommitmentOccurrence) → Preserves P (occurrence_answer today o)
  unfolding occurrence_answer
  occurrence_answer-Preserves today none db q = q
  occurrence_answer-Preserves today (some o) db q = q

  update_occurrence-Preserves :
      (u id : ℕ) (p : OccurrenceUpdate) (today : Date) (now : ℕ)
      → ((o : CommitmentOccurrence) → Preserves P (write_occurrence u id p today now o))
      → Preserves P (update_occurrence u id p today now)
  unfolding update_occurrence owned_occurrence
  update_occurrence-Preserves u id p today now h =
      >>=-Preserves (raise_if (no_changes p) no_fields_to_update)
        (λ _. owned_occurrence u id >>= λ o.
          write_occurrence u id p today now o >>= occurrence_answer today)
        (raise_if-Preserves P (no_changes p) no_fields_to_update)
        (λ _.
          >>=-Preserves (owned_occurrence u id)
            (λ o. write_occurrence u id p today now o >>= occurrence_answer today)
            (λ db q. or_raise-Preserves P (get_occurrence id u db) occurrence_not_found db q)
            (λ o.
              >>=-Preserves (write_occurrence u id p today now o) (occurrence_answer today) (h o)
                (occurrence_answer-Preserves today)))

  module _ (u : ℕ) (status : CommitmentStatus) (today : Date)
      (h : (id : ℕ) → Preserves P (update_service u id (status_only status) today)) where
    set_status_one-Preserves :
        (id : ℕ) (b : BatchStatusResult) → Preserves P (set_status_one u status today id b)
    unfolding set_status_one
    set_status_one-Preserves id b db p =
        elim (Bool-cases (passes_over (get_by_id id u db) status)) [
          | inl e ↦ rw e p
          | inr e ↦ rw e (h id db p)
        ]

    set_status_from-Preserves :
        (ids : List ℕ) (b : BatchStatusResult) → Preserves P (set_status_from u status today ids b)
    unfolding set_status_from
    set_status_from-Preserves [] b = λ db p. p
    set_status_from-Preserves (id ∷ ids) b =
        >>=-Preserves (set_status_one u status today id b)
          (λ r. set_status_from u status today ids r) (set_status_one-Preserves id b)
          (set_status_from-Preserves ids)

  -- The obligations, each for the requests that `Acts` lets through.
  pub record Handles (Acts : Request → Type 0) : Type 0 where
    pub creates :
        (u : ℕ) (p : CommitmentCreate) (days : ℕ) (today : Date) (now : ℕ)
        → Acts (creation u p days today now)
        → Preserves P (create_commitment u p days today now)
    pub updates :
        (u id : ℕ) (p : CommitmentUpdate) (today : Date)
        → Acts (change u id p today)
        → Preserves P (update_service u id p today)
    pub updates_many :
        (u : ℕ) (ids : List ℕ) (status : CommitmentStatus) (today : Date)
        → Acts (status_change u ids status today)
        → (id : ℕ) → Preserves P (update_service u id (status_only status) today)
    pub deletes :
        (u id now : ℕ) → Acts (deletion u id now) → Preserves P (modify (delete_one id u now))
    pub deletes_many :
        (u : ℕ) (ids : List ℕ) (now : ℕ)
        → Acts (batch_deletion u ids now)
        → Preserves P (modify (delete_many u ids now))
    pub deletes_all :
        (u : ℕ) (t : Option CommitmentType) (status : Option CommitmentStatus) (now : ℕ)
        → Acts (full_deletion u t status now)
        → Preserves P (modify (delete_all u t status now))
    pub restores : (u : ℕ) (ids : List ℕ) → Acts (restoration u ids) → Preserves P (restore u ids)
    pub purges :
        (u : ℕ) (t : Option CommitmentType)
        → Acts (purge u t)
        → Preserves P (modify (purge_now u t))
    pub settles :
        (u id : ℕ) (p : OccurrenceUpdate) (today : Date) (now : ℕ)
        → Acts (occurrence_change u id p today now)
        → (o : CommitmentOccurrence) → Preserves P (write_occurrence u id p today now o)
    pub expires : (before : ℕ) → Acts (expiry before) → Preserves P (modify (purge_deleted before))
    pub syncs :
        (today_in : String → Date) (today : Option Date)
        → Acts (daily_sync today_in today)
        → Preserves P (sync_all_active today_in today)

  pub run-Preserves :
      (Acts : Request → Type 0)
      → Handles Acts
      → (r : Request) (db : Db) → Acts r
      → P db
      → P (run r db)
  unfolding run delete_many_service delete_all_service purge_now_service set_status_many
  run-Preserves Acts h (creation u p days today now) db a =
      run_request-Preserves _ (h.creates u p days today now a) db
  run-Preserves Acts h (change u id p today) db a =
      run_request-Preserves _ (h.updates u id p today a) db
  run-Preserves Acts h (status_change u ids status today) db a =
      run_request-Preserves _
        (set_status_from-Preserves u status today (h.updates_many u ids status today a) ids _) db
  run-Preserves Acts h (deletion u id now) db a =
      run_request-Preserves _ (delete_service-Preserves u id now (h.deletes u id now a)) db
  run-Preserves Acts h (batch_deletion u ids now) db a =
      run_request-Preserves _ (h.deletes_many u ids now a) db
  run-Preserves Acts h (full_deletion u t status now) db a =
      run_request-Preserves _ (h.deletes_all u t status now a) db
  run-Preserves Acts h (restoration u ids) db a = run_request-Preserves _ (h.restores u ids a) db
  run-Preserves Acts h (purge u t) db a = run_request-Preserves _ (h.purges u t a) db
  run-Preserves Acts h (occurrence_change u id p today now) db a =
      run_request-Preserves _
        (update_occurrence-Preserves u id p today now (h.settles u id p today now a)) db
  run-Preserves Acts h (expiry before) db a = run_request-Preserves _ (h.expires before a) db
  run-Preserves Acts h (daily_sync today_in today) db a =
      run_request-Preserves _ (h.syncs today_in today a) db

  -- An invariant that every request keeps is kept by any list of requests.
  pub run_all-Preserves :
      (Acts : Request → Type 0)
      → Handles Acts
      → ((r : Request) → Acts r)
      → (rs : List Request) (db : Db) → P db
      → P (run_all rs db)
  unfolding run_all
  run_all-Preserves Acts h a [] db p = p
  run_all-Preserves Acts h a (r ∷ rs) db p =
      run_all-Preserves Acts h a rs (run r db) (run-Preserves Acts h r db (a r) p)
