-- ===== src/Commitments/Service/Trash.antt =====
-- CommitmentService: the trash. A deletion stamps the rows, and a purge removes them.
use oublie_pas_backend.Base.{ℕ, List, Option, ◌*◌, Bool, ltb, ◌||◌, map, ◌&&◌, none, ◌≟◌, some, ◌+◌}
use oublie_pas_backend.Session.{Action, modify, Db, gets, ◌>>◌, ◌>>=◌, raise_if}
use oublie_pas_backend.Models.Commitments.{
  restore_ceiling_factor, max_commitments_per_type, is_counted,
}
use oublie_pas_backend.Models.Columns.{
  CommitmentType, CommitmentStatus, subscription, invoice, type_eq,
}
use oublie_pas_backend.Commitments.Service.{owned, commitment_response}
use oublie_pas_backend.Repositories.Commitments.{
  delete_many, restore_rows, purge_now, delete_one, delete_all, in_trash, count_commitments,
  list_deleted,
}
use oublie_pas_backend.Base.Sql.{count, is_in}
use oublie_pas_backend.Schemas.Commitments.{CommitmentResponse}
use oublie_pas_backend.Errors.{restore_limit_reached}

-- The identifiers of the rows that went to the trash.
unfoldable pub delete_service : ℕ → ℕ → ℕ → Action (List ℕ)
delete_service user_id commitment_id now = do
  owned user_id commitment_id
  modify (delete_one commitment_id user_id now)

unfoldable pub delete_many_service : ℕ → List ℕ → ℕ → Action (List ℕ)
delete_many_service user_id ids now = modify (delete_many user_id ids now)

unfoldable pub delete_all_service :
    ℕ → Option CommitmentType → Option CommitmentStatus → ℕ → Action (List ℕ)
delete_all_service user_id commitment_type status now =
    modify (delete_all user_id commitment_type status now)

-- The counted rows of a type that a restore would bring back.
unfoldable pub entrants : ℕ → List ℕ → CommitmentType → Db → ℕ
entrants user_id ids t db =
    count (λ c. in_trash user_id c && (is_in c.id ids && (is_counted c.status && c.type ≟ t)))
      db.commitments

abbrev pub ceiling : ℕ
ceiling = restore_ceiling_factor * max_commitments_per_type

-- The types without an entrant are not in the dictionary, and are not checked.
unfoldable pub over_ceiling : ℕ → List ℕ → Db → CommitmentType → Bool
unfolding entrants
over_ceiling user_id ids db t =
    ltb 0 (entrants user_id ids t db)
    && ltb ceiling (count_commitments user_id is_counted (some t) db + entrants user_id ids t db)

-- `_guard_restore`
unfoldable pub guard_restore : ℕ → List ℕ → Action (Unit {0})
unfolding over_ceiling
guard_restore user_id ids =
    gets (λ db. over_ceiling user_id ids db subscription || over_ceiling user_id ids db invoice)
    >>= λ over. raise_if over (restore_limit_reached ceiling)

unfoldable pub restore : ℕ → List ℕ → Action ℕ
unfolding guard_restore
restore user_id ids = do guard_restore user_id ids; modify (restore_rows user_id ids)

unfoldable pub list_deleted_service : ℕ → Option CommitmentType → Db → List CommitmentResponse
list_deleted_service user_id commitment_type db =
    map (λ c. commitment_response c (record { next_due = none; late = none }))
      (list_deleted user_id commitment_type db)

unfoldable pub purge_now_service : ℕ → Option CommitmentType → Action ℕ
purge_now_service user_id commitment_type = modify (purge_now user_id commitment_type)
