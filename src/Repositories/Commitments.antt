-- ===== src/Repositories/Commitments.antt =====
-- repositories/commitment_repository.py: the rows of `commitments`.
use oublie_pas_backend.Base.{
  ℕ, Option, List, Bool, ◌++◌, ◌&&◌, ◌==◌, false, ◌∷◌, map, leb, not, some, none, ◌≟◌, true, ltb,
  ◌+◌,
}
use Prim.Native.String.{String}
use oublie_pas_backend.Models.Commitments.{Commitment, CommitmentOccurrence, OccurrenceReminder}
use oublie_pas_backend.Session.{Db}
use oublie_pas_backend.Base.Sql.{
  find, update, order_by, select, given, is_in, count, is_none, exists, delete,
}
use oublie_pas_backend.Models.Columns.{CommitmentType, CommitmentStatus, active, type_eq, status_eq}
use oublie_pas_backend.Models.Users.{User}
use mathlib.Core.List.{[]}
use mathlib.Core.Option

-- `_live`: the rows of a user that are not in the trash.
abbrev pub is_live : ℕ → Commitment → Bool
is_live user_id c = c.user_id == user_id && is_none c.deleted_at

abbrev pub in_trash : ℕ → Commitment → Bool
in_trash user_id c = c.user_id == user_id && not (is_none c.deleted_at)

unfoldable pub get_by_id : ℕ → ℕ → Db → Option Commitment
get_by_id commitment_id user_id db =
    find (λ c. is_live user_id c && c.id == commitment_id) db.commitments

-- The collation of the database compares titles.
unfoldable pub list_for_user :
    (String → String → Bool)
    → ℕ
    → Option CommitmentType
    → Option CommitmentStatus
    → Db
    → List Commitment
list_for_user title_le user_id commitment_type status db =
    order_by (λ a b. title_le a.title b.title)
      (select (λ c. is_live user_id c && (given commitment_type c.type && given status c.status))
        db.commitments)

abbrev deleted_ge : Option ℕ → Option ℕ → Bool
deleted_ge (some a) (some b) = leb b a
deleted_ge _ _ = true

unfoldable pub list_deleted : ℕ → Option CommitmentType → Db → List Commitment
list_deleted user_id commitment_type db =
    order_by (λ a b. deleted_ge a.deleted_at b.deleted_at)
      (select (λ c. in_trash user_id c && given commitment_type c.type) db.commitments)

-- DELETE with the cascades of the foreign keys: the occurrences of the rows go, and the reminders
-- of those occurrences.
unfoldable pub delete_commitments : (Commitment → Bool) → Db → ℕ × Db
delete_commitments p db =
    let orphan =
      λ (o : CommitmentOccurrence). exists (λ c. p c && c.id == o.commitment_id) db.commitments in
    let silent = λ (r : OccurrenceReminder).
      exists (λ o. orphan o && o.id == r.occurrence_id) db.occurrences in
    (
      count p db.commitments,
      record db {
        commitments = delete p db.commitments;
        occurrences = delete orphan db.occurrences;
        reminders = delete silent db.reminders;
      },
    )

unfoldable pub purge_now : ℕ → Option CommitmentType → Db → ℕ × Db
purge_now user_id commitment_type =
    delete_commitments (λ c. in_trash user_id c && given commitment_type c.type)

-- `Commitment.deleted_at < before`, false for NULL.
abbrev pub deleted_before : ℕ → Option ℕ → Bool
deleted_before before none = false
deleted_before before (some t) = ltb t before

unfoldable pub purge_deleted : ℕ → Db → ℕ × Db
purge_deleted before = delete_commitments (λ c. deleted_before before c.deleted_at)

-- The columns that a request gives; `id`, `status`, `deleted_at` and `created_at` have defaults.
unfoldable pub create : (ℕ → Commitment) → Db → Commitment × Db
create row db =
    let c = row db.next_id in
    (c, record db { commitments = db.commitments ++ (c ∷ []); next_id = db.next_id + 1 })

-- `update` writes the row that `get_by_id` finds.
unfoldable pub update_commitment : ℕ → ℕ → (Commitment → Commitment) → Db → Option Commitment × Db
unfolding get_by_id
update_commitment commitment_id user_id changes db = (
  Option.map changes (get_by_id commitment_id user_id db),
  record db {
    commitments = update (λ c. is_live user_id c && c.id == commitment_id) changes db.commitments;
  },
)

-- `_soft_delete` stamps the rows and returns their identifiers.
unfoldable pub soft_delete : (Commitment → Bool) → ℕ → Db → List ℕ × Db
soft_delete p stamp db = (
  map (λ c. c.id) (select p db.commitments),
  record db { commitments = update p (λ c. record c { deleted_at = some stamp }) db.commitments },
)

unfoldable pub delete_one : ℕ → ℕ → ℕ → Db → List ℕ × Db
delete_one commitment_id user_id = soft_delete (λ c. is_live user_id c && c.id == commitment_id)

unfoldable pub delete_all :
    ℕ → Option CommitmentType → Option CommitmentStatus → ℕ → Db → List ℕ × Db
delete_all user_id commitment_type status =
    soft_delete (λ c. is_live user_id c && (given commitment_type c.type && given status c.status))

-- An empty list of identifiers selects no row either.
unfoldable pub delete_many : ℕ → List ℕ → ℕ → Db → List ℕ × Db
delete_many user_id [] stamp db = ([], db)
delete_many user_id ids stamp db = soft_delete (λ c. is_live user_id c && is_in c.id ids) stamp db

unfoldable pub restore_rows : ℕ → List ℕ → Db → ℕ × Db
restore_rows user_id [] db = (0, db)
restore_rows user_id ids db =
    let p = λ (c : Commitment). in_trash user_id c && is_in c.id ids in
    (
      count p db.commitments,
      record db { commitments = update p (λ c. record c { deleted_at = none }) db.commitments },
    )

-- `statuses` as a test; without one, every status counts.
unfoldable pub count_commitments : ℕ → (CommitmentStatus → Bool) → Option CommitmentType → Db → ℕ
count_commitments user_id in_statuses commitment_type db =
    count (λ c. is_live user_id c && (in_statuses c.status && given commitment_type c.type))
      db.commitments

zone_of : ℕ → List User → Option String
zone_of user_id users = Option.map (λ u. u.timezone) (find (λ u. u.id == user_id) users)

-- The active commitments with the time zone of their owners, by age. The join drops a commitment
-- without an owner.
with_zone : List User → List Commitment → List (Commitment × String)
unfolding zone_of
with_zone users [] = []
with_zone users (c ∷ cs) =
    let rest = with_zone users cs in
    elim (zone_of c.user_id users) [ none ↦ rest | some zone ↦ (c, zone) ∷ rest ]

unfoldable pub active_with_timezone : Db → List (Commitment × String)
unfolding with_zone
active_with_timezone db = with_zone db.users (
    order_by (λ a b. leb a.created_at b.created_at)
      (select (λ c. c.status ≟ active && is_none c.deleted_at) db.commitments))
