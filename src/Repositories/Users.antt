-- ===== src/Repositories/Users.antt =====
-- repositories/auth_repository.py: the writes on the rows of `users`.
use oublie_pas_backend.Base.{
  ℕ, Bool, Option, none, some, ◌+◌, ◌++◌, ◌∷◌, [], ◌==◌, ◌&&◌, ◌||◌, ◌≟◌, not, false, true,
  if◌then◌else◌, string_eq,
}
use oublie_pas_backend.Base.Sql.{find, exists, update, delete, is_none}
use oublie_pas_backend.Errors.{ok, err, integrity_error, no_result_found}
use oublie_pas_backend.Models.Users.{User}
use oublie_pas_backend.Models.Commitments.{Commitment, CommitmentOccurrence, OccurrenceReminder}
use oublie_pas_backend.Repositories.Attempts.{get_user_by_id, get_user_by_email}
use oublie_pas_backend.Session.{Db, Action}
use mathlib.Core.Option
use Prim.Native.String.{String}

abbrev pub same_text : Option String → Option String → Bool
same_text (some a) (some b) = a ≟ b
same_text _ _ = false

-- The UNIQUE columns, where NULL differs from everything.
abbrev pub clashes : User → User → Bool
clashes u v = not (v.id == u.id) && (v.email ≟ u.email || same_text v.google_sub u.google_sub)

unfoldable pub get_user_by_google_sub : String → Db → Option User
get_user_by_google_sub google_sub db = find (λ u. same_text u.google_sub (some google_sub)) db.users

-- `row` is the user that the columns and their defaults give, by its identifier.
unfoldable pub create_user : (ℕ → User) → Action User
create_user row db =
    let u = row db.next_id in
    if exists (clashes u) db.users
    then (err integrity_error, db)
    else (ok u, record db { users = db.users ++ (u ∷ []); next_id = db.next_id + 1 })

-- The UPDATE of a row that is there.
unfoldable pub update_found : ℕ → (User → User) → User → Action User
update_found user_id changes u db =
    if exists (clashes (changes u)) db.users
    then (err integrity_error, db)
    else (ok (changes u), record db { users = update (λ v. v.id == user_id) changes db.users })

unfoldable pub update_user : ℕ → (User → User) → Action User
unfolding update_found
update_user user_id changes db = elim (get_user_by_id user_id db) [
  | none ↦ (err no_result_found, db)
  | some u ↦ update_found user_id changes u db
]

-- By the address, which the changes leave.
unfoldable pub update_user_by_email : String → (User → User) → Db → Option User × Db
update_user_by_email address changes db = (
  Option.map changes (get_user_by_email address db),
  record db { users = update (λ v. v.email ≟ address) changes db.users },
)

abbrev pub verified : User → User
verified u = record u {
  is_verified = true;
  verification_code_hash = none;
  verification_code_expires_at = none;
}

unfoldable pub update_verification_status : ℕ → Action User
unfolding update_user
update_verification_status user_id = update_user user_id verified

abbrev pub with_password : String → User → User
with_password hashed u = record u {
  password_hash = some hashed;
  reset_code_hash = none;
  reset_code_expires_at = none;
}

unfoldable pub update_password : ℕ → String → Action User
unfolding update_user
update_password user_id hashed = update_user user_id (with_password hashed)

-- DELETE with the cascades of the foreign keys.
unfoldable pub delete_user : ℕ → Db → Unit {0} × Db
delete_user user_id db =
    let lost = λ (c : Commitment). c.user_id == user_id in
    let orphan = λ (o : CommitmentOccurrence).
      o.user_id == user_id || exists (λ c. lost c && c.id == o.commitment_id) db.commitments in
    let silent = λ (r : OccurrenceReminder).
      exists (λ o. orphan o && o.id == r.occurrence_id) db.occurrences in
    (
      tt,
      (if is_none (get_user_by_id user_id db) then db else record db {
        users = delete (λ u. u.id == user_id) db.users;
        refresh_tokens = delete (λ t. t.user_id == user_id) db.refresh_tokens;
        attempts = delete (λ a. a.user_id == user_id) db.attempts;
        subscriptions = delete (λ s. s.user_id == user_id) db.subscriptions;
        commitments = delete lost db.commitments;
        occurrences = delete orphan db.occurrences;
        reminders = delete silent db.reminders;
        digests = delete (λ d. d.user_id == user_id) db.digests;
      }),
    )
