-- ===== src/Repositories/Attempts.antt =====
-- repositories/auth_repository.py: users, and the rows of `verification_attempts`.
use oublie_pas_backend.Base.{
  ℕ, Option, ◌+◌, some, Bool, if◌then◌else◌, ◌==◌, ◌&&◌, ◌≟◌, ◌++◌, ◌∷◌, [], string_eq,
}
use oublie_pas_backend.Models.Users.{
  VerificationAttempt, VerificationKind, User, verification_kind_eq,
}
use oublie_pas_backend.Session.{Db}
use oublie_pas_backend.Base.Sql.{find, delete, exists, update}
use mathlib.Core.Option.{none}
use Prim.Native.String.{String}

unfoldable pub get_user_by_id : ℕ → Db → Option User
get_user_by_id user_id db = find (λ u. u.id == user_id) db.users

abbrev pub is_attempt : ℕ → VerificationKind → VerificationAttempt → Bool
is_attempt user_id kind a = a.user_id == user_id && a.kind ≟ kind

abbrev pub count_or_zero : Option VerificationAttempt → ℕ
count_or_zero none = 0
count_or_zero (some a) = a.count

unfoldable pub attempts_of : ℕ → VerificationKind → Db → ℕ
attempts_of user_id kind db = count_or_zero (find (is_attempt user_id kind) db.attempts)

abbrev pub bumped : VerificationAttempt → VerificationAttempt
bumped a = record a { count = a.count + 1 }

-- INSERT ... ON CONFLICT DO UPDATE: the count after it, and the tables.
unfoldable pub bump_attempts : ℕ → VerificationKind → Db → ℕ × Db
unfolding attempts_of
bump_attempts user_id kind db =
    let row : VerificationAttempt = record {
      id = db.next_id;
      user_id = user_id;
      kind = kind;
      count = 1;
    } in
    (
      attempts_of user_id kind db + 1,
      (if exists (is_attempt user_id kind) db.attempts
          then record db { attempts = update (is_attempt user_id kind) bumped db.attempts }
          else record db { attempts = db.attempts ++ (row ∷ []); next_id = db.next_id + 1 }),
    )

unfoldable pub clear_attempts : ℕ → VerificationKind → Db → Unit {0} × Db
clear_attempts user_id kind db =
    (tt, record db { attempts = delete (is_attempt user_id kind) db.attempts })

unfoldable pub get_user_by_email : String → Db → Option User
get_user_by_email email db = find (λ u. u.email ≟ email) db.users

abbrev pub failed : ℕ → ℕ → User → User
failed count at u = record u { failed_login_count = count; last_failed_login_at = some at }

unfoldable pub record_failed_login : ℕ → ℕ → ℕ → Db → Unit {0} × Db
record_failed_login user_id count at db =
    (tt, record db { users = update (λ u. u.id == user_id) (failed count at) db.users })

unfoldable pub clear_failed_logins : ℕ → Db → Unit {0} × Db
clear_failed_logins user_id db = (
  tt,
  record db {
    users =
        update (λ u. u.id == user_id)
          (λ u. record u { failed_login_count = 0; last_failed_login_at = none }) db.users;
  },
)

unfoldable pub set_password_hash : ℕ → String → Db → Unit {0} × Db
set_password_hash user_id hashed db = (
  tt,
  record db {
    users = update (λ u. u.id == user_id) (λ u. record u { password_hash = some hashed }) db.users;
  },
)
