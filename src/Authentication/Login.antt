-- ===== src/Authentication/Login.antt =====
-- login_user of services/authentication/email_password.py. `email` is the address that
-- `normalize_email` returns.
use oublie_pas_backend.Base.{
  ℕ, Option, Bool, if◌then◌else◌, false, ◌&&◌, ◌+◌, leb, ◌==◌, some, ltb, not, ◌≟◌, string_eq,
}
use Prim.Native.String.{String}
use oublie_pas_backend.Models.Users.{User}
use oublie_pas_backend.Authentication.Tokens.{Security, Tokens, issue_tokens}
use oublie_pas_backend.Session.{Action, raise, gets, pure, modify, ◌>>=◌, or_raise, raise_if}
use oublie_pas_backend.Errors.{invalid_credentials, account_disabled, email_not_verified}
use oublie_pas_backend.Repositories.Attempts.{
  get_user_by_email, clear_failed_logins, record_failed_login, set_password_hash,
}
use mathlib.Core.Option.{none}

abbrev pub max_login_attempts_per_hour : ℕ
max_login_attempts_per_hour = 20

-- LOGIN_WINDOW_HOURS, in seconds.
abbrev pub login_window : ℕ
login_window = 3_600

-- Argon2: `verify` is false for a hash that it does not read.
pub record Passwords : Type 0 where
  pub verify : String → String → Bool
  pub needs_rehash : String → Bool
  pub hash_password : String → String

-- `last_failed_login_at > now - window`
abbrev pub is_recent : Option ℕ → ℕ → Bool
is_recent none now = false
is_recent (some t) now = ltb now (t + login_window)

unfoldable pub login_locked : User → ℕ → Bool
login_locked u now =
    is_recent u.last_failed_login_at now && leb max_login_attempts_per_hour u.failed_login_count

unfoldable pub next_failure_count : User → ℕ → ℕ
next_failure_count u now =
    if is_recent u.last_failed_login_at now then u.failed_login_count + 1 else 1

-- `Security.verify_password`, where an account without a password verifies none.
unfoldable pub verify_password : Passwords → Option String → String → Bool
verify_password p none plain = false
verify_password p (some hashed) plain = not (hashed ≟ "") && p.verify hashed plain

abbrev pub wants_rehash : Passwords → Option String → Bool
wants_rehash p none = false
wants_rehash p (some hashed) = p.needs_rehash hashed

-- What follows an accepted password.
unfoldable pub login_accepted :
    Passwords → Security → String → String → ℕ → ℕ → User → Action Tokens
login_accepted p s plain fresh expire_days now u =
    (if u.failed_login_count == 0 then pure tt else modify (clear_failed_logins u.id)) >>= λ _.
    raise_if (not u.is_active) account_disabled >>= λ _.
    raise_if (not u.is_verified) email_not_verified >>= λ _.
    (if wants_rehash p u.password_hash
      then modify (set_password_hash u.id (p.hash_password plain))
      else pure tt)
    >>= λ _. issue_tokens s fresh expire_days now u

unfoldable pub login_found : Passwords → Security → String → String → ℕ → ℕ → User → Action Tokens
unfolding login_accepted
login_found p s plain fresh expire_days now u =
    if login_locked u now
    then raise invalid_credentials
    else if not (verify_password p u.password_hash plain)
    then modify (record_failed_login u.id (next_failure_count u now) now)
      >>= (λ _. raise invalid_credentials)
    else login_accepted p s plain fresh expire_days now u

unfoldable pub login_user : Passwords → Security → String → String → String → ℕ → ℕ → Action Tokens
unfolding login_found
login_user p s email plain fresh expire_days now = gets (get_user_by_email email) >>= λ found.
    or_raise found invalid_credentials >>= login_found p s plain fresh expire_days now
