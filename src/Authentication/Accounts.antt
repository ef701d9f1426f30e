-- ===== src/Authentication/Accounts.antt =====
-- services/authentication/email_password.py: registration, and the codes of an address. Messages to
-- the client are left out.
use oublie_pas_backend.Authentication.Codes.{check_otp}
use oublie_pas_backend.Authentication.Issue.{Draw, send_verification_otp, send_email_change_otp}
use oublie_pas_backend.Authentication.Login.{Passwords}
use oublie_pas_backend.Authentication.Tokens.{Security, Tokens, issue_tokens}
use oublie_pas_backend.Base.{
  ℕ, Bool, Option, none, some, not, ◌&&◌, true, if◌then◌else◌, ◌≟◌, string_eq, false,
}
use oublie_pas_backend.Base.Sql.{is_none}
use oublie_pas_backend.Models.Commitments.{default_reminder_days}
use oublie_pas_backend.Models.Users.{User, verification}
use oublie_pas_backend.Repositories.Attempts.{get_user_by_id, get_user_by_email, clear_attempts}
use oublie_pas_backend.Repositories.Users.{create_user, update_verification_status}
use oublie_pas_backend.Session.{Action, ◌>>=◌, pure, raise_if, or_raise, modify, gets}
use Prim.Native.String.{String}
use oublie_pas_backend.Errors.{
  disposable_email_not_allowed, email_already_registered, invalid_verification_request,
  account_disabled, verification_code_expired, invalid_verification_code, user_not_found,
  no_pending_email_change,
}

-- `str.strip` and `str.lower`, the length of a text, and the list of disposable domains.
pub record Texts : Type 0 where
  pub strip : String → String
  pub lower : String → String
  pub len : String → ℕ
  pub is_disposable : String → Bool

unfoldable pub normalize_email : Texts → String → String
normalize_email t address = t.lower (t.strip address)

pub record UserCreate : Type 0 where
  pub first_name : String
  pub address : String
  pub password : String
  pub currency : String
  pub locale : String
  pub timezone : String

-- The columns that a registration gives, and the defaults of the table.
unfoldable pub new_user : UserCreate → String → String → ℕ → User
new_user body address hashed id = record {
  id = id;
  first_name = body.first_name;
  last_name = none;
  email = address;
  password_hash = some hashed;
  is_verified = false;
  verification_code_hash = none;
  verification_code_expires_at = none;
  pending_email = none;
  reset_code_hash = none;
  reset_code_expires_at = none;
  email_change_code_hash = none;
  email_change_code_expires_at = none;
  last_code_sent_at = none;
  code_resend_count = 0;
  failed_login_count = 0;
  last_failed_login_at = none;
  avatar_url = none;
  avatar_key = none;
  currency = body.currency;
  reminder_email_enabled = true;
  reminder_push_enabled = false;
  reminder_notice_enabled = true;
  reminder_overdue_enabled = true;
  reminder_action_enabled = true;
  reminder_weekly_enabled = false;
  default_reminder_days = default_reminder_days;
  locale = body.locale;
  timezone = body.timezone;
  google_sub = none;
  role = "user";
  is_active = true;
}

unfoldable pub register_user : Texts → Passwords → UserCreate → Draw → Action (Unit {0})
unfolding normalize_email new_user
register_user t p body d =
    let address = normalize_email t body.address in
    raise_if (t.is_disposable address) disposable_email_not_allowed >>= λ _.
    gets (get_user_by_email address) >>= λ found.
    raise_if (not (is_none found)) email_already_registered >>= λ _.
    create_user (new_user body address (p.hash_password body.password)) >>= λ u.
    send_verification_otp u.id none d

-- What follows an accepted code.
unfoldable pub verify_accepted : Security → String → ℕ → ℕ → User → Action Tokens
verify_accepted s fresh expire_days now u = update_verification_status u.id >>= λ updated.
    modify (clear_attempts u.id verification) >>= λ _. issue_tokens s fresh expire_days now updated

unfoldable pub verify_found : Security → String → String → ℕ → ℕ → User → Action Tokens
unfolding verify_accepted
verify_found s code fresh expire_days now u =
    raise_if u.is_verified invalid_verification_request >>= λ _.
    raise_if (not u.is_active) account_disabled >>= λ _.
    check_otp s.hash_token u verification code verification_code_expired invalid_verification_code
      now
    >>= λ _. verify_accepted s fresh expire_days now u

unfoldable pub verify_email : Texts → Security → String → String → String → ℕ → ℕ → Action Tokens
unfolding verify_found normalize_email
verify_email t s address code fresh expire_days now =
    gets (get_user_by_email (normalize_email t address)) >>= λ found.
    or_raise found invalid_verification_request >>= verify_found s code fresh expire_days now

abbrev resend_to : Draw → Option User → Action (Unit {0})
resend_to d none = pure tt
resend_to d (some u) =
    if u.is_active && not u.is_verified then send_verification_otp u.id (some u) d else pure tt

unfoldable pub resend_verification_email : Texts → String → Draw → Action (Unit {0})
unfolding normalize_email
resend_verification_email t address d =
    gets (get_user_by_email (normalize_email t address)) >>= resend_to d

-- `not value`, for a text that may be absent.
abbrev pub is_unset : Option String → Bool
is_unset none = true
is_unset (some s) = s ≟ ""

unfoldable pub resend_email_change_verification : ℕ → Draw → Action (Unit {0})
resend_email_change_verification user_id d = gets (get_user_by_id user_id) >>= λ found.
    or_raise found user_not_found >>= λ u.
    raise_if (is_unset u.pending_email) no_pending_email_change >>= λ _.
    send_email_change_otp user_id (some u) d
