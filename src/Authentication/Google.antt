-- ===== src/Authentication/Google.antt =====
-- services/authentication/google_auth.py: the sign-in with a Google account. The exchange of the code
-- and the reading of the token are the work of libraries: their result is a parameter.
use oublie_pas_backend.Authentication.Accounts.{Texts, normalize_email, is_unset}
use oublie_pas_backend.Authentication.Tokens.{Security, Tokens, issue_tokens}
use oublie_pas_backend.Base.{
  ℕ, Bool, Option, none, some, not, ◌&&◌, ◌||◌, ◌+◌, ltb, true, false, if◌then◌else◌, ◌≟◌,
  string_eq,
}
use oublie_pas_backend.Errors.{
  google_auth_failed, google_email_not_verified, account_disabled, google_account_already_linked,
  disposable_email_not_allowed, google_auth_unavailable,
}
use oublie_pas_backend.Models.Commitments.{default_reminder_days}
use oublie_pas_backend.Models.Users.{User, verification}
use oublie_pas_backend.Repositories.Attempts.{get_user_by_email, clear_attempts}
use oublie_pas_backend.Repositories.Users.{
  get_user_by_google_sub, update_user, create_user, verified, same_text,
}
use oublie_pas_backend.Session.{Action, ◌>>=◌, pure, raise_if, or_raise, modify, gets}
use Prim.Native.String.{String}

abbrev pub clock_skew_seconds : ℕ
clock_skew_seconds = 60

-- The claims of the token as the code reads them: `exp` is none where it is no number, and
-- `email_verified` holds for the values True and "true".
pub record Claims : Type 0 where
  pub aud : Option String
  pub iss : Option String
  pub exp : Option ℕ
  pub sub : Option String
  pub address : Option String
  pub email_verified : Bool
  pub given_name : Option String
  pub family_name : Option String
  pub picture : Option String

-- What the configuration gives, and `email.split("@")[0]`.
pub record GoogleSettings : Type 0 where
  pub is_configured : Bool
  pub client_id : String
  pub default_currency : String
  pub default_locale : String
  pub default_timezone : String
  pub local_part : String → String

abbrev pub accepted_issuer : Option String → Bool
accepted_issuer none = false
accepted_issuer (some i) = i ≟ "accounts.google.com" || i ≟ "https://accounts.google.com"

abbrev pub is_late_token : Option ℕ → ℕ → Bool
is_late_token none now = true
is_late_token (some exp) now = ltb (exp + clock_skew_seconds) now

-- `_claims`, where the payload has an `id_token` that reads.
unfoldable pub check_claims : GoogleSettings → Claims → ℕ → Action (Unit {0})
check_claims g c now =
    raise_if (not (same_text c.aud (some g.client_id))) google_auth_failed >>= λ _.
    raise_if (not (accepted_issuer c.iss)) google_auth_failed >>= λ _.
    raise_if (is_late_token c.exp now) google_auth_failed >>= λ _.
    raise_if (is_unset c.sub || is_unset c.address) google_auth_failed >>= λ _.
    raise_if (not c.email_verified) google_email_not_verified

-- `db_user.google_sub and db_user.google_sub != google_sub`
abbrev pub is_linked_elsewhere : Option String → String → Bool
is_linked_elsewhere google_sub sub =
    not (is_unset google_sub) && not (same_text google_sub (some sub))

abbrev with_picture : Option String → User → User
with_picture picture u =
    if is_unset u.avatar_url && not (is_unset picture) then record u { avatar_url = picture } else u

-- The changes of a link: a link verifies an address that was not.
unfoldable pub link_changes : String → Option String → User → User
link_changes sub picture u =
    with_picture picture
      (record (if u.is_verified then u else verified u) { google_sub = some sub })

unfoldable pub link_user : String → Claims → User → Action User
unfolding link_changes
link_user sub c u = raise_if (not u.is_active) account_disabled >>= λ _.
    raise_if (is_linked_elsewhere u.google_sub sub) google_account_already_linked >>= λ _.
    (if u.is_verified then pure tt else modify (clear_attempts u.id verification)) >>= λ _.
    update_user u.id (link_changes sub c.picture)

abbrev name_or : Option String → String → String
name_or none other = other
name_or (some s) other = if s ≟ "" then other else s

unfoldable pub google_user : GoogleSettings → String → String → Claims → ℕ → User
google_user g sub address c id = record {
  id = id;
  first_name = name_or c.given_name (g.local_part address);
  last_name = c.family_name;
  email = address;
  password_hash = none;
  is_verified = true;
  verification_code_hash = none;
  verification_code_expires_at = none;
  pending_email = none;
  reset_code_hash = none;
  reset_code_expires_at = none;
  email_change_code_hash = none;
  email_change_code_expires_at = none;
  last_code_sent_at = none;
  code_resend_count = 0;
  failed_login_count = 0;
  last_failed_login_at = none;
  avatar_url = c.picture;
  avatar_key = none;
  currency = g.default_currency;
  reminder_email_enabled = true;
  reminder_push_enabled = false;
  reminder_notice_enabled = true;
  reminder_overdue_enabled = true;
  reminder_action_enabled = true;
  reminder_weekly_enabled = false;
  default_reminder_days = default_reminder_days;
  locale = g.default_locale;
  timezone = g.default_timezone;
  google_sub = some sub;
  role = "user";
  is_active = true;
}

abbrev by_address : Texts → GoogleSettings → String → String → Claims → Option User → Action User
by_address t g sub address c none =
    raise_if (t.is_disposable address) disposable_email_not_allowed >>= λ _.
    create_user (google_user g sub address c)
by_address t g sub address c (some u) = link_user sub c u

abbrev by_sub : Texts → GoogleSettings → String → String → Claims → Option User → Action User
by_sub t g sub address c none = gets (get_user_by_email address) >>= by_address t g sub address c
by_sub t g sub address c (some u) = raise_if (not u.is_active) account_disabled >>= λ _. pure u

unfoldable pub link_or_create : Texts → GoogleSettings → String → String → Claims → Action User
unfolding link_user google_user
link_or_create t g sub address c = gets (get_user_by_google_sub sub) >>= by_sub t g sub address c

abbrev text_of : Option String → String
text_of none = ""
text_of (some s) = s

-- `sign_in`, with what the exchange gives: none where it, or the reading of the token, fails.
unfoldable pub sign_in :
    Texts → GoogleSettings → Security → Option Claims → String → ℕ → ℕ → Action Tokens
unfolding link_or_create check_claims normalize_email
sign_in t g s exchanged fresh expire_days now =
    raise_if (not g.is_configured) google_auth_unavailable >>= λ _.
    or_raise exchanged google_auth_failed >>= λ c. check_claims g c now >>= λ _.
    link_or_create t g (text_of c.sub) (normalize_email t (text_of c.address)) c >>= λ u.
    issue_tokens s fresh expire_days now u
