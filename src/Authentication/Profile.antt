-- ===== src/Authentication/Profile.antt =====
-- services/user_profile/user_profile.py: what an account changes of itself. Messages to the client and
-- log lines are left out, as is the work that only hides how long a refusal takes.
pub mod Password
pub mod Deletion
use oublie_pas_backend.Authentication.Accounts.{Texts, normalize_email, is_unset}
use oublie_pas_backend.Authentication.Codes.{check_otp}
use oublie_pas_backend.Authentication.Issue.{Draw, send_reset_otp, send_email_change_otp}
use oublie_pas_backend.Authentication.Login.{Passwords, verify_password}
use oublie_pas_backend.Authentication.Tokens.{Security}
use oublie_pas_backend.Base.{
  ℕ, Bool, Option, none, some, not, ◌&&◌, ◌||◌, true, false, if◌then◌else◌, ◌≟◌, string_eq, ltb,
  ◌==◌,
}
use oublie_pas_backend.Base.Sql.{is_none}
use oublie_pas_backend.Models.Users.{User, reset, email_change}
use oublie_pas_backend.Repositories.Attempts.{get_user_by_id, get_user_by_email, clear_attempts}
use oublie_pas_backend.Repositories.RefreshTokens.{revoke_all_for_user}
use oublie_pas_backend.Repositories.Users.{update_user, update_password, delete_user}
use oublie_pas_backend.Session.{Action, Db, ◌>>=◌, pure, raise, raise_if, or_raise, modify, gets}
use Prim.Native.String.{String}
use oublie_pas_backend.Errors.{
  Result, ok, err, app, user_not_found, no_fields_to_update, google_only_account,
  incorrect_current_password, same_password_as_before, password_already_set, too_many_code_requests,
  invalid_or_expired_reset_code, account_disabled, reset_code_expired, invalid_reset_code,
  incorrect_password, same_email_as_current, disposable_email_not_allowed, email_already_in_use,
  no_pending_email_change, no_email_change_code, verification_code_expired,
  invalid_verification_code, invalid_deletion_confirmation,
}

abbrev pub max_password_length : ℕ
max_password_length = 128

-- The fields of a body that are set: `last_name` may be set to null, and a null elsewhere is dropped.
pub record UpdateProfile : Type 0 where
  pub first_name : Option String
  pub last_name : Option (Option String)
  pub currency : Option String
  pub reminder_email_enabled : Option Bool
  pub reminder_push_enabled : Option Bool
  pub reminder_notice_enabled : Option Bool
  pub reminder_overdue_enabled : Option Bool
  pub reminder_action_enabled : Option Bool
  pub reminder_weekly_enabled : Option Bool
  pub default_reminder_days : Option ℕ
  pub locale : Option String
  pub timezone : Option String

abbrev pub or_keep {ℓ} : {A : Type ℓ} → Option A → A → A
or_keep none a = a
or_keep (some b) a = b

unfoldable pub is_empty_update : UpdateProfile → Bool
is_empty_update p =
    is_none p.first_name
    && (is_none p.last_name
        && (is_none p.currency
            && (is_none p.reminder_email_enabled
                && (is_none p.reminder_push_enabled
                    && (is_none p.reminder_notice_enabled
                        && (is_none p.reminder_overdue_enabled
                            && (is_none p.reminder_action_enabled
                                && (is_none p.reminder_weekly_enabled
                                    && (is_none p.default_reminder_days
                                        && (is_none p.locale && is_none p.timezone))))))))))

unfoldable pub apply_profile : UpdateProfile → User → User
apply_profile p u = record u {
  first_name = or_keep p.first_name u.first_name;
  last_name = or_keep p.last_name u.last_name;
  currency = or_keep p.currency u.currency;
  reminder_email_enabled = or_keep p.reminder_email_enabled u.reminder_email_enabled;
  reminder_push_enabled = or_keep p.reminder_push_enabled u.reminder_push_enabled;
  reminder_notice_enabled = or_keep p.reminder_notice_enabled u.reminder_notice_enabled;
  reminder_overdue_enabled = or_keep p.reminder_overdue_enabled u.reminder_overdue_enabled;
  reminder_action_enabled = or_keep p.reminder_action_enabled u.reminder_action_enabled;
  reminder_weekly_enabled = or_keep p.reminder_weekly_enabled u.reminder_weekly_enabled;
  default_reminder_days = or_keep p.default_reminder_days u.default_reminder_days;
  locale = or_keep p.locale u.locale;
  timezone = or_keep p.timezone u.timezone;
}

unfoldable pub get_user : ℕ → Action User
get_user user_id = gets (get_user_by_id user_id) >>= λ found. or_raise found user_not_found

unfoldable pub update_profile : ℕ → UpdateProfile → Action (Unit {0})
unfolding get_user is_empty_update
update_profile user_id p = raise_if (is_empty_update p) no_fields_to_update >>= λ _.
    get_user user_id >>= λ _. update_user user_id (apply_profile p) >>= λ _. pure tt

-- A new password, and the sessions of the account closed.
unfoldable pub replace_password : Passwords → ℕ → String → ℕ → Action (Unit {0})
replace_password p user_id new now =
    update_password user_id (p.hash_password new) >>= λ _. modify (revoke_all_for_user user_id now)

unfoldable pub change_found : Passwords → ℕ → String → String → ℕ → User → Action (Unit {0})
unfolding replace_password
change_found p user_id current new now u =
    raise_if (is_unset u.password_hash) google_only_account >>= λ _.
    raise_if (not (verify_password p u.password_hash current)) incorrect_current_password >>= λ _.
    raise_if (verify_password p u.password_hash new) same_password_as_before >>= λ _.
    replace_password p user_id new now

unfoldable pub change_password : Passwords → ℕ → String → String → ℕ → Action (Unit {0})
unfolding get_user change_found
change_password p user_id current new now =
    get_user user_id >>= change_found p user_id current new now

unfoldable pub set_password : Passwords → ℕ → String → Action (Unit {0})
unfolding get_user
set_password p user_id new = get_user user_id >>= λ u.
    raise_if (not (is_unset u.password_hash)) password_already_set >>= λ _.
    update_user user_id (λ v. record v { password_hash = some (p.hash_password new) }) >>= λ _.
    pure tt

-- `except TooManyCodeRequests: pass`
abbrev pub quiet : Result (Unit {0}) × Db → Result (Unit {0}) × Db
quiet (err (app too_many_code_requests), db) = (ok tt, db)
quiet r = r

abbrev pub forgot_found : String → Draw → Option User → Action (Unit {0})
forgot_found address d none db = (ok tt, db)
forgot_found address d (some u) db =
    if u.is_active && not (is_unset u.password_hash)
    then quiet (send_reset_otp address (some u) d db)
    else (ok tt, db)

unfoldable pub forgot_password : Texts → String → Draw → Action (Unit {0})
forgot_password t address d =
    gets (get_user_by_email (normalize_email t address))
    >>= forgot_found (normalize_email t address) d

unfoldable pub reset_accepted : Passwords → String → ℕ → User → Action (Unit {0})
reset_accepted p new now u =
    raise_if (verify_password p u.password_hash new) same_password_as_before >>= λ _.
    update_password u.id (p.hash_password new) >>= λ _.
    modify (clear_attempts u.id reset) >>= λ _. modify (revoke_all_for_user u.id now)

unfoldable pub reset_found : Passwords → Security → String → String → ℕ → User → Action (Unit {0})
unfolding reset_accepted
reset_found p s code new now u =
    raise_if (is_unset u.reset_code_hash) invalid_or_expired_reset_code >>= λ _.
    raise_if (not u.is_active) account_disabled >>= λ _.
    check_otp s.hash_token u reset code reset_code_expired invalid_reset_code now >>= λ _.
    reset_accepted p new now u

unfoldable pub reset_password :
    Texts → Passwords → Security → String → String → String → ℕ → Action (Unit {0})
unfolding reset_found
reset_password t p s address code new now =
    gets (get_user_by_email (normalize_email t address)) >>= λ found.
    or_raise found invalid_or_expired_reset_code >>= reset_found p s code new now

unfoldable pub change_found_email :
    Texts → Passwords → ℕ → String → String → Draw → User → Action (Unit {0})
change_found_email t p user_id password address d u =
    raise_if (is_unset u.password_hash) google_only_account >>= λ _.
    raise_if (not (verify_password p u.password_hash password)) incorrect_password >>= λ _.
    raise_if (normalize_email t address ≟ u.email) same_email_as_current >>= λ _.
    raise_if (t.is_disposable (normalize_email t address)) disposable_email_not_allowed >>= λ _.
    gets (get_user_by_email (normalize_email t address)) >>= λ other.
    raise_if (not (is_none other)) email_already_in_use >>= λ _.
    send_email_change_otp user_id (some u) d >>= λ _.
    update_user user_id (λ v. record v { pending_email = some (normalize_email t address) })
    >>= λ _. pure tt

unfoldable pub request_email_change :
    Texts → Passwords → ℕ → String → String → Draw → Action (Unit {0})
unfolding change_found_email get_user
request_email_change t p user_id password address d =
    get_user user_id >>= change_found_email t p user_id password address d

abbrev pub with_email : String → User → User
with_email address v = record v {
  email = address;
  pending_email = none;
  email_change_code_hash = none;
  email_change_code_expires_at = none;
}

abbrev pub is_other : ℕ → Option User → Bool
is_other user_id none = false
is_other user_id (some v) = not (v.id == user_id)

-- What follows an accepted code for the pending address.
unfoldable pub confirm_pending : ℕ → String → Action (Unit {0})
confirm_pending user_id address = gets (get_user_by_email address) >>= λ existing.
    raise_if (is_other user_id existing) email_already_in_use >>= λ _.
    update_user user_id (with_email address) >>= λ _. modify (clear_attempts user_id email_change)

abbrev pub or_empty : Option String → String
or_empty none = ""
or_empty (some s) = s

unfoldable pub confirm_found : Security → ℕ → String → ℕ → User → Action (Unit {0})
unfolding confirm_pending
confirm_found s user_id code now u =
    raise_if (is_unset u.pending_email) no_pending_email_change >>= λ _.
    raise_if (is_unset u.email_change_code_hash) no_email_change_code >>= λ _.
    check_otp s.hash_token u email_change code verification_code_expired invalid_verification_code
      now
    >>= λ _. confirm_pending user_id (or_empty u.pending_email)

unfoldable pub confirm_email_change : Security → ℕ → String → ℕ → Action (Unit {0})
unfolding confirm_found get_user
confirm_email_change s user_id code now = get_user user_id >>= confirm_found s user_id code now

unfoldable pub confirmation_matches : Texts → String → String → Bool
confirmation_matches t confirmation address =
    not (t.strip confirmation ≟ "") && normalize_email t (t.strip confirmation) ≟ address

abbrev pub is_wrong_password : Texts → Passwords → Option String → Option String → Bool
is_wrong_password t p hashed none = true
is_wrong_password t p hashed (some plain) =
    (plain ≟ "" || ltb max_password_length (t.len plain)) || not (verify_password p hashed plain)

-- The file of the avatar goes too, and a failure there is logged only.
unfoldable pub delete_found :
    Texts → Passwords → ℕ → Option String → Option String → User → Action (Unit {0})
unfolding confirmation_matches
delete_found t p user_id password confirmation u =
    (if is_unset u.password_hash
      then raise_if (not (confirmation_matches t (or_empty confirmation) u.email))
          invalid_deletion_confirmation
      else raise_if (is_wrong_password t p u.password_hash password) incorrect_password)
    >>= λ _. modify (delete_user user_id)

unfoldable pub delete_account :
    Texts → Passwords → ℕ → Option String → Option String → Action (Unit {0})
unfolding delete_found get_user
delete_account t p user_id password confirmation =
    get_user user_id >>= delete_found t p user_id password confirmation
