-- ===== src/Authentication/Tests.antt =====
-- Runs of the rotation and of the checks of a code, with the identity as the hash.
use oublie_pas_backend.Models.Users.{
  User, RefreshToken, reset, VerificationKind, email_change, verification,
}
use oublie_pas_backend.Session.{Db}
use oublie_pas_backend.Authentication.Tokens.{
  Security, Tokens, refresh_access_token, refresh_found, refresh_row, refresh_active, rotate,
  issue_tokens,
}
use oublie_pas_backend.Base.{
  List, none, false, ◌∷◌, some, true, [], ◌≡◌, ℕ, arith, refl, suc, ◌≟◌, All, string_eq, ◌≤◌,
}
use oublie_pas_backend.Authentication.Lockout.{
  attempt, attempt_all, attempt_all-max_verification_attempts,
}
use oublie_pas_backend.Repositories.RefreshTokens.{
  get_any_by_token_hash, create_token, revoke_all_for_user, get_by_token_hash, is_live_of, revoke,
}
use Prim.Native.String.{String}
use oublie_pas_backend.Errors.{
  reset_code_expired, err, invalid_reset_code, app, token_reuse_detected,
  too_many_verification_attempts, ok, invalid_credentials, invalid_or_expired_reset_code,
}
use oublie_pas_backend.Base.Sql.{count, find, exists, update}
use oublie_pas_backend.Repositories.Attempts.{
  get_user_by_id, get_user_by_email, attempts_of, bump_attempts,
}
use oublie_pas_backend.Authentication.Rotation.{refresh_access_token-replay}
use oublie_pas_backend.Authentication.Login.{Passwords, verify_password}
use oublie_pas_backend.Authentication.Failures.{
  login, IsWrong, login_all, login_all-max_login_attempts,
}
use Prim.Native.Nat.{zero}
use oublie_pas_backend.Authentication.Accounts.{Texts, normalize_email}
use oublie_pas_backend.Authentication.Profile.{
  reset_password, reset_found, reset_accepted, delete_account, delete_found, get_user,
  confirmation_matches,
}
use oublie_pas_backend.Authentication.Quota.{codes_sent, codes_sent-max_resend_per_hour}
use oublie_pas_backend.Authentication.Issue.{Draw, max_resend_per_hour}
use oublie_pas_backend.Authentication.Profile.Password.{reset_password-once}
use oublie_pas_backend.Authentication.Codes.{check_otp, compare_otp, verify_otp}
use oublie_pas_backend.Repositories.Users.{update_password, update_user, update_found, delete_user}
use oublie_pas_backend.Authentication.Store.{
  HasUniqueHashes, TokenOp, slot, create_op, apply_ops, revoke_op, promised_all, revoke_all_op,
  purge_op,
}
use oublie_pas_backend.Authentication.Store.Refinement.{apply_ops-promised_all}
use oublie_pas_backend.Authentication.Profile.Deletion.{IsErased, delete_account-IsErased}

abbrev ada : User
ada = record {
  id = 7;
  first_name = "Ada";
  last_name = none;
  email = "ada@example.org";
  password_hash = none;
  is_verified = true;
  verification_code_hash = none;
  verification_code_expires_at = none;
  pending_email = none;
  reset_code_hash = some "123456";
  reset_code_expires_at = some 900;
  email_change_code_hash = none;
  email_change_code_expires_at = none;
  last_code_sent_at = none;
  code_resend_count = 0;
  failed_login_count = 0;
  last_failed_login_at = none;
  avatar_url = none;
  avatar_key = none;
  currency = "EUR";
  reminder_email_enabled = true;
  reminder_push_enabled = true;
  reminder_notice_enabled = true;
  reminder_overdue_enabled = true;
  reminder_action_enabled = true;
  reminder_weekly_enabled = true;
  default_reminder_days = 3;
  locale = "fr";
  timezone = "UTC";
  google_sub = none;
  role = "user";
  is_active = true;
}

abbrev first_token : RefreshToken
first_token = record {
  id = 1;
  user_id = 7;
  token_hash = "first";
  expires_at = 1_000;
  revoked = false;
  revoked_at = none;
}

abbrev signed_in : Db
signed_in = record {
  users = ada ∷ [];
  refresh_tokens = first_token ∷ [];
  attempts = [];
  subscriptions = [];
  commitments = [];
  occurrences = [];
  reminders = [];
  digests = [];
  next_id = 8;
}

abbrev plain : Security
plain = record {
  hash_token = λ t. t;
  decode_token = λ t at. some (record { type = some "refresh"; sub = some 7 });
  create_access_token = λ u role. role;
}

abbrev second_tokens : Tokens
second_tokens = record { access_token = "user"; refresh_token = "second"; role = "user" }

abbrev refreshed : Db
refreshed = (refresh_access_token plain "first" "second" 30 500 signed_in).1

first-refresh :
    refresh_access_token plain "first" "second" 30 500 signed_in ≡ (ok second_tokens, refreshed)
unfolding refresh_access_token refresh_found refresh_row refresh_active rotate issue_tokens
    create_token get_by_token_hash get_user_by_id revoke find exists update
first-refresh = refl

refresh_access_token-replay_example :
    (owner : RefreshToken) × (get_any_by_token_hash "first" refreshed ≡ some owner)
    × (refresh_access_token plain "first" "third" 30 600 refreshed
        ≡ (err (app token_reuse_detected), (revoke_all_for_user owner.user_id 600 refreshed).1))
    × (count
          (is_live_of owner.user_id)
          (revoke_all_for_user owner.user_id 600 refreshed).1.refresh_tokens
        ≡ 0)
refresh_access_token-replay_example =
    refresh_access_token-replay plain "first" "second" "third" 30 30 500 600 second_tokens signed_in
      refreshed first-refresh refl

abbrev guesses : List (String × ℕ)
guesses = ("1", 100) ∷ ("2", 101) ∷ ("3", 102) ∷ ("4", 103) ∷ ("5", 104) ∷ []

attempt_all-max_verification_attempts_example :
    attempt
      (λ t. t)
      ada
      reset
      reset_code_expired
      invalid_reset_code
      ("123456", 105)
      (attempt_all (λ t. t) ada reset reset_code_expired invalid_reset_code guesses signed_in)
    ≡ (
      err (app too_many_verification_attempts),
      attempt_all (λ t. t) ada reset reset_code_expired invalid_reset_code guesses signed_in,
    )
attempt_all-max_verification_attempts_example =
    attempt_all-max_verification_attempts (λ t. t) ada reset reset_code_expired invalid_reset_code
      guesses "123456" 105 signed_in (omega arith)

abbrev compared_passwords : Passwords
compared_passwords = record {
  verify = λ hashed given_password. hashed ≟ given_password;
  needs_rehash = λ hashed. false;
  hash_password = λ given_password. given_password;
}

abbrev eve : User
eve = record ada { password_hash = some "secret" }

abbrev with_password : Db
with_password = record signed_in { users = eve ∷ [] }

abbrev wrong_logins : ℕ → List (String × ℕ)
wrong_logins zero = []
wrong_logins (suc n) = ("guess", 150) ∷ wrong_logins n

wrong_logins-IsWrong :
    (n : ℕ)
    → All
        (IsWrong compared_passwords plain "ada@example.org" "second" 30 (some "secret") 100)
        (wrong_logins n)
unfolding verify_password
wrong_logins-IsWrong zero = tt
wrong_logins-IsWrong (suc n) = ((refl, omega arith, omega arith), wrong_logins-IsWrong n)

login_all-max_login_attempts_example :
    login compared_passwords plain "ada@example.org" "second" 30
      ("secret", 200)
      (login_all compared_passwords plain "ada@example.org" "second" 30
        (wrong_logins 20)
        with_password)
    ≡ (
      err (app invalid_credentials),
      login_all compared_passwords plain "ada@example.org" "second" 30
          (wrong_logins 20)
          with_password,
    )
unfolding get_user_by_email find
login_all-max_login_attempts_example =
    login_all-max_login_attempts compared_passwords plain "ada@example.org" "second" 30 100
      (wrong_logins 20) "secret" 200 with_password eve refl refl (omega arith)
      (wrong_logins-IsWrong 20) (omega arith)

abbrev as_written : Texts
as_written = record { strip = λ t. t; lower = λ t. t; len = λ t. 8; is_disposable = λ t. false }

abbrev after_reset : Db
after_reset =
    (reset_password as_written compared_passwords plain "ada@example.org" "123456" "secret" 500
      signed_in).1

first-reset :
    reset_password as_written compared_passwords plain "ada@example.org" "123456" "secret" 500
      signed_in
    ≡ (ok tt, after_reset)
unfolding reset_password reset_found reset_accepted normalize_email get_user_by_email get_user_by_id
    check_otp compare_otp verify_otp verify_password attempts_of bump_attempts update_password
    update_user update_found find exists update
first-reset = refl

reset_password-once_example :
    reset_password as_written compared_passwords plain "ada@example.org" "123456" "other" 600
      after_reset
    ≡ (err (app invalid_or_expired_reset_code), after_reset)
reset_password-once_example =
    reset_password-once as_written compared_passwords plain "ada@example.org" "123456" "123456"
      "secret" "other" 500 600 signed_in after_reset first-reset

abbrev asked_for : List (VerificationKind × Draw)
asked_for =
    (reset, record { hashed = "111111"; now = 1_000; takes_mail = true })
    ∷ (email_change, record { hashed = "222222"; now = 1_900; takes_mail = false })
    ∷ (verification, record { hashed = "333333"; now = 2_000; takes_mail = true })
    ∷ []

codes_sent-max_resend_per_hour_example : codes_sent 7 asked_for signed_in ≤ max_resend_per_hour
unfolding get_user_by_id find
codes_sent-max_resend_per_hour_example =
    codes_sent-max_resend_per_hour 7 1_000 asked_for ada signed_in refl
      ((omega arith, omega arith), ((omega arith, omega arith), ((omega arith, omega arith), tt)))

signed_in-HasUniqueHashes : HasUniqueHashes signed_in
unfolding count
signed_in-HasUniqueHashes k = ground arith

abbrev writes_of_tokens : List TokenOp
writes_of_tokens =
    create_op 7 "second" 2_000
    ∷ create_op 7 "first" 3_000
    ∷ revoke_op "first" 500
    ∷ revoke_all_op 7 600
    ∷ purge_op 0 1_500
    ∷ []

apply_ops-promised_all_example :
    slot "second" (apply_ops writes_of_tokens signed_in)
    ≡ promised_all writes_of_tokens "second" (slot "second" signed_in)
apply_ops-promised_all_example =
    apply_ops-promised_all writes_of_tokens "second" signed_in signed_in-HasUniqueHashes

abbrev after_deletion : Db
after_deletion =
    (delete_account as_written compared_passwords 7 none (some "ada@example.org") signed_in).1

first-deletion :
    delete_account as_written compared_passwords 7 none (some "ada@example.org") signed_in
    ≡ (ok tt, after_deletion)
unfolding delete_account delete_found get_user get_user_by_id confirmation_matches normalize_email
    delete_user find
first-deletion = refl

delete_account-IsErased_example : IsErased 7 after_deletion
delete_account-IsErased_example =
    delete_account-IsErased as_written compared_passwords 7 none (some "ada@example.org") signed_in
      after_deletion first-deletion
