-- ===== src/Errors.antt =====
-- The exceptions of core/exceptions.py, with the status and the code that the front reads, and the
-- results of code that raises.
use Prim.Native.String.{String}
use oublie_pas_backend.Base.{ℕ, ◌≡◌, refl}

-- `commitment_limit_reached` and `restore_limit_reached` carry the limit that they announce; the
-- commitment type that goes with it is that of the request.
pub data AppException : Type 0 where
  email_already_registered disposable_email_not_allowed invalid_credentials : AppException
  email_not_verified account_disabled user_not_found invalid_verification_request : AppException
  invalid_verification_code verification_code_expired too_many_verification_attempts : AppException
  too_many_code_requests no_pending_email_change invalid_refresh_token token_reuse_detected :
      AppException
  invalid_access_token insufficient_permissions no_fields_to_update google_only_account :
      AppException
  password_already_set incorrect_current_password incorrect_password same_password_as_before :
      AppException
  invalid_or_expired_reset_code invalid_reset_code reset_code_expired no_email_change_code :
      AppException
  same_email_as_current email_already_in_use google_auth_unavailable google_auth_failed :
      AppException
  google_email_not_verified commitment_not_found occurrence_not_found future_payment_date :
      AppException
  invalid_date_range unsupported_avatar_type avatar_too_large avatar_upload_failed : AppException
  storage_unavailable invalid_deletion_confirmation google_account_already_linked : AppException
  push_not_configured push_endpoint_refused push_subscription_gone : AppException
  commitment_limit_reached restore_limit_reached : ℕ → AppException

-- `AppException.status_code`.
pub status_code : AppException → ℕ
status_code email_already_registered = 409
status_code disposable_email_not_allowed = 400
status_code invalid_credentials = 401
status_code email_not_verified = 403
status_code account_disabled = 403
status_code user_not_found = 404
status_code invalid_verification_request = 400
status_code invalid_verification_code = 400
status_code verification_code_expired = 400
status_code too_many_verification_attempts = 429
status_code too_many_code_requests = 429
status_code no_pending_email_change = 400
status_code invalid_refresh_token = 401
status_code token_reuse_detected = 401
status_code invalid_access_token = 401
status_code insufficient_permissions = 403
status_code no_fields_to_update = 400
status_code google_only_account = 400
status_code password_already_set = 409
status_code incorrect_current_password = 401
status_code incorrect_password = 401
status_code same_password_as_before = 400
status_code invalid_or_expired_reset_code = 400
status_code invalid_reset_code = 400
status_code reset_code_expired = 400
status_code no_email_change_code = 400
status_code same_email_as_current = 400
status_code email_already_in_use = 409
status_code google_auth_unavailable = 503
status_code google_auth_failed = 401
status_code google_email_not_verified = 403
status_code commitment_not_found = 404
status_code occurrence_not_found = 404
status_code (restore_limit_reached limit) = 409
status_code (commitment_limit_reached limit) = 409
status_code future_payment_date = 400
status_code invalid_date_range = 400
status_code unsupported_avatar_type = 415
status_code avatar_too_large = 413
status_code avatar_upload_failed = 502
status_code storage_unavailable = 503
status_code invalid_deletion_confirmation = 400
status_code google_account_already_linked = 409
status_code push_not_configured = 503
status_code push_endpoint_refused = 400
status_code push_subscription_gone = 410

-- `AppException.code`.
pub code : AppException → String
code email_already_registered = "EMAIL_ALREADY_REGISTERED"
code disposable_email_not_allowed = "DISPOSABLE_EMAIL_NOT_ALLOWED"
code invalid_credentials = "INVALID_CREDENTIALS"
code email_not_verified = "EMAIL_NOT_VERIFIED"
code account_disabled = "ACCOUNT_DISABLED"
code user_not_found = "USER_NOT_FOUND"
code invalid_verification_request = "INVALID_VERIFICATION_REQUEST"
code invalid_verification_code = "INVALID_VERIFICATION_CODE"
code verification_code_expired = "VERIFICATION_CODE_EXPIRED"
code too_many_verification_attempts = "TOO_MANY_VERIFICATION_ATTEMPTS"
code too_many_code_requests = "TOO_MANY_CODE_REQUESTS"
code no_pending_email_change = "NO_PENDING_EMAIL_CHANGE"
code invalid_refresh_token = "INVALID_REFRESH_TOKEN"
code token_reuse_detected = "TOKEN_REUSE_DETECTED"
code invalid_access_token = "INVALID_ACCESS_TOKEN"
code insufficient_permissions = "INSUFFICIENT_PERMISSIONS"
code no_fields_to_update = "NO_FIELDS_TO_UPDATE"
code google_only_account = "GOOGLE_ONLY_ACCOUNT"
code password_already_set = "PASSWORD_ALREADY_SET"
code incorrect_current_password = "INCORRECT_CURRENT_PASSWORD"
code incorrect_password = "INCORRECT_PASSWORD"
code same_password_as_before = "SAME_PASSWORD_AS_BEFORE"
code invalid_or_expired_reset_code = "INVALID_OR_EXPIRED_RESET_CODE"
code invalid_reset_code = "INVALID_RESET_CODE"
code reset_code_expired = "RESET_CODE_EXPIRED"
code no_email_change_code = "NO_EMAIL_CHANGE_CODE"
code same_email_as_current = "SAME_EMAIL_AS_CURRENT"
code email_already_in_use = "EMAIL_ALREADY_IN_USE"
code google_auth_unavailable = "GOOGLE_AUTH_UNAVAILABLE"
code google_auth_failed = "GOOGLE_AUTH_FAILED"
code google_email_not_verified = "GOOGLE_EMAIL_NOT_VERIFIED"
code commitment_not_found = "COMMITMENT_NOT_FOUND"
code occurrence_not_found = "OCCURRENCE_NOT_FOUND"
code (restore_limit_reached limit) = "RESTORE_LIMIT_REACHED"
code (commitment_limit_reached limit) = "COMMITMENT_LIMIT_REACHED"
code future_payment_date = "FUTURE_PAYMENT_DATE"
code invalid_date_range = "INVALID_DATE_RANGE"
code unsupported_avatar_type = "UNSUPPORTED_AVATAR_TYPE"
code avatar_too_large = "AVATAR_TOO_LARGE"
code avatar_upload_failed = "AVATAR_UPLOAD_FAILED"
code storage_unavailable = "STORAGE_UNAVAILABLE"
code invalid_deletion_confirmation = "INVALID_DELETION_CONFIRMATION"
code google_account_already_linked = "GOOGLE_ACCOUNT_ALREADY_LINKED"
code push_not_configured = "PUSH_NOT_CONFIGURED"
code push_endpoint_refused = "PUSH_ENDPOINT_REFUSED"
code push_subscription_gone = "PUSH_SUBSCRIPTION_GONE"

-- What a call raises: an exception of the application, or one of the language and of the database.
pub data Error : Type 0 where
  app : AppException → Error
  overflow_error value_error key_error index_error runtime_error integrity_error operational_error :
      Error
  no_result_found : Error
  -- A loop of the model that ran out of fuel: each loop has a theorem that it never does.
  stuck : Error

pub data Result {ℓ} (A : Type ℓ) : Type ℓ where
  ok : A → Result A
  err : Error → Result A

infixl 5 ◌>>=◌
abbrev pub ◌>>=◌ {ℓ κ} : {A : Type ℓ} {B : Type κ} → Result A → (A → Result B) → Result B
ok a >>= f = f a
err e >>= f = err e

-- What a bind that returns went through.
pub >>=-returned {ℓ κ} :
    {A : Type ℓ} {B : Type κ} (m : Result A) (f : A → Result B) (b : B)
    → (m >>= f) ≡ ok b
    → (a : A) × (m ≡ ok a) × (f a ≡ ok b)
>>=-returned (ok a) f b h = (a, refl, h)
>>=-returned (err e) f b h = cc
