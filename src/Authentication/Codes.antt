-- ===== src/Authentication/Codes.antt =====
-- check_otp of services/emailing/otp_service.py, with verify_otp of core/security.py.
use oublie_pas_backend.Models.Users.{
  VerificationKind, User, verification, reset, email_change, max_verification_attempts,
}
use Prim.Native.String.{String}
use oublie_pas_backend.Base.{
  Option, Bool, ℕ, false, true, some, not, ltb, ◌≟◌, ◌&&◌, string_eq, leb,
}
use oublie_pas_backend.Errors.{AppException, too_many_verification_attempts}
use oublie_pas_backend.Session.{Action, raise_if, ◌>>=◌, gets, ◌>>◌, modify}
use mathlib.Core.Option.{none}
use oublie_pas_backend.Repositories.Attempts.{attempts_of, bump_attempts}

-- `CODE_COLUMNS`: the hash of a code, and when it expires.
abbrev pub code_columns : VerificationKind → User → Option String × Option ℕ
code_columns verification u = (u.verification_code_hash, u.verification_code_expires_at)
code_columns reset u = (u.reset_code_hash, u.reset_code_expires_at)
code_columns email_change u = (u.email_change_code_hash, u.email_change_code_expires_at)

-- An empty hash is no hash.
unfoldable pub verify_otp : (String → String) → String → Option String → Bool
verify_otp hash_token code none = false
verify_otp hash_token code (some stored) = not (stored ≟ "") && hash_token code ≟ stored

abbrev pub is_expired : Option ℕ → ℕ → Bool
is_expired none now = true
is_expired (some t) now = ltb t now

-- The comparison, after the attempt is counted.
unfoldable pub compare_otp :
    (String → String)
    → User
    → VerificationKind
    → String
    → AppException
    → AppException
    → ℕ
    → Action (Unit {0})
compare_otp hash_token u kind code expired invalid now =
    raise_if (is_expired (code_columns kind u).1 now) expired >>= λ _.
    raise_if (not (verify_otp hash_token code (code_columns kind u).0)) invalid

unfoldable pub check_otp :
    (String → String)
    → User
    → VerificationKind
    → String
    → AppException
    → AppException
    → ℕ
    → Action (Unit {0})
unfolding compare_otp
check_otp hash_token u kind code expired invalid now = do
  tried ← gets (attempts_of u.id kind)
  raise_if (leb max_verification_attempts tried) too_many_verification_attempts
  modify (bump_attempts u.id kind)
  compare_otp hash_token u kind code expired invalid now
