-- ===== src/Authentication/Issue.antt =====
-- OtpService of services/emailing/otp_service.py: the codes that are sent. The two readings of the
-- clock in a call are one.
use oublie_pas_backend.Base.{
  ℕ, Bool, Option, none, some, ◌+◌, ◌&&◌, ltb, leb, if◌then◌else◌, false, ◌*◌,
}
use oublie_pas_backend.Errors.{err, runtime_error, too_many_code_requests}
use oublie_pas_backend.Models.Users.{User, VerificationKind, verification, reset, email_change}
use oublie_pas_backend.Repositories.Attempts.{clear_attempts}
use oublie_pas_backend.Repositories.Users.{update_user, update_user_by_email}
use oublie_pas_backend.Session.{Action, ◌>>=◌, pure, raise_if, modify}
use Prim.Native.String.{String}
use mathlib.Core.Option

abbrev pub max_resend_per_hour : ℕ
max_resend_per_hour = 5

-- OTP_EXPIRY_MINUTES, in seconds.
abbrev pub otp_expiry : ℕ
otp_expiry = 15 * 60

-- What a call draws and meets: the code, its hash, the instant, and whether the mail service takes
-- the mail.
pub record Draw : Type 0 where
  pub hashed : String
  pub now : ℕ
  pub takes_mail : Bool

-- `last_code_sent_at > now - timedelta(hours=1)`
abbrev pub sent_lately : Option ℕ → ℕ → Bool
sent_lately none now = false
sent_lately (some t) now = ltb now (t + 3_600)

unfoldable pub resend_limited : User → ℕ → Bool
resend_limited u now =
    sent_lately u.last_code_sent_at now && leb max_resend_per_hour u.code_resend_count

unfoldable pub compute_resend_count : User → ℕ → ℕ
compute_resend_count u now =
    if sent_lately u.last_code_sent_at now then u.code_resend_count + 1 else 1

abbrev pub limited : Option User → ℕ → Bool
limited none now = false
limited (some u) now = resend_limited u now

abbrev pub resend_count : Option User → ℕ → ℕ
resend_count none now = 1
resend_count (some u) now = compute_resend_count u now

abbrev pub with_columns : VerificationKind → String → ℕ → User → User
with_columns verification hashed expires u = record u {
  verification_code_hash = some hashed;
  verification_code_expires_at = some expires;
}
with_columns reset hashed expires u = record u {
  reset_code_hash = some hashed;
  reset_code_expires_at = some expires;
}
with_columns email_change hashed expires u = record u {
  email_change_code_hash = some hashed;
  email_change_code_expires_at = some expires;
}

-- The columns that `_issue` writes.
unfoldable pub with_code : VerificationKind → Draw → ℕ → User → User
with_code kind d count u =
    with_columns kind d.hashed (d.now + otp_expiry)
      (record u { last_code_sent_at = some d.now; code_resend_count = count })

abbrev pub clear_for : VerificationKind → Option ℕ → Action (Unit {0})
clear_for kind none = pure tt
clear_for kind (some user_id) = modify (clear_attempts user_id kind)

-- The mail, whose failure is an error of the request.
unfoldable pub send_code : Bool → Action (Unit {0})
send_code takes_mail db = if takes_mail then pure tt db else (err runtime_error, db)

unfoldable pub write_code :
    VerificationKind → Option ℕ → Draw → Action (Unit {0}) → Action (Unit {0})
unfolding send_code
write_code kind user_id d write =
    write >>= λ _. clear_for kind user_id >>= λ _. send_code d.takes_mail

-- `_issue`
unfoldable pub issue :
    VerificationKind
    → Option ℕ
    → Option User
    → Draw
    → ((User → User) → Action (Unit {0}))
    → Action (Unit {0})
unfolding write_code with_code
issue kind user_id found d write = raise_if (limited found d.now) too_many_code_requests >>= λ _.
    write_code kind user_id d (write (with_code kind d (resend_count found d.now)))

abbrev pub write_by_id : ℕ → (User → User) → Action (Unit {0})
write_by_id user_id changes = update_user user_id changes >>= λ _. pure tt

abbrev pub write_by_email : String → (User → User) → Action (Unit {0})
write_by_email address changes = modify (update_user_by_email address changes) >>= λ _. pure tt

unfoldable pub send_verification_otp : ℕ → Option User → Draw → Action (Unit {0})
unfolding issue
send_verification_otp user_id found d =
    issue verification (some user_id) found d (write_by_id user_id)

unfoldable pub send_reset_otp : String → Option User → Draw → Action (Unit {0})
unfolding issue
send_reset_otp address found d =
    issue reset (Option.map (λ u. u.id) found) found d (write_by_email address)

unfoldable pub send_email_change_otp : ℕ → Option User → Draw → Action (Unit {0})
unfolding issue
send_email_change_otp user_id found d =
    issue email_change (some user_id) found d (write_by_id user_id)
