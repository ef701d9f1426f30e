-- ===== src/Models/Users.antt =====
-- models/db/user_db.py: accounts, their refresh tokens, the attempts at their codes, and the devices
-- that take push messages. The columns that only an administrator reads are left out.
use oublie_pas_backend.Base.{ℕ, Bool, ◌≡◌, Eq, true, false, ◌↔◌, Option, arith}
use Prim.Native.String.{String}

abbrev pub max_verification_attempts : ℕ
max_verification_attempts = 5

abbrev pub max_push_subscriptions_per_user : ℕ
max_push_subscriptions_per_user = 10

-- The kinds of code that are sent by mail.
pub data VerificationKind : Type 0 where
  verification reset email_change : VerificationKind

abbrev verification_kind_beq : VerificationKind → VerificationKind → Bool
verification_kind_beq verification verification = true
verification_kind_beq reset reset = true
verification_kind_beq email_change email_change = true
verification_kind_beq _ _ = false

pub verification_kind_beq_iff :
    (a b : VerificationKind) → (verification_kind_beq a b ≡ true) ↔ (a ≡ b)
verification_kind_beq_iff a b = ground arith

instance abbrev pub verification_kind_eq : Eq VerificationKind
verification_kind_eq = record { beq = verification_kind_beq; beq_iff = verification_kind_beq_iff }

pub record User : Type 0 where
  pub id : ℕ
  pub first_name : String
  pub last_name : Option String
  pub email : String
  pub password_hash : Option String
  pub is_verified : Bool
  pub verification_code_hash : Option String
  pub verification_code_expires_at : Option ℕ
  pub pending_email : Option String
  pub reset_code_hash : Option String
  pub reset_code_expires_at : Option ℕ
  pub email_change_code_hash : Option String
  pub email_change_code_expires_at : Option ℕ
  pub last_code_sent_at : Option ℕ
  pub code_resend_count : ℕ
  pub failed_login_count : ℕ
  pub last_failed_login_at : Option ℕ
  pub avatar_url : Option String
  pub avatar_key : Option String
  pub currency : String
  pub reminder_email_enabled : Bool
  pub reminder_push_enabled : Bool
  pub reminder_notice_enabled : Bool
  pub reminder_overdue_enabled : Bool
  pub reminder_action_enabled : Bool
  pub reminder_weekly_enabled : Bool
  pub default_reminder_days : ℕ
  pub locale : String
  pub timezone : String
  pub google_sub : Option String
  pub role : String
  pub is_active : Bool

pub record RefreshToken : Type 0 where
  pub id : ℕ
  pub user_id : ℕ
  pub token_hash : String
  pub expires_at : ℕ
  pub revoked : Bool
  pub revoked_at : Option ℕ

pub record VerificationAttempt : Type 0 where
  pub id : ℕ
  pub user_id : ℕ
  pub kind : VerificationKind
  pub count : ℕ

pub record PushSubscription : Type 0 where
  pub id : ℕ
  pub user_id : ℕ
  pub endpoint : String
  pub p256dh : String
  pub auth : String
  pub user_agent : Option String
  pub last_seen_at : ℕ
