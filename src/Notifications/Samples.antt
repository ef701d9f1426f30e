-- ===== src/Notifications/Samples.antt =====
-- Accounts, rows and answers for the runs of the tests.
use oublie_pas_backend.Base.{ℕ, none, true, [], ◌∷◌, ◌*◌, ◌+◌, if◌then◌else◌, ◌==◌, ◌-◌}
use oublie_pas_backend.Models.Columns.{subscription, pending, yearly, active}
use oublie_pas_backend.Models.Commitments.{Commitment, CommitmentOccurrence}
use oublie_pas_backend.Models.Users.{User, PushSubscription}
use oublie_pas_backend.Notifications.Run.{Run, World, delivered, raised, empty_report}
use oublie_pas_backend.Session.{Db}
use Prim.Native.String.{String}
use oublie_pas_backend.Calendar.{date_of}
use oublie_pas_backend.Notifications.Digest.{empty_weekly}

abbrev pub reader : User
reader = record {
  id = 7;
  first_name = "Ada";
  last_name = none;
  email = "ada@mail.example";
  password_hash = none;
  is_verified = true;
  verification_code_hash = none;
  verification_code_expires_at = none;
  pending_email = none;
  reset_code_hash = none;
  reset_code_expires_at = none;
  email_change_code_hash = none;
  email_change_code_expires_at = none;
  last_code_sent_at = none;
  code_resend_count = 0;
  failed_login_count = 0;
  last_failed_login_at = none;
  avatar_url = none;
  avatar_key = none;
  currency = "CAD";
  reminder_email_enabled = true;
  reminder_push_enabled = true;
  reminder_notice_enabled = true;
  reminder_overdue_enabled = true;
  reminder_action_enabled = true;
  reminder_weekly_enabled = true;
  default_reminder_days = 3;
  locale = "fr";
  timezone = "UTC";
  google_sub = none;
  role = "user";
  is_active = true;
}

abbrev pub rent : Commitment
rent = record {
  id = 1;
  user_id = 7;
  title = "Rent";
  type = subscription;
  category = "Home";
  amount = 90_000;
  frequency = yearly;
  starts_on = 739400;
  ends_on = none;
  trial_ends_on = none;
  cancellation_notice_days = none;
  reminder_days_before = 3;
  is_reminder_enabled = true;
  status = active;
  notes = none;
  deleted_at = none;
  created_at = 0;
}

abbrev pub rent_due : CommitmentOccurrence
rent_due = record {
  id = 2;
  commitment_id = 1;
  user_id = 7;
  due_date = 739400;
  amount = 90_000;
  status = pending;
  paid_at = none;
  paid_on = none;
}

abbrev pub device : ℕ → PushSubscription
device n = record {
  id = n;
  user_id = 7;
  endpoint = if_first n;
  p256dh = "key";
  auth = "secret";
  user_agent = none;
  last_seen_at = 100 - n;
}
  where
    if_first : ℕ → String
    if_first n = if n == 3 then "https://fcm.googleapis.com/a" else "https://fcm.googleapis.com/b"

abbrev pub tables : Db
tables = record {
  users = reader ∷ [];
  refresh_tokens = [];
  attempts = [];
  subscriptions = device 3 ∷ device 4 ∷ [];
  commitments = rent ∷ [];
  occurrences = rent_due ∷ [];
  reminders = [];
  digests = [];
  next_id = 5;
}

-- The mail service takes every mail; the push service takes the messages to the first device only.
abbrev pub world : World
world = record {
  date_at = λ moment zone. date_of moment;
  takes_mail = λ ms m. true;
  takes_digest = λ ms m. true;
  posts = λ ms s m. if s.id == 3 then delivered else raised;
  push_configured = true;
  operator = none;
  lock_acquired = true;
  saves = λ r. true;
}

abbrev pub idle : Run
idle = record {
  db = tables;
  committed = tables;
  report = empty_report;
  emailed = [];
  mails = [];
  messages = [];
  weekly = empty_weekly;
  digest_mails = [];
  alerts = 0;
}

-- Noon of 2025-05-28, three days before the due date.
abbrev pub morning : ℕ
morning = 739396 * 86_400 + 43_200
