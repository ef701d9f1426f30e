-- ===== src/Notifications/Run.antt =====
-- services/notifications/reminder_service.py: what a pass over the reminders reads and writes. The
-- mails and the push messages that left are kept in the order in which they were sent.
use oublie_pas_backend.Base.{ℕ, Bool, List, Option, ◌+◌, ◌++◌, ◌∷◌, [], if◌then◌else◌}
use oublie_pas_backend.Base.Int.{ℤ}
use oublie_pas_backend.Base.Sql.{is_in}
use oublie_pas_backend.Calendar.{Date}
use oublie_pas_backend.Commitments.ActionWindow.{ActionWindow}
use oublie_pas_backend.Errors.{Result, ok, err}
use oublie_pas_backend.Models.Columns.{ReminderKind, Channel, email, push}
use oublie_pas_backend.Models.Commitments.{Commitment, CommitmentOccurrence}
use oublie_pas_backend.Models.Users.{PushSubscription}
use oublie_pas_backend.Session.{Db}
use Prim.Native.String.{String}

-- A tuple of `_dispatch`: an action has its window, the other kinds have none.
pub record Entry : Type 0 where
  pub occurrence : CommitmentOccurrence
  pub commitment : Commitment
  pub window : Option ActionWindow

pub record Item : Type 0 where
  pub title : String
  pub due_date : Date
  pub amount : ℕ
  pub days_left : ℤ
  pub window : Option ActionWindow

-- The arguments of `send_reminder_email`, `send_overdue_email` and `send_action_email`, with the
-- occurrences that the mail is about.
pub record Mail : Type 0 where
  pub kind : ReminderKind
  pub user_id : ℕ
  pub to : String
  pub first_name : String
  pub items : List Item
  pub currency : String
  pub locale : String
  pub occurrence_ids : List ℕ

-- The arguments of `PushSender.send_reminder`.
pub record Message : Type 0 where
  pub kind : ReminderKind
  pub user_id : ℕ
  pub endpoint : String
  pub items : List Item
  pub locale : String
  pub occurrence_ids : List ℕ

pub data Outcome : Type 0 where
  delivered gone raised : Outcome

-- The names of the report's entries that `_dispatch` takes as `counter`.
pub data Counter : Type 0 where
  count_actions count_occurrences count_overdue : Counter

pub record Report : Type 0 where
  pub users : ℕ
  pub emails_sent : ℕ
  pub push_sent : ℕ
  pub push_failed : ℕ
  pub occurrences : ℕ
  pub overdue : ℕ
  pub actions : ℕ
  pub skipped : ℕ
  pub failed : ℕ

unfoldable pub empty_report : Report
empty_report = record {
  users = 0;
  emails_sent = 0;
  push_sent = 0;
  push_failed = 0;
  occurrences = 0;
  overdue = 0;
  actions = 0;
  skipped = 0;
  failed = 0;
}

pub record DigestItem : Type 0 where
  pub title : String
  pub due_date : Date
  pub amount : ℕ

-- The arguments of `send_weekly_digest_email`.
pub record DigestMail : Type 0 where
  pub user_id : ℕ
  pub to : String
  pub first_name : String
  pub items : List DigestItem
  pub currency : String
  pub week_start : Date
  pub locale : String

pub record WeeklyReport : Type 0 where
  pub weekly_sent : ℕ
  pub weekly_skipped : ℕ
  pub weekly_failed : ℕ

-- `db` is what the session reads, `committed` what stays if it closes now. `alerts` counts the
-- mails to the operator that were tried.
pub record Run : Type 0 where
  pub db : Db
  pub committed : Db
  pub report : Report
  pub emailed : List ℕ
  pub mails : List Mail
  pub messages : List Message
  pub weekly : WeeklyReport
  pub digest_mails : List DigestMail
  pub alerts : ℕ

-- What the pass meets outside of the program: the time zones, the answers of the mail service and
-- of the push services, which may depend on all that was sent before, and whether the keys of push
-- messages are set, the address of the operator, and whether the advisory lock is free. `takes_mail` and `takes_digest` are false
-- where the call raises, and `saves` is false where the marks or the commit that follow a delivery
-- raise.
pub record World : Type 0 where
  pub date_at : ℕ → String → Date
  pub takes_mail : List Mail → Mail → Bool
  pub takes_digest : List DigestMail → DigestMail → Bool
  pub posts : List Message → PushSubscription → Message → Outcome
  pub push_configured : Bool
  pub operator : Option String
  pub lock_acquired : Bool
  pub saves : Run → Bool

abbrev pub Job : Type 0
Job = Run → Result (Unit {0}) × Run

-- `CHANNELS[channel]["sent"]`
unfoldable pub add_sent : Channel → Report → Report
add_sent email r = record r { emails_sent = r.emails_sent + 1 }
add_sent push r = record r { push_sent = r.push_sent + 1 }

-- `CHANNELS[channel]["failed"]`
unfoldable pub add_failed : Channel → ℕ → Report → Report
add_failed email n r = record r { failed = r.failed + n }
add_failed push n r = record r { push_failed = r.push_failed + n }

unfoldable pub add_counter : Counter → ℕ → Report → Report
add_counter count_actions n r = record r { actions = r.actions + n }
add_counter count_occurrences n r = record r { occurrences = r.occurrences + n }
add_counter count_overdue n r = record r { overdue = r.overdue + n }

-- A set of accounts, without repetitions.
unfoldable pub add_to : ℕ → List ℕ → List ℕ
add_to x xs = if is_in x xs then xs else xs ++ (x ∷ [])

abbrev pub with_report : (Report → Report) → Run → Run
with_report f r = record r { report = f r.report }

-- A call after a call that returned.
unfoldable pub and_then : Result (Unit {0}) × Run → Job → Result (Unit {0}) × Run
and_then (ok _, r) next = next r
and_then (err e, r) next = (err e, r)
