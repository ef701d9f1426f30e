-- ===== src/Notifications/Digest.antt =====
-- services/notifications/weekly_digest.py: the mail of the week's due dates.
pub mod Accounts
pub mod Weeks
use oublie_pas_backend.Base.{
  ℕ, Bool, List, ◌++◌, ◌∷◌, [], ◌&&◌, ◌+◌, map, if◌then◌else◌, none, some,
}
use oublie_pas_backend.Base.Sql.{is_in}
use oublie_pas_backend.Calendar.{Date, date_of, weekday, add_days, sub_days}
use oublie_pas_backend.Errors.{Result, ok, err, operational_error, ◌>>=◌}
use oublie_pas_backend.Models.Users.{User}
use oublie_pas_backend.Notifications.Dispatch.{group_by_user, plain}
use oublie_pas_backend.Notifications.Run.{
  Run, World, Entry, Job, DigestItem, DigestMail, WeeklyReport, and_then,
}
use oublie_pas_backend.Repositories.Attempts.{get_user_by_id}
use oublie_pas_backend.Repositories.Digests.{sent_for_week, mark_sent}
use oublie_pas_backend.Repositories.Reminders.{due_between}
use oublie_pas_backend.Session.{Db}

unfoldable pub week_start : Date → Result Date
week_start reference = sub_days reference (weekday reference)

unfoldable pub accepts_digest : User → Bool
accepts_digest u =
    u.is_active && (u.is_verified && (u.reminder_email_enabled && u.reminder_weekly_enabled))

abbrev digest_item : Entry → DigestItem
digest_item e = record {
  title = e.commitment.title;
  due_date = e.occurrence.due_date;
  amount = e.occurrence.amount;
}

unfoldable pub digest_mail : ℕ → User → Date → List Entry → DigestMail
digest_mail user_id u start rows = record {
  user_id = user_id;
  to = u.email;
  first_name = u.first_name;
  items = map digest_item rows;
  currency = u.currency;
  week_start = start;
  locale = u.locale;
}

abbrev pub count_weekly : (WeeklyReport → WeeklyReport) → Run → Run
count_weekly f r = record r { weekly = f r.weekly }

abbrev pub weekly_skip : WeeklyReport → WeeklyReport
weekly_skip x = record x { weekly_skipped = x.weekly_skipped + 1 }

abbrev pub weekly_fail : WeeklyReport → WeeklyReport
weekly_fail x = record x { weekly_failed = x.weekly_failed + 1 }

abbrev pub weekly_count : WeeklyReport → WeeklyReport
weekly_count x = record x { weekly_sent = x.weekly_sent + 1 }

-- The commit, after a row of the journal.
unfoldable pub after_mark : Result (Unit {0}) × Db → Job
after_mark (ok _, marked) r =
    (ok tt, count_weekly weekly_count (record r { db = marked; committed = marked }))
after_mark (err e, _) r = (err e, r)

-- An error of the mark or of the commit ends the pass, uncommitted.
unfoldable pub record_digest : World → ℕ → Date → ℕ → Job
unfolding after_mark
record_digest w user_id start at r =
    if w.saves r then after_mark (mark_sent user_id start at r.db) r else (err operational_error, r)

unfoldable pub send_digest : World → Date → ℕ → ℕ → List Entry → User → Job
unfolding accepts_digest digest_mail record_digest
send_digest w start at user_id rows u r =
    let mail = digest_mail user_id u start rows in
    if accepts_digest u
    then (if w.takes_digest r.digest_mails mail
        then record_digest w user_id start at
            (record r { digest_mails = r.digest_mails ++ (mail ∷ []) })
        else (ok tt, count_weekly weekly_fail r))
    else (ok tt, count_weekly weekly_skip r)

unfoldable pub digest_account : World → Date → ℕ → List ℕ → ℕ → List Entry → Job
unfolding send_digest
digest_account w start at already user_id rows r =
    if is_in user_id already then (ok tt, r) else elim (get_user_by_id user_id r.db) [
      | none ↦ (ok tt, count_weekly weekly_skip r)
      | some u ↦ send_digest w start at user_id rows u r
    ]

unfoldable pub digest_groups : World → Date → ℕ → List ℕ → List (ℕ × List Entry) → Job
unfolding digest_account and_then
digest_groups w start at already [] r = (ok tt, r)
digest_groups w start at already ((user_id, rows) ∷ groups) r =
    and_then (digest_account w start at already user_id rows r)
      (digest_groups w start at already groups)

unfoldable pub empty_weekly : WeeklyReport
empty_weekly = record { weekly_sent = 0; weekly_skipped = 0; weekly_failed = 0 }

-- The days of the digest, from the day itself to the Sunday, with the Monday that is its key.
unfoldable pub digest_days : Date → Result (Date × Date)
unfolding week_start
digest_days reference =
    week_start reference >>= λ start. add_days start 6 >>= λ end. ok (start, end)

unfoldable pub digest_on : World → ℕ → Result (Date × Date) → Job
unfolding digest_groups group_by_user
digest_on w at (err e) r = (err e, r)
digest_on w at (ok (start, end)) r =
    digest_groups w start at (sent_for_week start r.db)
      (group_by_user (map plain (due_between (date_of at) end r.db)) []) r

-- `WeeklyDigestService.send`
unfoldable pub send_weekly : World → ℕ → Job
unfolding digest_on digest_days empty_weekly
send_weekly w at r = digest_on w at (digest_days (date_of at)) (record r { weekly = empty_weekly })
