-- ===== src/Jobs/Daily.antt =====
-- jobs/daily.py: the run of a day. An instant is a number of seconds, as in Calendar.
pub mod Calm
pub mod Purges
pub mod Chores
pub mod Once
mod Tests
use oublie_pas_backend.Base.{
  ℕ, Bool, Option, none, some, List, ◌∷◌, [], ◌+◌, ◌-◌, ◌*◌, ◌&&◌, not, leb, ltb, ◌==◌, ◌≟◌,
  if◌then◌else◌, string_eq, false,
}
use oublie_pas_backend.Calendar.{Date, date_of, sub_days, seconds_per_day}
use oublie_pas_backend.Commitments.Sync.{sync_all_active}
use oublie_pas_backend.Errors.{Result, ok, err, overflow_error}
use oublie_pas_backend.Models.Commitments.{purge_after_days, purge_reminders_after_days}
use oublie_pas_backend.Notifications.Digest.{send_weekly}
use oublie_pas_backend.Notifications.Dispatch.{send_due}
use oublie_pas_backend.Notifications.Run.{Run, World, Job, Report, WeeklyReport, and_then}
use oublie_pas_backend.Repositories.Commitments.{purge_deleted}
use oublie_pas_backend.Repositories.Reminders.{purge_reminders}
use oublie_pas_backend.Session.{Db, Action, ◌>>=◌, modify, lift, pure}
use Prim.Native.String.{String}

abbrev pub resend_daily_alert_threshold : ℕ
resend_daily_alert_threshold = 80

-- `bool(operator)`
abbrev pub is_set : Option String → Bool
is_set none = false
is_set (some s) = not (s ≟ "")

unfoldable pub should_alert : ℕ → Option String → Bool
should_alert emails_sent operator = is_set operator && ltb resend_daily_alert_threshold emails_sent

pub record DailyReport : Type 0 where
  pub date : Date
  pub occurrences_generated : ℕ
  pub purged : ℕ
  pub reminders_purged : ℕ
  pub reminders : Report
  pub digest : WeeklyReport

-- `datetime.combine(today, CRON_HOUR)`, at noon.
unfoldable pub moment_of : ℕ → Option Date → ℕ
moment_of now none = now
moment_of now (some today) = (today - 1) * seconds_per_day + 43_200

-- `now - timedelta(days=n)`
unfoldable pub days_before : ℕ → ℕ → Result ℕ
days_before now n =
    if leb (n * seconds_per_day) now then ok (now - n * seconds_per_day) else err overflow_error

pub record Housekeeping : Type 0 where
  pub purged : ℕ
  pub forgotten : ℕ
  pub generated : ℕ

unfoldable pub generate : World → ℕ → Date → ℕ → ℕ → Action Housekeeping
generate w now reference purged forgotten =
    sync_all_active (w.date_at now) (some reference) >>= λ generated.
    pure (record { purged = purged; forgotten = forgotten; generated = generated })

unfoldable pub purge_journal : World → ℕ → Date → ℕ → Date → Action Housekeeping
unfolding generate
purge_journal w now reference purged settled =
    modify (purge_reminders settled) >>= generate w now reference purged

unfoldable pub purge_trash : World → ℕ → Date → ℕ → Action Housekeeping
unfolding purge_journal
purge_trash w now reference deleted = modify (purge_deleted deleted) >>= λ purged.
    lift (sub_days reference purge_reminders_after_days) >>= purge_journal w now reference purged

-- The purges and the generation of `run_daily`, before its first commit.
unfoldable pub housekeeping : World → ℕ → Date → Action Housekeeping
unfolding purge_trash
housekeeping w now reference =
    lift (days_before now purge_after_days) >>= purge_trash w now reference

-- The mail to the operator, whose failure is ignored.
unfoldable pub alert : World → Run → Run
unfolding should_alert
alert w r =
    if should_alert (r.report.emails_sent + r.weekly.weekly_sent) w.operator
    then record r { alerts = r.alerts + 1 }
    else r

unfoldable pub report_of : Date → Housekeeping → Run → DailyReport
report_of reference h r = record {
  date = reference;
  occurrences_generated = h.generated;
  purged = h.purged;
  reminders_purged = h.forgotten;
  reminders = r.report;
  digest = r.weekly;
}

unfoldable pub finish :
    World → Date → Housekeeping → Result (Unit {0}) × Run → Result DailyReport × Run
unfolding alert report_of
finish w reference h (err e, r) = (err e, r)
finish w reference h (ok _, r) = (ok (report_of reference h r), alert w r)

-- The reminders and the digest, once the housekeeping is committed.
unfoldable pub send_all : World → ℕ → Run → Result Housekeeping × Db → Result DailyReport × Run
unfolding finish and_then
send_all w moment r (err e, db) = (err e, record r { db = db })
send_all w moment r (ok h, db) =
    finish w (date_of moment) h
      (and_then (send_due w moment (record r { db = db; committed = db })) (send_weekly w moment))

unfoldable pub run_daily : World → ℕ → Option Date → Run → Result DailyReport × Run
unfolding send_all housekeeping moment_of
run_daily w now today r =
    let moment = moment_of now today in
    send_all w moment r (housekeeping w now (date_of moment) r.db)

-- A session that opens, and one that closes: what was not committed is lost.
abbrev pub opened : Run → Run
opened r = record r { db = r.committed }

abbrev pub some_report : Result DailyReport × Run → Result (Option DailyReport) × Run
some_report (ok x, r) = (ok (some x), opened r)
some_report (err e, r) = (err e, opened r)

-- `main`: no report where another run holds the lock.
unfoldable pub main : World → ℕ → Run → Result (Option DailyReport) × Run
unfolding run_daily
main w now r =
    if w.lock_acquired then some_report (run_daily w now none (opened r)) else (ok none, r)

unfoldable pub exit_code : Option DailyReport → ℕ
exit_code none = 0
exit_code (some x) = if x.reminders.failed == 0 then 0 else 1

-- The runs of several days, each with what it meets and the instant at which it reads the clock.
unfoldable pub run_days : List (World × ℕ) → Run → Run
unfolding main
run_days [] r = r
run_days ((w, now) ∷ days) r = run_days days (main w now r).1
