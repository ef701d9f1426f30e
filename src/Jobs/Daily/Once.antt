-- ===== src/Jobs/Daily/Once.antt =====
-- The mails of several days.
use oublie_pas_backend.Base.{
  ℕ, ◌≡◌, ◌≤◌, ap, arith, refl, ◌∙◌, List, map, sym, ◌∷◌, Bool-cases, ◌+◌, inl, inr, none,
  if-either, true, All,
}
use oublie_pas_backend.Session.{Db}
use oublie_pas_backend.Models.Columns.{email, ReminderKind, notice}
use oublie_pas_backend.Errors.{Result, ok, err}
use oublie_pas_backend.Calendar.{Date, date_of}
use oublie_pas_backend.Notifications.Digest.{send_weekly, digest_on, empty_weekly, digest_days}
use oublie_pas_backend.Notifications.Run.{Run, World, and_then}
use oublie_pas_backend.Jobs.Daily.Calm.{AllCalm, Calm, later-AllCalm}
use oublie_pas_backend.Notifications.Dispatch.Passes.{IsTold, send_due-IsTold, has_id, flag-le-one}
use oublie_pas_backend.Notifications.Digest.Weeks.{
  weekly_told, Weekly, counted, digest_groups-Digests, weekly_budget,
}
use oublie_pas_backend.Notifications.Dispatch.Once.{flag, was_sent-reminders}
use oublie_pas_backend.Base.Sql.{exists, count, sum_by}
use oublie_pas_backend.Repositories.Digests.{is_digest, sent_for_week}
use oublie_pas_backend.Jobs.Daily.{
  finish, send_all, main, run_days, alert, Housekeeping, run_daily, moment_of, should_alert,
  DailyReport, some_report, opened, housekeeping,
}
use oublie_pas_backend.Notifications.Dispatch.{plain, send_due, group_by_user}
use oublie_pas_backend.Jobs.Daily.Chores.{IsRested, housekeeping-IsRested}
use mathlib.Core.List.{[]}
use oublie_pas_backend.Repositories.Reminders.{due_between}
use oublie_pas_backend.Notifications.Dispatch.Batches.{told}
use native.Mathlib.Nat.{le_trans}

-- No mark and no commit that follows a mail or a message fails.
abbrev pub Saves : World → Type 0
Saves w = (x : Run) → w.saves x ≡ true

-- Between two runs, from the day `d` on.
pub record IsQuiet (d : Date) (r : Run) : Type 0 where
  pub calm : AllCalm d r.mails r.committed
  pub weekly :
      (u : ℕ) (week : Date)
      → weekly_told u week r.digest_mails ≤ flag (exists (is_digest u week) r.committed.digests)

-- A pass that starts from calm tables.
start-IsTold :
    (k : ReminderKind) (id slack : ℕ) (d : Date) (r : Run)
    → r.committed ≡ r.db
    → Calm k id slack d r.mails r.db
    → IsTold k id slack r d r
start-IsTold k id slack d r same c = record {
  told_r = record {
    marked = c.marked;
    journal = ap (λ x. x.reminders) same;
    rows = ap (λ x. x.occurrences) same;
    low = omega arith;
    low_committed = omega (arith, ap (λ x. x.next_id) same);
    digests = refl;
    committed_digests = ap (λ x. x.digests) same;
    digest_mails = refl;
  };
  once = c.once;
  unique = c.unique;
  past = c.past;
}

-- What has left and what stays, after a pass and after the digest.
committed-Calm :
    (k : ReminderKind) (id slack : ℕ) (d : Date) (start r s : Run)
    → IsTold k id slack start d r
    → s.mails ≡ r.mails
    → s.committed.reminders ≡ r.db.reminders
    → s.committed.occurrences ≡ r.db.occurrences
    → start.db.next_id ≤ s.committed.next_id
    → Calm k id slack d s.mails s.committed
committed-Calm k id slack d start r s i mails reminders occurrences next = record {
  marked = rw (mails, was_sent-reminders k email s.committed r.db id reminders) i.told_r.marked;
  once = rw mails (ground (arith, i.once, next));
  unique = rw occurrences (ground (arith, i.unique, next));
  past = rw occurrences i.past;
}

send_weekly-Weekly :
    (u : ℕ) (week : Date) (floor : ℕ) (w : World) (saved : Saves w) (at : ℕ) (r : Run)
    → Weekly u week r floor r
    → Weekly u week r floor (send_weekly w at r).1
unfolding send_weekly digest_on
send_weekly-Weekly u week floor w saved at r h = on (digest_days (date_of at))
  where
    on :
        (days : Result (Date × Date))
        → Weekly u week r floor (digest_on w at days (record r { weekly = empty_weekly })).1
    on (err e) = (counted u week r floor 0 (λ _. empty_weekly) r h).weekly_s
    on (ok (start, end)) =
        let reset = counted u week r floor 0 (λ _. empty_weekly) r h in
        let es = map plain (due_between (date_of at) end r.db) in
        (digest_groups-Digests u week r floor w saved start at (sent_for_week start r.db)
          (group_by_user es []) (record r { weekly = empty_weekly }) reset.weekly_s
          (weekly_budget u week start r.db r.digest_mails es h.marked)).weekly_s

due-Weekly :
    (u : ℕ) (week : Date) (k : ReminderKind) (id slack : ℕ) (d : Date) (start r : Run)
    → IsTold k id slack start d r
    → weekly_told u week start.digest_mails ≤ flag (exists (is_digest u week) start.db.digests)
    → Weekly u week r start.db.next_id r
due-Weekly u week k id slack d start r i h = record {
  marked = rw (i.told_r.digest_mails, i.told_r.digests) h;
  journal = i.told_r.committed_digests ∙ sym i.told_r.digests;
  mails = refl;
  reminders = refl;
  occurrences = refl;
  committed_reminders = i.told_r.journal;
  committed_occurrences = i.told_r.rows;
  low = i.told_r.low;
  low_committed = i.told_r.low_committed;
}

-- A pass over the reminders, and the digest if it returned.
after_due :
    (d : Date) (w : World) (saved : Saves w) (at : ℕ) (start : Run) (p : Result (Unit {0}) × Run)
    → ((k : ReminderKind) (id : ℕ) → (slack : ℕ) × IsTold k id slack start d p.1)
    → ((u : ℕ) (week : Date)
        → weekly_told u week start.digest_mails ≤ flag (exists (is_digest u week) start.db.digests))
    → IsQuiet d (and_then p (send_weekly w at)).1
unfolding and_then
after_due d w saved at start (ok _, r) all week_told = record {
  calm = λ k id.
      let (slack, i) = all k id in
      let f =
        send_weekly-Weekly 0 0 start.db.next_id w saved at r
          (due-Weekly 0 0 k id slack d start r i (week_told 0 0)) in
      (
        slack,
        committed-Calm k id slack d start r (send_weekly w at r).1 i f.mails
            (f.committed_reminders ∙ f.reminders) (f.committed_occurrences ∙ f.occurrences)
            f.low_committed,
      );
  weekly = λ u week.
      let (slack, i) = all notice 0 in
      let f =
        send_weekly-Weekly u week start.db.next_id w saved at r
          (due-Weekly u week notice 0 slack d start r i (week_told u week)) in
      rw f.journal f.marked;
}
after_due d w saved at start (err e, r) all week_told = record {
  calm = λ k id.
      let (slack, i) = all k id in
      (
        slack,
        committed-Calm k id slack d start r r i refl i.told_r.journal i.told_r.rows
            i.told_r.low_committed,
      );
  weekly = λ u week.
      let (slack, i) = all notice 0 in
      rw (i.told_r.digest_mails, i.told_r.committed_digests) (week_told u week);
}

finish-IsQuiet :
    (d : Date) (w : World) (reference : Date) (h : Housekeeping) (p : Result (Unit {0}) × Run)
    → IsQuiet d p.1
    → IsQuiet d (finish w reference h p).1
unfolding finish alert
finish-IsQuiet d w reference h (err e, r) q = q
finish-IsQuiet d w reference h (ok _, r) q =
    elim (Bool-cases (should_alert (r.report.emails_sent + r.weekly.weekly_sent) w.operator)) [
      | inl t ↦ rw t (record { calm = q.calm; weekly = q.weekly })
      | inr f ↦ rw f q
    ]

send_all-IsQuiet :
    (w : World) (saved : Saves w) (moment : ℕ) (r : Run) (p : Result Housekeeping × Db)
    → IsQuiet (date_of moment) r
    → IsRested (date_of moment) r.mails r.committed.digests p.1
    → IsQuiet (date_of moment) (send_all w moment r p).1
unfolding send_all
send_all-IsQuiet w saved moment r (err e, db) q h = record { calm = q.calm; weekly = q.weekly }
send_all-IsQuiet w saved moment r (ok counts, db) q (same, all) =
    let start = record r { db = db; committed = db } in
    finish-IsQuiet (date_of moment) w (date_of moment) counts
      (and_then (send_due w moment start) (send_weekly w moment))
      (after_due (date_of moment) w saved moment start (send_due w moment start)
        (λ k id. (
          (all k id).0,
          send_due-IsTold k id (all k id).0 start (date_of moment) w saved moment start refl
              (start-IsTold k id (all k id).0 (date_of moment) start refl (all k id).1),
        ))
        (λ u week. rw same (q.weekly u week)))

main-IsQuiet :
    (d : Date) (w : World) (saved : Saves w) (now : ℕ) (r : Run)
    → d ≤ date_of now
    → IsQuiet d r
    → IsQuiet (date_of now) (main w now r).1
unfolding main run_daily moment_of
main-IsQuiet d w saved now r h q =
    let later = later-AllCalm d (date_of now) r.mails r.committed h q.calm in
    let start : IsQuiet (date_of now) (opened r) = record { calm = later; weekly = q.weekly } in
    if-either (λ p. IsQuiet (date_of now) p.1) w.lock_acquired
      (some_report (run_daily w now none (opened r))) (ok none, r)
      (closed (run_daily w now none (opened r)) (
        send_all-IsQuiet w saved now (opened r) (housekeeping w now (date_of now) r.committed) start
          (housekeeping-IsRested (date_of now) r.mails r.committed.digests w now r.committed
            (refl, later))))
      (record { calm = later; weekly = q.weekly })
  where
    closed :
        (p : Result DailyReport × Run)
        → IsQuiet (date_of now) p.1
        → IsQuiet (date_of now) (some_report p).1
    closed (ok x, s) i = record { calm = i.calm; weekly = i.weekly }
    closed (err e, s) i = record { calm = i.calm; weekly = i.weekly }

-- The days of the runs do not go back.
abbrev pub AreInOrder : Date → List (World × ℕ) → Type 0
AreInOrder d [] = Unit
AreInOrder d ((w, now) ∷ days) = (d ≤ date_of now) × AreInOrder (date_of now) days

abbrev pub AllSave : List (World × ℕ) → Type 0
AllSave days = All (λ d. Saves d.0) days

run_days-IsQuiet :
    (d : Date) (days : List (World × ℕ)) (r : Run)
    → AreInOrder d days
    → AllSave days
    → IsQuiet d r
    → (d' : Date) × IsQuiet d' (run_days days r)
unfolding run_days
run_days-IsQuiet d [] r h all q = (d, q)
run_days-IsQuiet d ((w, now) ∷ days) r h all q =
    run_days-IsQuiet (date_of now) days (main w now r).1 h.1 all.1
      (main-IsQuiet d w all.0 now r h.0 q)

-- Nothing has left yet, and the occurrences have unique identifiers below the next one.
pub record IsUnsent (r : Run) : Type 0 where
  pub no_mails : r.mails ≡ []
  pub no_digests : r.digest_mails ≡ []
  pub unique : (id : ℕ) → count (has_id id) r.committed.occurrences ≤ 1
  pub below : (id : ℕ) → r.committed.next_id ≤ id → count (has_id id) r.committed.occurrences ≡ 0

unsent-IsQuiet : (r : Run) → IsUnsent r → IsQuiet 0 r
unfolding told weekly_told sum_by count
unsent-IsQuiet r h = record {
  calm = λ k id. (
    0,
    record {
      marked = rw h.no_mails (omega arith);
      once = rw h.no_mails (omega arith);
      unique = ground (arith, h.unique id, h.below id);
      past = inl refl;
    },
  );
  weekly = λ u week. rw h.no_digests (omega arith);
}

-- Whatever the mail service answers, and wherever the runs stop with an error other than one of the
-- marks and of the commit that follow a delivery, which never fail: over the runs of any number of days
-- that do not go back, from a log without mails and digests and occurrences with unique identifiers
-- below the next one, each occurrence is named at most once by the reminders of a kind whose sending by
-- mail returns.
pub run_days-told :
    (days : List (World × ℕ)) (r : Run)
    → IsUnsent r
    → AreInOrder 0 days
    → AllSave days
    → (k : ReminderKind) (id : ℕ) → told k id (run_days days r).mails ≤ 1
run_days-told days r h order all k id =
    let (d, q) = run_days-IsQuiet 0 days r order all (unsent-IsQuiet r h) in
    le_trans (q.calm k id).1.once (flag-le-one _)
