-- ===== src/Notifications/Dispatch/Totals.antt =====
-- The report of a pass, against the mails that left.
use oublie_pas_backend.Base.{
  ℕ, List, ◌+◌, length, ◌++◌, ◌≡◌, ◌≤◌, ◌∷◌, arith, length-append, refl, ◌∙◌, true, sym,
}
use oublie_pas_backend.Models.Columns.{email, push, Channel, ReminderKind}
use oublie_pas_backend.Notifications.Run.{
  Run, add_to, add_counter, Mail, Entry, Counter, add_sent, Report, add_failed, empty_report, World,
  count_actions, with_report, count_occurrences, count_overdue, and_then,
}
use oublie_pas_backend.Notifications.Dispatch.{
  saved_sent, send_due, fresh, ids_of, mail_of, count_users, send_kinds, calls,
}
use oublie_pas_backend.Base.Sql.{sum_by}
use oublie_pas_backend.Notifications.Dispatch.Batches.{sum_by-append}
use oublie_pas_backend.Notifications.Dispatch.Keeps.{Keeps, send_kinds-Keeps}
use mathlib.Core.List.{[]}
use oublie_pas_backend.Models.Users.{User}
use oublie_pas_backend.Calendar.{Date}
use oublie_pas_backend.Errors.{Result, ok, err}

-- The occurrences that the mails name.
unfoldable pub named : List Mail → ℕ
named mails = sum_by (λ m. length m.occurrence_ids) mails

length-ids_of : (rows : List Entry) → length (ids_of rows) ≡ length rows
length-ids_of [] = refl
length-ids_of (e ∷ es) = omega (arith, length-ids_of es)

named-append : (xs ys : List Mail) → named (xs ++ ys) ≡ named xs + named ys
unfolding named
named-append xs ys = sum_by-append (λ m. length m.occurrence_ids) xs ys

named-mail_of :
    (kind : ReminderKind) (u : User) (rows : List Entry) (today : Date)
    → named (mail_of kind u rows today ∷ []) ≡ length rows
unfolding named mail_of sum_by
named-mail_of kind u rows today = omega (arith, length-ids_of rows)

-- The report counts the mails after the first `before` of them.
pub record IsCounted (sent occurrences : ℕ) (r : Run) : Type 0 where
  pub emails : r.report.emails_sent + sent ≡ length r.mails
  pub by_kind :
      r.report.actions + r.report.occurrences + r.report.overdue + occurrences ≡ named r.mails
  pub accounts : length r.emailed ≤ r.report.emails_sent
  pub no_users : r.report.users ≡ 0

add_to-length : (x : ℕ) (xs : List ℕ) → length (add_to x xs) ≤ length xs + 1
unfolding add_to
add_to-length x xs = ground (arith, length-append xs (x ∷ []))

add_counter-sum :
    (counter : Counter) (n : ℕ) (x : Report)
    → ((add_counter counter n x).actions
          + (add_counter counter n x).occurrences
          + (add_counter counter n x).overdue
        ≡ x.actions + x.occurrences + x.overdue + n)
      × ((add_counter counter n x).emails_sent ≡ x.emails_sent)
      × ((add_counter counter n x).users ≡ x.users)
unfolding add_counter
add_counter-sum count_actions n x = (omega arith, refl, refl)
add_counter-sum count_occurrences n x = (omega arith, refl, refl)
add_counter-sum count_overdue n x = (omega arith, refl, refl)

IsCounted-Keeps :
    (w : World) (sent occurrences : ℕ)
    → ((x : Run) → w.saves x ≡ true)
    → Keeps w (IsCounted sent occurrences)
unfolding saved_sent add_sent add_failed
IsCounted-Keeps w sent occurrences saved = record {
  skips = λ n r p. ground (arith, p);
  fails = λ channel n r p. failed_lem channel n r p;
  posts_kept = λ r s q p. ground (arith, p, q);
  mails_kept = λ kind counter at user_id u today rows r found t p.
      mailed kind counter at user_id u today rows r p;
  mails_unsaved =
      λ kind user_id u today rows r found t z p. absurd (let clash = sym z ∙ saved _ in cc);
  pushes_kept = λ kind counter at user_id rows r p. ground (arith, p);
}
  where
    failed_lem :
        (channel : Channel) (n : ℕ) (r : Run)
        → IsCounted sent occurrences r
        → IsCounted sent occurrences (with_report (add_failed channel n) r)
    failed_lem email n r p = ground (arith, p)
    failed_lem push n r p = ground (arith, p)

    mailed :
        (kind : ReminderKind) (counter : Counter) (at user_id : ℕ) (u : User) (today : Date)
        (rows : List Entry) (r : Run)
        → IsCounted sent occurrences r
        → IsCounted sent occurrences (
            saved_sent kind email counter at user_id rows
              (record r { mails = r.mails ++ (mail_of kind u rows today ∷ []) }))
    mailed kind counter at user_id u today rows r p =
        let sums = add_counter-sum counter (length rows) (add_sent email r.report) in
        let mail = mail_of kind u rows today in
        record {
          emails = omega (arith, sums.1, p.emails, length-append r.mails (mail ∷ []));
          by_kind = omega (
            arith,
            sums.0,
            p.by_kind,
            named-append r.mails (mail ∷ []),
            named-mail_of kind u rows today,
          );
          accounts = omega (arith, sums.1, p.accounts, add_to-length user_id r.emailed);
          no_users = sums.2 ∙ p.no_users;
        }

-- What the report of the run `s` says of the mails since `r`.
pub record IsReport (r s : Run) : Type 0 where
  pub emails : s.report.emails_sent + length r.mails ≡ length s.mails
  pub by_kind :
      s.report.actions + s.report.occurrences + s.report.overdue + named r.mails ≡ named s.mails
  pub accounts : s.report.users ≤ s.report.emails_sent

-- The report of a pass that returns or stops, where no mark and no commit after a delivery fails: `emails_sent` is the number of mails that left in it,
-- `actions`, `occurrences` and `overdue` together the number of occurrences that these mails name,
-- and `users` is at most `emails_sent`.
pub send_due-IsReport :
    (w : World) (at : ℕ) (r : Run) → ((x : Run) → w.saves x ≡ true) → IsReport r (send_due w at r).1
unfolding send_due fresh empty_report and_then
send_due-IsReport w at r saved = counted (send_kinds w at (calls w) (fresh r)) (
    send_kinds-Keeps (IsCounted (length r.mails) (named r.mails)) w
      (IsCounted-Keeps w (length r.mails) (named r.mails) saved) at (calls w) (fresh r)
      (ground arith))
  where
    counted :
        (p : Result (Unit {0}) × Run)
        → IsCounted (length r.mails) (named r.mails) p.1
        → IsReport r (and_then p (λ after. (ok tt, count_users after))).1
    counted (ok _, s) q = record { emails = q.emails; by_kind = q.by_kind; accounts = q.accounts }
    counted (err e, s) q = record {
      emails = q.emails;
      by_kind = q.by_kind;
      accounts = ground (arith, q.no_users);
    }
