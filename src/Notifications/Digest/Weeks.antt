-- ===== src/Notifications/Digest/Weeks.antt =====
-- The digests that leave, against their journal.
use oublie_pas_backend.Base.{
  ℕ, ◌≤◌, ◌≡◌, ◌==◌, List, ◌∷◌, [], ◌+◌, refl, arith, inl, inr, Bool-cases, not, ◌&&◌,
  if◌then◌else◌, ◌++◌, Bool, true, ==_iff, false, ◌⊎◌, Option-cases, ap,
}
use oublie_pas_backend.Base.Sql.{count, exists, is_in}
use oublie_pas_backend.Models.Columns.{email}
use oublie_pas_backend.Errors.{Result, ok, err}
use oublie_pas_backend.Calendar.{Date}
use oublie_pas_backend.Notifications.Run.{
  DigestMail, Run, WeeklyReport, and_then, World, Job, Entry,
}
use oublie_pas_backend.Notifications.Dispatch.Once.{flag}
use oublie_pas_backend.Notifications.Digest.{
  record_digest, count_weekly, after_mark, send_digest, digest_mail, digest_account, digest_groups,
  accepts_digest, weekly_skip, weekly_fail,
}
use oublie_pas_backend.Repositories.Digests.{is_digest, mark_sent, sent_for_week}
use oublie_pas_backend.Base.Sql.Laws.{count-append, exists-append}
use oublie_pas_backend.Models.Commitments.{WeeklyDigest}
use mathlib.Core.Path.{subst}
use oublie_pas_backend.Models.Users.{User}
use oublie_pas_backend.Notifications.Digest.Accounts.{
  is_batch, sent_for_week-is_in, group_by_user-count,
}
use oublie_pas_backend.Repositories.Attempts.{get_user_by_id}
use oublie_pas_backend.Session.{Db}
use oublie_pas_backend.Notifications.Dispatch.{group_by_user}

abbrev pub is_digest_mail : ℕ → Date → DigestMail → Bool
is_digest_mail u week m = m.user_id == u && m.week_start == week

unfoldable pub weekly_told : ℕ → Date → List DigestMail → ℕ
weekly_told u week mails = count (is_digest_mail u week) mails

-- The number that `n` batches of an account add to the digests of a week.
abbrev pub weekly_load : Date → Date → ℕ → List ℕ → ℕ → ℕ
weekly_load week start u already n = if start == week && not (is_in u already) then n else 0

module _ (u : ℕ) (week : Date) (g : Run) (floor : ℕ) where
  -- The journal has what the digests told, and the rest is as the run `g` had it.
  pub record Weekly (r : Run) : Type 0 where
    pub marked : weekly_told u week r.digest_mails ≤ flag (exists (is_digest u week) r.db.digests)
    pub journal : r.committed.digests ≡ r.db.digests
    pub mails : r.mails ≡ g.mails
    pub reminders : r.db.reminders ≡ g.db.reminders
    pub occurrences : r.db.occurrences ≡ g.db.occurrences
    pub committed_reminders : r.committed.reminders ≡ r.db.reminders
    pub committed_occurrences : r.committed.occurrences ≡ r.db.occurrences
    pub low : floor ≤ r.db.next_id
    pub low_committed : floor ≤ r.committed.next_id

  -- From `r` to `s`, with at most `n` more digests of the week for the account.
  pub record Digests (n : ℕ) (r s : Run) : Type 0 where
    pub weekly_s : Weekly s
    pub told_le : weekly_told u week s.digest_mails ≤ weekly_told u week r.digest_mails + n

  pub counted :
      (n : ℕ) (f : WeeklyReport → WeeklyReport) (r : Run)
      → Weekly r
      → Digests n r (count_weekly f r)
  counted n f r h = record {
    weekly_s = record {
      marked = h.marked;
      journal = h.journal;
      mails = h.mails;
      reminders = h.reminders;
      occurrences = h.occurrences;
      committed_reminders = h.committed_reminders;
      committed_occurrences = h.committed_occurrences;
      low = h.low;
      low_committed = h.low_committed;
    };
    told_le = omega arith;
  }

  module _ (w : World) (saved : (x : Run) → w.saves x ≡ true) (user_id : ℕ) (start : Date) (at : ℕ)
      (mail : DigestMail) (r : Run) (e1 : mail.user_id ≡ user_id) (e2 : mail.week_start ≡ start)
      (h : Weekly r)
      (once : weekly_told u week r.digest_mails + flag (user_id == u && start == week) ≤ 1) where
    told-append :
        weekly_told u week (r.digest_mails ++ (mail ∷ []))
        ≡ weekly_told u week r.digest_mails + flag (user_id == u && start == week)
    unfolding weekly_told count
    told-append =
        ground (arith, count-append (is_digest_mail u week) r.digest_mails (mail ∷ []), e1, e2)

    already_marked :
        exists (is_digest user_id start) r.db.digests ≡ true
        → weekly_told u week (r.digest_mails ++ (mail ∷ []))
          ≤ flag (exists (is_digest u week) r.db.digests)
    already_marked t = elim (Bool-cases (user_id == u && start == week)) [
      | inl e ↦
          let same : exists (is_digest u week) r.db.digests ≡ true =
            subst (λ x. exists (is_digest x week) r.db.digests ≡ true)
              ((==_iff user_id u).0 (ground arith))
              (subst (λ x. exists (is_digest user_id x) r.db.digests ≡ true)
                ((==_iff start week).0 (ground arith)) t) in
          ground (arith, told-append, once, same)
      | inr e ↦ ground (arith, told-append, h.marked, e)
    ]

    newly_marked :
        (row : WeeklyDigest)
        → row.user_id ≡ user_id
        → row.week_start ≡ start
        → row.channel ≡ email
        → weekly_told u week (r.digest_mails ++ (mail ∷ []))
          ≤ flag (exists (is_digest u week) (r.db.digests ++ (row ∷ [])))
    unfolding exists
    newly_marked row a b c = ground (
      arith,
      told-append,
      once,
      h.marked,
      exists-append (is_digest u week) r.db.digests (row ∷ []),
    )

    -- A digest that left, whatever its mark returns.
    record_digest-Weekly :
        Digests
          (flag (user_id == u && start == week))
          r
          (record_digest w user_id start at
            (record r { digest_mails = r.digest_mails ++ (mail ∷ []) })).1
    unfolding record_digest mark_sent after_mark
    record_digest-Weekly = elim (Bool-cases (exists (is_digest user_id start) r.db.digests)) [
      | inl t ↦
          rw
            (
              saved (record r { digest_mails = r.digest_mails ++ (mail ∷ []) }),
              t,
              record_digest,
              mark_sent,
            )
            (record {
              weekly_s = record {
                marked = already_marked t;
                journal = h.journal;
                mails = h.mails;
                reminders = h.reminders;
                occurrences = h.occurrences;
                committed_reminders = h.committed_reminders;
                committed_occurrences = h.committed_occurrences;
                low = h.low;
                low_committed = h.low_committed;
              };
              told_le = omega (arith, told-append);
            })
      | inr f ↦
          rw
            (
              saved (record r { digest_mails = r.digest_mails ++ (mail ∷ []) }),
              f,
              record_digest,
              mark_sent,
            )
            (record {
              weekly_s = record {
                marked = newly_marked _ refl refl refl;
                journal = refl;
                mails = h.mails;
                reminders = h.reminders;
                occurrences = h.occurrences;
                committed_reminders = refl;
                committed_occurrences = refl;
                low = omega (arith, h.low);
                low_committed = omega (arith, h.low);
              };
              told_le = omega (arith, told-append);
            })
    ]

  untold : (n : ℕ) (r : Run) → Weekly r → Digests n r r
  untold n r h = record { weekly_s = h; told_le = omega arith }

  widen : (n m : ℕ) (r s : Run) → n ≤ m → Digests n r s → Digests m r s
  widen n m r s h a = record { weekly_s = a.weekly_s; told_le = omega (arith, a.told_le) }

  Digests-trans : (n m : ℕ) (r s t : Run) → Digests n r s → Digests m s t → Digests (n + m) r t
  Digests-trans n m r s t a b = record {
    weekly_s = b.weekly_s;
    told_le = omega (arith, a.told_le, b.told_le);
  }

  and_then-Digests :
      (n m : ℕ) (r : Run) (p : Result (Unit {0}) × Run) (next : Job)
      → Digests n r p.1
      → Digests m p.1 (next p.1).1
      → Digests (n + m) r (and_then p next).1
  unfolding and_then
  and_then-Digests n m r (ok _, s) next a b = Digests-trans n m r s _ a b
  and_then-Digests n m r (err e, s) next a b = widen n (n + m) r s (omega arith) a

  send_digest-Digests :
      (w : World) (saved : (x : Run) → w.saves x ≡ true) (start : Date) (at user_id : ℕ)
      (rows : List Entry) (v : User) (r : Run)
      → Weekly r
      → weekly_told u week r.digest_mails + flag (user_id == u && start == week) ≤ 1
      → Digests (flag (user_id == u && start == week)) r (send_digest w start at user_id rows v r).1
  unfolding send_digest digest_mail
  send_digest-Digests w saved start at user_id rows v r h once =
      elim (Bool-cases (accepts_digest v)) [
        | inr f ↦ rw (f, send_digest) (counted _ weekly_skip r h)
        | inl t ↦
            elim (Bool-cases (w.takes_digest r.digest_mails (digest_mail user_id v start rows))) [
              | inr f ↦ rw (t, f, send_digest) (counted _ weekly_fail r h)
              | inl e ↦
                  rw (t, e, send_digest)
                    (record_digest-Weekly w saved user_id start at
                      (digest_mail user_id v start rows) r refl refl h once)
            ]
      ]

  module _ (w : World) (saved : (x : Run) → w.saves x ≡ true) (start : Date) (at : ℕ)
      (already : List ℕ) where
    digest_account-Digests :
        (user_id : ℕ) (rows : List Entry) (r : Run)
        → Weekly r
        → weekly_told u week r.digest_mails + weekly_load week start u already (flag (user_id == u))
          ≤ 1
        → Digests
            (weekly_load week start u already (flag (user_id == u)))
            r
            (digest_account w start at already user_id rows r).1
    unfolding digest_account
    digest_account-Digests user_id rows r h once = elim (Bool-cases (is_in user_id already)) [
      | inl t ↦ rw (t, digest_account) (untold _ r h)
      | inr f ↦ elim (Option-cases (get_user_by_id user_id r.db)) [
        | inl e ↦ rw (f, e, digest_account) (counted _ weekly_skip r h)
        | inr (v, e) ↦
            let same : weekly_load week start u already (flag (user_id == u))
                ≡ flag (user_id == u && start == week) =
              unlisted f (Bool-cases (user_id == u)) in
            rw (f, e, digest_account)
              (widen _ _ r _ (omega (arith, same)) (
                send_digest-Digests w saved start at user_id rows v r h
                  (omega (arith, same, once))))
      ]
    ]
      where
        unlisted :
            is_in user_id already ≡ false
            → ((user_id == u) ≡ true) ⊎ ((user_id == u) ≡ false)
            → weekly_load week start u already (flag (user_id == u))
              ≡ flag (user_id == u && start == week)
        unlisted f (inl t) =
            let absent : is_in u already ≡ false =
              subst (λ x. is_in x already ≡ false) ((==_iff user_id u).0 t) f in
            ground (arith, absent, t)
        unlisted f (inr e) = ground (arith, e)

    pub digest_groups-Digests :
        (groups : List (ℕ × List Entry)) (r : Run)
        → Weekly r
        → weekly_told u week r.digest_mails
            + weekly_load week start u already (count (is_batch u) groups)
          ≤ 1
        → Digests
            (weekly_load week start u already (count (is_batch u) groups))
            r
            (digest_groups w start at already groups r).1
    unfolding digest_groups count
    digest_groups-Digests [] r h once = untold _ r h
    digest_groups-Digests ((user_id, rows) ∷ groups) r h once =
        let split : weekly_load week start u already (count (is_batch u) ((user_id, rows) ∷ groups))
            ≡ weekly_load week start u already (flag (user_id == u))
              + weekly_load week start u already (count (is_batch u) groups) =
          ground arith in
        let first = digest_account-Digests user_id rows r h (omega (arith, split, once)) in
        widen _ _ r _ (omega (arith, split)) (
          and_then-Digests _ _ r (digest_account w start at already user_id rows r)
            (digest_groups w start at already groups) first
            (digest_groups-Digests groups _ first.weekly_s
              (omega (arith, split, once, first.told_le))))

-- The digests that a pass may send of a week, where the journal has what earlier ones told.
pub weekly_budget :
    (u : ℕ) (week start : Date) (db : Db) (mails : List DigestMail) (es : List Entry)
    → weekly_told u week mails ≤ flag (exists (is_digest u week) db.digests)
    → weekly_told u week mails
        + weekly_load week start u
            (sent_for_week start db)
            (count (is_batch u) (group_by_user es []))
      ≤ 1
unfolding count
weekly_budget u week start db mails es h = elim (Bool-cases (start == week)) [
  | inl t ↦
      let same : exists (is_digest u start) db.digests ≡ exists (is_digest u week) db.digests =
        ap (λ x. exists (is_digest u x) db.digests) ((==_iff start week).0 t) in
      ground
        (arith, t, same, sent_for_week-is_in u start db, group_by_user-count u es [] (omega arith))
  | inr f ↦ ground (arith, f)
]
