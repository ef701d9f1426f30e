-- ===== src/Notifications/Dispatch/Once.antt =====
-- A mail about an occurrence leaves once: what a pass sends, and what it marks.
use oublie_pas_backend.Base.{
  ℕ, Bool, List, ◌≡◌, ◌≤◌, ◌+◌, false, ◌∷◌, [], ◌++◌, Bool-cases, inl, inr, refl, arith,
  if◌then◌else◌, ◌≟◌, ◌&&◌, ap, sym, ◌∙◌,
}
use oublie_pas_backend.Notifications.Run.{
  Run, World, Entry, Message, Outcome, delivered, gone, raised, Counter,
}
use oublie_pas_backend.Session.{Db}
use oublie_pas_backend.Models.Columns.{email}
use oublie_pas_backend.Notifications.Dispatch.Marks.{
  SameRows, is_about, mark-SameRows, mark-was_sent, mark-count,
}
use oublie_pas_backend.Notifications.Dispatch.{
  post_each, deliver_push, saved_sent, is_email, message_of, mark,
}
use oublie_pas_backend.Repositories.Reminders.{was_sent, is_reminder}
use oublie_pas_backend.Models.Columns.{ReminderKind, Channel, kind_eq, kind_beq_iff, push}
use oublie_pas_backend.Repositories.Subscriptions.{forget}
use oublie_pas_backend.Models.Users.{User, PushSubscription}
use oublie_pas_backend.Notifications.Dispatch.Batches.{told}
use oublie_pas_backend.Calendar.{Date}
use oublie_pas_backend.Base.Sql.{exists, count}
use oublie_pas_backend.Repositories.Subscriptions.{list_for_user}
use mathlib.Core.Path.{subst}

-- What a delivery by push leaves as it is.
pub record Posts (r s : Run) : Type 0 where
  pub mails : s.mails ≡ r.mails
  pub committed : s.committed ≡ r.committed
  pub report : s.report ≡ r.report
  pub emailed : s.emailed ≡ r.emailed
  pub digest_mails : s.digest_mails ≡ r.digest_mails
  pub reminders : s.db.reminders ≡ r.db.reminders
  pub same_rows : SameRows r.db s.db

post-Posts :
    (w : World) (message : PushSubscription → Message) (s : PushSubscription)
    (ss : List PushSubscription) (r : Run) (o : Outcome)
    → w.posts r.messages s (message s) ≡ o
    → ((r' : Run) → Posts r' (post_each w message ss r').1)
    → Posts r (post_each w message (s ∷ ss) r).1
unfolding post_each forget
post-Posts w message s ss r delivered e ih =
    rw (e, post_each) (ground (arith, ih (record r { messages = r.messages ++ (message s ∷ []) })))
post-Posts w message s ss r gone e ih =
    rw (e, post_each) (ground (arith, ih (record r { db = (forget s.endpoint r.db).1 })))
post-Posts w message s ss r raised e ih = rw (e, post_each) (ground arith)

post_each-Posts :
    (w : World) (message : PushSubscription → Message) (ss : List PushSubscription) (r : Run)
    → Posts r (post_each w message ss r).1
unfolding post_each
post_each-Posts w message [] r = ground arith
post_each-Posts w message (s ∷ ss) r =
    post-Posts w message s ss r (w.posts r.messages s (message s)) refl
      (post_each-Posts w message ss)

pub deliver_push-Posts :
    (w : World) (kind : ReminderKind) (u : User) (rows : List Entry) (today : Date) (r : Run)
    → Posts r (deliver_push w kind u rows today r).1
unfolding deliver_push message_of
deliver_push-Posts w kind u rows today r =
    post_each-Posts w (message_of kind u rows today) (list_for_user u.id r.db) r

pub was_sent-reminders :
    (k : ReminderKind) (c : Channel) (a b : Db) (id : ℕ)
    → a.reminders ≡ b.reminders
    → was_sent k c a id ≡ was_sent k c b id
unfolding was_sent
was_sent-reminders k c a b id e = ap (exists (is_reminder id k c)) e

abbrev pub flag : Bool → ℕ
flag b = if b then 1 else 0

-- The number that a batch of `n` adds to the mails of kind `k`.
abbrev pub load : ReminderKind → Channel → ReminderKind → ℕ → ℕ
load kind channel k n = if kind ≟ k && is_email channel then n else 0

module _ (k : ReminderKind) (id slack : ℕ) (start : Run) where
  -- The journal, as it would stay if the session closed now, has what the mails told.
  pub record Told (r : Run) : Type 0 where
    pub marked : told k id r.mails ≤ flag (was_sent k email r.db id) + slack
    pub journal : r.committed.reminders ≡ r.db.reminders
    pub rows : r.committed.occurrences ≡ r.db.occurrences
    pub low : start.db.next_id ≤ r.db.next_id
    pub low_committed : start.db.next_id ≤ r.committed.next_id
    pub digests : r.db.digests ≡ start.db.digests
    pub committed_digests : r.committed.digests ≡ start.db.digests
    pub digest_mails : r.digest_mails ≡ start.digest_mails

  -- From `r` to `s`, with at most `n` more mails about the occurrence.
  pub record Advances (n : ℕ) (r s : Run) : Type 0 where
    pub told_s : Told s
    pub told_le : told k id s.mails ≤ told k id r.mails + n
    pub occurrences : s.db.occurrences ≡ r.db.occurrences
    pub users : s.db.users ≡ r.db.users

  load-mark :
      (kind : ReminderKind) (channel : Channel) (rows : List Entry) (at : ℕ) (db : Db)
      → was_sent k email (mark kind channel rows at db) id ≡ false
      → load kind channel k (count (is_about id) rows) ≡ 0
  load-mark kind push rows at db h = ground arith
  load-mark kind email rows at db h = elim (Bool-cases (kind ≟ k)) [
    | inl t ↦ rw t (
        let same : kind ≡ k = (kind_beq_iff kind k).0 t in
        mark-count kind email rows at id db
          (subst (λ x. was_sent x email (mark kind email rows at db) id ≡ false) (sym same) h))
    | inr f ↦ rw f refl
  ]

  saved_sent-marked :
      (kind : ReminderKind) (channel : Channel) (rows : List Entry) (at : ℕ) (r s : Run)
      → Told r
      → told k id s.mails ≡ told k id r.mails + load kind channel k (count (is_about id) rows)
      → told k id s.mails ≤ 1
      → s.db.reminders ≡ r.db.reminders
      → told k id s.mails ≤ flag (was_sent k email (mark kind channel rows at s.db) id) + slack
  saved_sent-marked kind channel rows at r s h e once same =
      elim (Bool-cases (was_sent k email (mark kind channel rows at s.db) id)) [
        | inl t ↦ rw t (omega (arith, once))
        | inr f ↦ rw f (
            ground (
              arith,
              e,
              load-mark kind channel rows at s.db f,
              was_sent-reminders k email s.db r.db id same,
              mark-was_sent k email at id kind channel rows s.db,
              f,
              h,
            ))
      ]

  pub saved_sent-Told :
      (kind : ReminderKind) (channel : Channel) (counter : Counter) (at user_id : ℕ)
      (rows : List Entry) (r s : Run)
      → Told r
      → told k id s.mails ≡ told k id r.mails + load kind channel k (count (is_about id) rows)
      → told k id s.mails ≤ 1
      → s.db.reminders ≡ r.db.reminders
      → SameRows r.db s.db
      → s.digest_mails ≡ r.digest_mails
      → Advances
          (load kind channel k (count (is_about id) rows))
          r
          (saved_sent kind channel counter at user_id rows s)
  unfolding saved_sent
  saved_sent-Told kind channel counter at user_id rows r s h e once same frame weekly_mails =
      record {
        told_s = record {
          marked = saved_sent-marked kind channel rows at r s h e once same;
          journal = refl;
          rows = refl;
          low = ground (arith, h.low, frame, mark-SameRows kind channel rows at s.db);
          low_committed = ground (arith, h.low, frame, mark-SameRows kind channel rows at s.db);
          digests = ground (arith, h.digests, frame, mark-SameRows kind channel rows at s.db);
          committed_digests =
              ground (arith, h.digests, frame, mark-SameRows kind channel rows at s.db);
          digest_mails = weekly_mails ∙ h.digest_mails;
        };
        told_le = ground (arith, e);
        occurrences = ground (arith, frame, mark-SameRows kind channel rows at s.db);
        users = ground (arith, frame, mark-SameRows kind channel rows at s.db);
      }
