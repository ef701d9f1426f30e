-- ===== src/Notifications/Dispatch/Keeps.antt =====
-- A property of a run that every write of a pass keeps holds after the pass.
use oublie_pas_backend.Base.{
  ℕ, List, ◌∷◌, Option-cases, [], ◌≡◌, inl, some, length, inr, true, Bool-cases, ◌++◌, refl,
  if-either, false,
}
use oublie_pas_backend.Models.Columns.{email, push, ReminderKind, Channel}
use oublie_pas_backend.Errors.{Result, ok, err, operational_error}
use oublie_pas_backend.Notifications.Run.{
  Run, with_report, World, and_then, Counter, Job, add_failed, Entry,
}
use oublie_pas_backend.Notifications.Dispatch.{
  skip, dispatch_groups, dispatch, send_kinds, send_kind, send_rows, dispatch_rows,
  dispatch_account, deliver, group_by_user, counter_of, entries_of, accepts, due_today, saved_sent,
  mail_of, deliver_push, record_sent,
}
use oublie_pas_backend.Notifications.Dispatch.Once.{Posts, deliver_push-Posts}
use oublie_pas_backend.Models.Users.{User}
use oublie_pas_backend.Calendar.{Date, date_of}
use oublie_pas_backend.Repositories.Attempts.{get_user_by_id}

-- The writes of a pass.
pub record Keeps (w : World) (P : Run → Type 0) : Type 0 where
  pub skips : (n : ℕ) (r : Run) → P r → P (with_report (skip n) r)
  pub fails : (channel : Channel) (n : ℕ) (r : Run) → P r → P (with_report (add_failed channel n) r)
  pub posts_kept : (r s : Run) → Posts r s → P r → P s
  pub mails_kept :
      (kind : ReminderKind) (counter : Counter) (at user_id : ℕ) (u : User) (today : Date)
      (rows : List Entry) (r : Run)
      → get_user_by_id user_id r.db ≡ some u
      → accepts email kind u ≡ true
      → P r
      → P (
          saved_sent kind email counter at user_id rows
            (record r { mails = r.mails ++ (mail_of kind u rows today ∷ []) }))
  pub mails_unsaved :
      (kind : ReminderKind) (user_id : ℕ) (u : User) (today : Date) (rows : List Entry) (r : Run)
      → get_user_by_id user_id r.db ≡ some u
      → accepts email kind u ≡ true
      → w.saves (record r { mails = r.mails ++ (mail_of kind u rows today ∷ []) }) ≡ false
      → P r
      → P (record r { mails = r.mails ++ (mail_of kind u rows today ∷ []) })
  pub pushes_kept :
      (kind : ReminderKind) (counter : Counter) (at user_id : ℕ) (rows : List Entry) (r : Run)
      → P r
      → P (saved_sent kind push counter at user_id rows r)

-- A mail that left.
abbrev mailed : ReminderKind → User → List Entry → Date → Run → Run
mailed kind u rows today r = record r { mails = r.mails ++ (mail_of kind u rows today ∷ []) }

module _ (P : Run → Type 0) (w : World) (keep : Keeps w P) where
  module _ (kind : ReminderKind) (counter : Counter) (at : ℕ) where
    send_rows-Keeps :
        (channel : Channel) (u : User) (user_id : ℕ) (today : Date) (rows : List Entry) (r : Run)
        → get_user_by_id user_id r.db ≡ some u
        → accepts channel kind u ≡ true
        → P r
        → P (send_rows w kind channel counter at u user_id today rows r).1
    unfolding send_rows deliver record_sent
    send_rows-Keeps channel u user_id today [] r found t p = p
    send_rows-Keeps email u user_id today (e ∷ es) r found t p =
        elim (Bool-cases (w.takes_mail r.mails (mail_of kind u (e ∷ es) today))) [
          | inl y ↦ elim (Bool-cases (w.saves (mailed kind u (e ∷ es) today r))) [
            | inl z ↦
                rw (y, z) (keep.mails_kept kind counter at user_id u today (e ∷ es) r found t p)
            | inr z ↦ rw (y, z) (keep.mails_unsaved kind user_id u today (e ∷ es) r found t z p)
          ]
          | inr n ↦ rw n (keep.fails email (length (e ∷ es)) r p)
        ]
    send_rows-Keeps push u user_id today (e ∷ es) r found t p =
        let after = deliver_push w kind u (e ∷ es) today r in
        let q = keep.posts_kept r after.1 (deliver_push-Posts w kind u (e ∷ es) today r) p in
        if-either (λ (s : Result (Unit {0}) × Run). P s.1) after.0
          (record_sent w kind push counter at user_id (e ∷ es) after.1)
          (ok tt, with_report (add_failed push (length (e ∷ es))) after.1)
          (if-either (λ (s : Result (Unit {0}) × Run). P s.1) (w.saves after.1)
            (ok tt, saved_sent kind push counter at user_id (e ∷ es) after.1)
            (err operational_error, after.1)
            (keep.pushes_kept kind counter at user_id (e ∷ es) after.1 q) q)
          (keep.fails push (length (e ∷ es)) after.1 q)

    dispatch_rows-Keeps :
        (channel : Channel) (user_id : ℕ) (rows : List Entry) (u : User) (r : Run)
        → get_user_by_id user_id r.db ≡ some u
        → P r
        → P (dispatch_rows w kind channel counter at user_id rows u r).1
    unfolding dispatch_rows
    dispatch_rows-Keeps channel user_id rows u r found p =
        elim (Bool-cases (accepts channel kind u)) [
          | inl t ↦ due (due_today kind rows (w.date_at at u.timezone)) refl t
          | inr f ↦ rw (f, dispatch_rows) (keep.skips (length rows) r p)
        ]
      where
        due :
            (d : Result (List Entry))
            → due_today kind rows (w.date_at at u.timezone) ≡ d
            → accepts channel kind u ≡ true
            → P (dispatch_rows w kind channel counter at user_id rows u r).1
        due (ok kept) e t =
            rw (t, e, dispatch_rows) (send_rows-Keeps channel u user_id _ kept r found t p)
        due (err x) e t = rw (t, e, dispatch_rows) p

    pub dispatch_account-Keeps :
        (channel : Channel) (user_id : ℕ) (rows : List Entry) (r : Run)
        → P r
        → P (dispatch_account w kind channel counter at user_id rows r).1
    unfolding dispatch_account
    dispatch_account-Keeps channel user_id rows r p =
        elim (Option-cases (get_user_by_id user_id r.db)) [
          | inl e ↦ rw (e, dispatch_account) (keep.skips (length rows) r p)
          | inr (u, e) ↦ rw (e, dispatch_account) (dispatch_rows-Keeps channel user_id rows u r e p)
        ]

  pub and_then-Keeps :
      (p : Result (Unit {0}) × Run) (next : Job)
      → P p.1
      → ((r : Run) → P r → P (next r).1)
      → P (and_then p next).1
  unfolding and_then
  and_then-Keeps (ok _, r) next p h = h r p
  and_then-Keeps (err e, r) next p h = p

  pub dispatch_groups-Keeps :
      (kind : ReminderKind) (channel : Channel) (counter : Counter) (at : ℕ)
      (groups : List (ℕ × List Entry)) (r : Run)
      → P r
      → P (dispatch_groups w kind channel counter at groups r).1
  unfolding dispatch_groups
  dispatch_groups-Keeps kind channel counter at [] r p = p
  dispatch_groups-Keeps kind channel counter at ((user_id, rows) ∷ groups) r p =
      and_then-Keeps (dispatch_account w kind channel counter at user_id rows r)
        (dispatch_groups w kind channel counter at groups)
        (dispatch_account-Keeps kind counter at channel user_id rows r p)
        (dispatch_groups-Keeps kind channel counter at groups)

  dispatch-Keeps :
      (kind : ReminderKind) (channel : Channel) (counter : Counter) (at : ℕ)
      (entries : Result (List Entry)) (r : Run)
      → P r
      → P (dispatch w kind channel counter at entries r).1
  unfolding dispatch
  dispatch-Keeps kind channel counter at (err e) r p = p
  dispatch-Keeps kind channel counter at (ok es) r p =
      dispatch_groups-Keeps kind channel counter at (group_by_user es []) r p

  pub send_kinds-Keeps :
      (at : ℕ) (calls : List (Channel × ReminderKind)) (r : Run)
      → P r
      → P (send_kinds w at calls r).1
  unfolding send_kinds send_kind
  send_kinds-Keeps at [] r p = p
  send_kinds-Keeps at ((channel, kind) ∷ calls) r p =
      and_then-Keeps (send_kind w at channel kind r) (send_kinds w at calls)
        (dispatch-Keeps kind channel (counter_of kind) at
          (entries_of kind (date_of at) channel r.db) r p)
        (send_kinds-Keeps at calls)
