-- ===== src/Notifications/Dispatch/Steps.antt =====
-- What each call of a pass tells, from the batch of an account up to a call of `_dispatch`.
use oublie_pas_backend.Base.{
  ℕ, List, ◌≡◌, ◌≤◌, ◌+◌, true, ◌∷◌, [], ◌++◌, Bool-cases, inl, inr, refl, arith, ◌==◌,
  if◌then◌else◌, ◌≟◌, Option-cases, ◌∙◌, length,
}
use oublie_pas_backend.Models.Columns.{email, push, ReminderKind, kind_eq, Channel}
use oublie_pas_backend.Errors.{Result, ok, err}
use oublie_pas_backend.Notifications.Run.{
  Run, World, Entry, Counter, Report, Mail, with_report, add_failed, and_then, Job,
}
use oublie_pas_backend.Notifications.Dispatch.Batches.{
  told, sum_by-append, count-ids_of, mentions, due_today-count,
}
use oublie_pas_backend.Notifications.Dispatch.{
  mail_of, send_rows, deliver, deliver_push, dispatch_rows, dispatch_account, dispatch_groups,
  due_today, accepts, skip, record_sent,
}
use oublie_pas_backend.Base.Sql.{sum_by, count}
use oublie_pas_backend.Models.Users.{User}
use oublie_pas_backend.Calendar.{Date}
use oublie_pas_backend.Notifications.Dispatch.Once.{
  load, Told, Advances, Posts, was_sent-reminders, deliver_push-Posts, saved_sent-Told,
}
use oublie_pas_backend.Notifications.Dispatch.Marks.{is_about}
use oublie_pas_backend.Repositories.Attempts.{get_user_by_id}

told-append :
    (k kind : ReminderKind) (id : ℕ) (u : User) (rows : List Entry) (today : Date)
    (mails : List Mail)
    → told k id (mails ++ (mail_of kind u rows today ∷ []))
      ≡ told k id mails + load kind email k (count (is_about id) rows)
unfolding told mail_of sum_by
told-append k kind id u rows today mails = ground (
  arith,
  sum_by-append (λ m. if m.kind ≟ k then count (λ i. i == id) m.occurrence_ids else 0) mails
      (mail_of kind u rows today ∷ []),
  count-ids_of id rows,
)

module _ (k : ReminderKind) (id slack : ℕ) (start : Run) where
  stay : (n : ℕ) (r : Run) → Told k id slack start r → Advances k id slack start n r r
  stay n r h = record { told_s = h; told_le = omega arith; occurrences = refl; users = refl }

  pub Advances-trans :
      (n m : ℕ) (r s t : Run)
      → Advances k id slack start n r s
      → Advances k id slack start m s t
      → Advances k id slack start (n + m) r t
  Advances-trans n m r s t a b = record {
    told_s = b.told_s;
    told_le = omega (arith, a.told_le, b.told_le);
    occurrences = b.occurrences ∙ a.occurrences;
    users = b.users ∙ a.users;
  }

  -- The report alone changes.
  reported :
      (n : ℕ) (f : Report → Report) (r s : Run)
      → Advances k id slack start n r s
      → Advances k id slack start n r (with_report f s)
  reported n f r s a = record {
    told_s = record {
      marked = a.told_s.marked;
      journal = a.told_s.journal;
      rows = a.told_s.rows;
      low = a.told_s.low;
      low_committed = a.told_s.low_committed;
      digests = a.told_s.digests;
      committed_digests = a.told_s.committed_digests;
      digest_mails = a.told_s.digest_mails;
    };
    told_le = a.told_le;
    occurrences = a.occurrences;
    users = a.users;
  }

  posted :
      (n : ℕ) (r s : Run) → Told k id slack start r → Posts r s → Advances k id slack start n r s
  posted n r s h p = record {
    told_s = record {
      marked = ground (arith, h, p, was_sent-reminders k email s.db r.db id p.reminders);
      journal = ground (arith, h, p);
      rows = ground (arith, h, p);
      low = ground (arith, h, p);
      low_committed = ground (arith, h, p);
      digests = ground (arith, h, p);
      committed_digests = ground (arith, h, p);
      digest_mails = ground (arith, h, p);
    };
    told_le = ground (arith, p);
    occurrences = p.same_rows.occurrences;
    users = p.same_rows.users;
  }

  widen :
      (n m : ℕ) (r s : Run)
      → n ≤ m
      → Advances k id slack start n r s
      → Advances k id slack start m r s
  widen n m r s h a = record {
    told_s = a.told_s;
    told_le = omega (arith, a.told_le);
    occurrences = a.occurrences;
    users = a.users;
  }

  pub and_then-Advances :
      (n m : ℕ) (r : Run) (p : Result (Unit {0}) × Run) (next : Job)
      → Advances k id slack start n r p.1
      → Advances k id slack start m p.1 (next p.1).1
      → Advances k id slack start (n + m) r (and_then p next).1
  unfolding and_then
  and_then-Advances n m r (ok _, s) next a b = Advances-trans n m r s _ a b
  and_then-Advances n m r (err e, s) next a b = widen n (n + m) r s (omega arith) a

  module _ (w : World) (saved : (x : Run) → w.saves x ≡ true) (kind : ReminderKind)
      (counter : Counter) (at : ℕ) where
    sent_by_push :
        (u : User) (user_id : ℕ) (today : Date) (e : Entry) (es : List Entry) (r : Run)
        → Told k id slack start r
        → told k id r.mails ≤ 1
        → Advances k id slack start
            (load kind push k (count (is_about id) (e ∷ es)))
            r
            (send_rows w kind push counter at u user_id today (e ∷ es) r).1
    unfolding send_rows record_sent
    sent_by_push u user_id today e es r h once =
        let after = deliver_push w kind u (e ∷ es) today r in
        let p = deliver_push-Posts w kind u (e ∷ es) today r in
        elim (Bool-cases after.0) [
          | inl t ↦
              rw (t, saved after.1)
                (saved_sent-Told k id slack start kind push counter at user_id (e ∷ es) r after.1 h
                  (ground (arith, p)) (ground (arith, p)) p.reminders p.same_rows p.digest_mails)
          | inr f ↦
              rw f
                (reported _ (add_failed push (length (e ∷ es))) r after.1 (posted _ r after.1 h p))
        ]

    sent_by_email :
        (u : User) (user_id : ℕ) (today : Date) (e : Entry) (es : List Entry) (r : Run)
        → Told k id slack start r
        → told k id r.mails + load kind email k (count (is_about id) (e ∷ es)) ≤ 1
        → Advances k id slack start
            (load kind email k (count (is_about id) (e ∷ es)))
            r
            (send_rows w kind email counter at u user_id today (e ∷ es) r).1
    unfolding send_rows deliver record_sent
    sent_by_email u user_id today e es r h once =
        let mail = mail_of kind u (e ∷ es) today in
        let more = told-append k kind id u (e ∷ es) today r.mails in
        elim (Bool-cases (w.takes_mail r.mails mail)) [
          | inl t ↦
              rw (t, saved (record r { mails = r.mails ++ (mail ∷ []) }))
                (saved_sent-Told k id slack start kind email counter at user_id (e ∷ es) r
                  (record r { mails = r.mails ++ (mail ∷ []) }) h more (omega (arith, more, once))
                  refl (ground arith) refl)
          | inr f ↦ rw f (reported _ (add_failed email (length (e ∷ es))) r r (stay _ r h))
        ]

    send_rows-Advances :
        (channel : Channel) (u : User) (user_id : ℕ) (today : Date) (rows : List Entry) (r : Run)
        → Told k id slack start r
        → told k id r.mails + load kind channel k (count (is_about id) rows) ≤ 1
        → Advances k id slack start
            (load kind channel k (count (is_about id) rows))
            r
            (send_rows w kind channel counter at u user_id today rows r).1
    unfolding send_rows
    send_rows-Advances channel u user_id today [] r h once = stay _ r h
    send_rows-Advances push u user_id today (e ∷ es) r h once =
        sent_by_push u user_id today e es r h (omega (arith, once))
    send_rows-Advances email u user_id today (e ∷ es) r h once =
        sent_by_email u user_id today e es r h once

    load_mono :
        (channel : Channel) (n m : ℕ) → n ≤ m → load kind channel k n ≤ load kind channel k m
    load_mono channel n m h = ground arith

    load_sum :
        (channel : Channel) (n m : ℕ)
        → load kind channel k (n + m) ≡ load kind channel k n + load kind channel k m
    load_sum channel n m = ground arith

    dispatch_rows-Advances :
        (channel : Channel) (user_id : ℕ) (rows : List Entry) (u : User) (r : Run)
        → Told k id slack start r
        → told k id r.mails + load kind channel k (count (is_about id) rows) ≤ 1
        → Advances k id slack start
            (load kind channel k (count (is_about id) rows))
            r
            (dispatch_rows w kind channel counter at user_id rows u r).1
    unfolding dispatch_rows
    dispatch_rows-Advances channel user_id rows u r h once =
        elim (Bool-cases (accepts channel kind u)) [
          | inl t ↦ due (due_today kind rows (w.date_at at u.timezone)) refl t
          | inr f ↦ rw (f, dispatch_rows) (reported _ (skip (length rows)) r r (stay _ r h))
        ]
      where
        due :
            (d : Result (List Entry))
            → due_today kind rows (w.date_at at u.timezone) ≡ d
            → accepts channel kind u ≡ true
            → Advances k id slack start
                (load kind channel k (count (is_about id) rows))
                r
                (dispatch_rows w kind channel counter at user_id rows u r).1
        due (ok kept) e t =
            let fits = load_mono channel _ _ (due_today-count (is_about id) kind rows _ kept e) in
            rw (t, e, dispatch_rows)
              (widen _ _ r _ fits
                (send_rows-Advances channel u user_id _ kept r h (omega (arith, fits, once))))
        due (err x) e t = rw (t, e, dispatch_rows) (stay _ r h)

    dispatch_account-Advances :
        (channel : Channel) (user_id : ℕ) (rows : List Entry) (r : Run)
        → Told k id slack start r
        → told k id r.mails + load kind channel k (count (is_about id) rows) ≤ 1
        → Advances k id slack start
            (load kind channel k (count (is_about id) rows))
            r
            (dispatch_account w kind channel counter at user_id rows r).1
    unfolding dispatch_account
    dispatch_account-Advances channel user_id rows r h once =
        elim (Option-cases (get_user_by_id user_id r.db)) [
          | inl e ↦ rw (e, dispatch_account) (reported _ (skip (length rows)) r r (stay _ r h))
          | inr (u, e) ↦
              rw (e, dispatch_account) (dispatch_rows-Advances channel user_id rows u r h once)
        ]

    pub dispatch_groups-Advances :
        (channel : Channel) (groups : List (ℕ × List Entry)) (r : Run)
        → Told k id slack start r
        → told k id r.mails + load kind channel k (mentions id groups) ≤ 1
        → Advances k id slack start
            (load kind channel k (mentions id groups))
            r
            (dispatch_groups w kind channel counter at groups r).1
    unfolding dispatch_groups mentions sum_by
    dispatch_groups-Advances channel [] r h once = stay _ r h
    dispatch_groups-Advances channel ((user_id, rows) ∷ groups) r h once =
        let split = load_sum channel (count (is_about id) rows) (mentions id groups) in
        let first =
          dispatch_account-Advances channel user_id rows r h (omega (arith, split, once)) in
        rw split (
          and_then-Advances _ _ r (dispatch_account w kind channel counter at user_id rows r)
            (dispatch_groups w kind channel counter at groups) first
            (dispatch_groups-Advances channel groups _ first.told_s
              (omega (arith, split, once, first.told_le))))
