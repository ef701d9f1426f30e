-- ===== src/Notifications/Dispatch/Completeness.antt =====
-- A pass whose mails all leave tells of everything that is due.
use oublie_pas_backend.Base.{
  ℕ, List, ◌∷◌, All, ◌≡◌, Bool-cases, ◌==◌, inl, All-split, ==_iff, inr, Bool, true, sym, ◌∙◌,
  if◌then◌else◌, refl, some, ap, All-map, Option, All-member, ◌++◌,
}
use oublie_pas_backend.Models.Columns.{email, push, ReminderKind}
use oublie_pas_backend.Errors.{Result, ok, err, >>=-returned}
use oublie_pas_backend.Notifications.Run.{Entry, World, Mail, Counter, Run, and_then, Job}
use oublie_pas_backend.Notifications.Dispatch.{
  due_today, add_entry, group_by_user, ids_of, is_open_today, saved_sent, send_rows,
  dispatch_groups, deliver, dispatch_account, mail_of, accepts, mark, dispatch_rows, dispatch,
  record_sent,
}
use oublie_pas_backend.Calendar.{Date}
use mathlib.Core.List.{[], Memᴰ}
use oublie_pas_backend.Notifications.ReminderWindow.{is_due}
use mathlib.Core.Path.{subst}
use oublie_pas_backend.Notifications.Dispatch.Keeps.{
  Keeps, dispatch_account-Keeps, dispatch_groups-Keeps,
}
use oublie_pas_backend.Models.Users.{User}
use oublie_pas_backend.Repositories.Reminders.{was_sent}
use oublie_pas_backend.Notifications.Dispatch.Once.{was_sent-reminders}
use oublie_pas_backend.Notifications.Dispatch.Marks.{mark-SameRows, mark-was_sent, mark-All}
use mathlib.Core.Bool.{false}
use oublie_pas_backend.Repositories.Attempts.{get_user_by_id}
use oublie_pas_backend.Base.Sql.Laws.{All-of}
use oublie_pas_backend.Base.Sql.{find}
use mathlib.Core.Option.{none}

-- An entry that is due on the day of its account.
abbrev pub IsDueToday : ReminderKind → Date → Entry → Type 0
IsDueToday kind today e = due_today kind (e ∷ []) today ≡ ok (e ∷ [])

module _ (R : ℕ → Entry → Type 0) where
  ungroup_one :
      (e : Entry) (groups : List (ℕ × List Entry))
      → All (λ g. All (R g.0) g.1) (add_entry e groups)
      → R e.occurrence.user_id e × All (λ g. All (R g.0) g.1) groups
  unfolding add_entry
  ungroup_one e [] h = (h.0.0, tt)
  ungroup_one e ((v, rows) ∷ groups) h = elim (Bool-cases (v == e.occurrence.user_id)) [
    | inl t ↦
        let split = All-split (R v) rows (e ∷ []) (rw t at h).0 in
        (
          subst (λ x. R x e) ((==_iff v e.occurrence.user_id).0 t) split.1.0,
          (split.0, (rw t at h).1),
        )
    | inr f ↦ let rest = ungroup_one e groups (rw f at h).1 in (rest.0, ((rw f at h).0, rest.1))
  ]

  ungroup :
      (es : List Entry) (groups : List (ℕ × List Entry))
      → All (λ g. All (R g.0) g.1) (group_by_user es groups)
      → All (λ e. R e.occurrence.user_id e) es × All (λ g. All (R g.0) g.1) groups
  unfolding group_by_user
  ungroup [] groups h = (tt, h)
  ungroup (e ∷ es) groups h =
      let rest = ungroup es (add_entry e groups) h in
      let one = ungroup_one e groups rest.1 in ((one.0, rest.0), one.1)

opened_alone :
    (kind : ReminderKind) (today : Date) (e : Entry) (due opened : Bool)
    → is_due kind e.occurrence e.commitment today ≡ ok due
    → is_open_today kind due e.window today ≡ ok opened
    → IsDueToday kind today e
    → opened ≡ true
unfolding due_today
opened_alone kind today e due true h1 h3 d = refl
opened_alone kind today e due false h1 h3 d =
    let none_kept : due_today kind (e ∷ []) today ≡ ok [] = rw (h1, h3) refl in
    absurd (let clash : ok [] ≡ ok (e ∷ []) = sym none_kept ∙ d in cc)

-- What is due alone is due among others.
due_today-All :
    (P : ℕ → Type 0) (kind : ReminderKind) (rows : List Entry) (today : Date) (kept : List Entry)
    → due_today kind rows today ≡ ok kept
    → All P (ids_of kept)
    → All (λ e. IsDueToday kind today e → P e.occurrence.id) rows
unfolding due_today
due_today-All P kind [] today kept h p = tt
due_today-All P kind (e ∷ es) today kept h p =
    let (due, h1, h2) = >>=-returned (is_due kind e.occurrence e.commitment today) _ kept h in
    let (opened, h3, h4) = >>=-returned (is_open_today kind due e.window today) _ kept h2 in
    let (rest, ih, h5) = >>=-returned (due_today kind es today) _ kept h4 in
    member opened rest (opened_alone kind today e due opened h1 h3) h5
      (due_today-All P kind es today rest ih)
  where
    member :
        (b : Bool) (rest : List Entry)
        → (IsDueToday kind today e → b ≡ true)
        → ok (if b then e ∷ rest else rest) ≡ ok kept
        → (All P (ids_of rest) → All (λ x. IsDueToday kind today x → P x.occurrence.id) es)
        → All (λ x. IsDueToday kind today x → P x.occurrence.id) (e ∷ es)
    member true rest alone q ih =
        let same : e ∷ rest ≡ kept = cc in
        let both : All P (ids_of (e ∷ rest)) = subst (λ xs. All P (ids_of xs)) (sym same) p in
        (λ _. both.0, ih both.1)
    member false rest alone q ih =
        let same : rest ≡ kept = cc in
        (λ d. absurd (let clash = alone d in cc), ih (subst (λ xs. All P (ids_of xs)) (sym same) p))

was_sent-Keeps :
    (w : World) (k : ReminderKind) (id : ℕ) → Keeps w (λ r. was_sent k email r.db id ≡ true)
unfolding saved_sent
was_sent-Keeps w k id = record {
  skips = λ n r p. p;
  fails = λ channel n r p. p;
  posts_kept = λ r s q p. was_sent-reminders k email s.db r.db id q.reminders ∙ p;
  mails_kept = λ kind counter at user_id u today rows r found t p.
      mark-was_sent k email at id kind email rows r.db p;
  mails_unsaved = λ kind user_id u today rows r found t z p. p;
  pushes_kept =
      λ kind counter at user_id rows r p. mark-was_sent k email at id kind push rows r.db p;
}

users-Keeps : (w : World) (users : List User) → Keeps w (λ r. r.db.users ≡ users)
unfolding saved_sent
users-Keeps w users = record {
  skips = λ n r p. p;
  fails = λ channel n r p. p;
  posts_kept = λ r s q p. q.same_rows.users ∙ p;
  mails_kept = λ kind counter at user_id u today rows r found t p.
      (mark-SameRows kind email rows at r.db).users ∙ p;
  mails_unsaved = λ kind user_id u today rows r found t z p. p;
  pushes_kept =
      λ kind counter at user_id rows r p. (mark-SameRows kind push rows at r.db).users ∙ p;
}

module _ (w : World) (works : (ms : List Mail) (m : Mail) → w.takes_mail ms m ≡ true)
    (kind : ReminderKind) (counter : Counter) (at : ℕ) where
  -- The account has the entry's reminder in the journal of `s`, where it is due for the users of `r`.
  abbrev Sent : Run → Run → ℕ → Entry → Type 0
  Sent r s user_id e =
      (u : User)
      → get_user_by_id user_id r.db ≡ some u
      → accepts email kind u ≡ true
      → IsDueToday kind (w.date_at at u.timezone) e
      → was_sent kind email s.db e.occurrence.id ≡ true

  send_rows-All :
      (u : User) (user_id : ℕ) (today : Date) (rows : List Entry) (r s : Run)
      → send_rows w kind email counter at u user_id today rows r ≡ (ok tt, s)
      → All (λ i. was_sent kind email s.db i ≡ true) (ids_of rows)
  unfolding send_rows deliver record_sent saved_sent
  send_rows-All u user_id today [] r s h = tt
  send_rows-All u user_id today (e ∷ es) r s h =
      let mailed = record r { mails = r.mails ++ (mail_of kind u (e ∷ es) today ∷ []) } in
      let goes = rw (works r.mails (mail_of kind u (e ∷ es) today)) at h in
      elim (Bool-cases (w.saves mailed)) [
        | inl y ↦
            let marked : mark kind email (e ∷ es) at r.db ≡ s.db =
              ap (λ p. p.1.db) (rw y at goes) in
            subst (λ db. All (λ i. was_sent kind email db i ≡ true) (ids_of (e ∷ es))) marked
              (mark-All kind email (e ∷ es) at r.db)
        | inr n ↦ absurd (let clash = ap (λ p. p.0) (rw n at goes) in cc)
      ]

  account-Sent :
      (user_id : ℕ) (rows : List Entry) (r s : Run)
      → dispatch_account w kind email counter at user_id rows r ≡ (ok tt, s)
      → All (Sent r s user_id) rows
  unfolding dispatch_account dispatch_rows
  account-Sent user_id rows r s h = by_user (get_user_by_id user_id r.db) refl
    where
      due :
          (v : User) (d : Result (List Entry))
          → get_user_by_id user_id r.db ≡ some v
          → accepts email kind v ≡ true
          → due_today kind rows (w.date_at at v.timezone) ≡ d
          → All (Sent r s user_id) rows
      due v (err x) e t f = absurd (
          let stops : dispatch_account w kind email counter at user_id rows r ≡ (err x, r) =
            rw (e, t, f, dispatch_account, dispatch_rows) refl in
          let clash : ok tt ≡ err x = ap (λ p. p.0) (sym h ∙ stops) in cc)
      due v (ok kept) e t f =
          let goes : dispatch_account w kind email counter at user_id rows r
              ≡ send_rows w kind email counter at v user_id (w.date_at at v.timezone) kept r =
            rw (e, t, f, dispatch_account, dispatch_rows) refl in
          let sent = send_rows-All v user_id (w.date_at at v.timezone) kept r s (sym goes ∙ h) in
          All-map _ _
            (λ x told_x u found _ d.
              let one : v ≡ u = cc in
              told_x (subst (λ y. IsDueToday kind (w.date_at at y.timezone) x) (sym one) d))
            rows
            (due_today-All (λ i. was_sent kind email s.db i ≡ true) kind rows
              (w.date_at at v.timezone) kept f sent)

      by_accepts :
          (v : User) (b : Bool)
          → get_user_by_id user_id r.db ≡ some v
          → accepts email kind v ≡ b
          → All (Sent r s user_id) rows
      by_accepts v true e t = due v (due_today kind rows (w.date_at at v.timezone)) e t refl
      by_accepts v false e t =
          All-of
            (λ x u found yes' d.
              absurd (let clash = ap (accepts email kind) (let one : v ≡ u = cc in one) in cc))
            rows

      by_user :
          (found : Option User) → get_user_by_id user_id r.db ≡ found → All (Sent r s user_id) rows
      by_user none e = All-of (λ x u found t d. absurd (cc)) rows
      by_user (some v) e = by_accepts v (accepts email kind v) e refl

  and_then-returned :
      (p : Result (Unit {0}) × Run) (next : Job) (s : Run)
      → and_then p next ≡ (ok tt, s)
      → (r : Run) × (p ≡ (ok tt, r)) × (next r ≡ (ok tt, s))
  unfolding and_then
  and_then-returned (ok tt, r) next s h = (r, refl, h)
  and_then-returned (err e, r) next s h = absurd (let clash = ap (λ p. p.0) h in cc)

  groups-Sent :
      (groups : List (ℕ × List Entry)) (r s : Run)
      → dispatch_groups w kind email counter at groups r ≡ (ok tt, s)
      → All (λ g. All (Sent r s g.0) g.1) groups
  unfolding dispatch_groups get_user_by_id
  groups-Sent [] r s h = tt
  groups-Sent ((user_id, rows) ∷ groups) r s h =
      let (mid, first, rest) =
        and_then-returned (dispatch_account w kind email counter at user_id rows r)
          (dispatch_groups w kind email counter at groups) s h in
      let users : mid.db.users ≡ r.db.users =
        subst (λ p. p.1.db.users ≡ r.db.users) first
          (dispatch_account-Keeps (λ x. x.db.users ≡ r.db.users) w (users-Keeps w r.db.users) kind
            counter at email user_id rows r refl) in
      let stays = λ (i : ℕ) (p : was_sent kind email mid.db i ≡ true).
        subst (λ q. was_sent kind email q.1.db i ≡ true) rest
          (dispatch_groups-Keeps (λ x. was_sent kind email x.db i ≡ true) w
            (was_sent-Keeps w kind i) kind email counter at groups mid p) in
      (
        All-map (Sent r mid user_id) (Sent r s user_id)
            (λ e sent u found t d. stays e.occurrence.id (sent u found t d)) rows
            (account-Sent user_id rows r mid first),
        All-map _ _
            (λ g all.
              All-map (Sent mid s g.0) (Sent r s g.0)
                (λ e sent u found t d. sent u (ap (find (λ v. v.id == g.0)) users ∙ found) t d) g.1
                all)
            groups (groups-Sent groups mid s rest),
      )

-- A pass over the reminders of a kind, by mail, that returns while every mail leaves: an entry that
-- it was handed and that is due on the day of its account, an account that accepts the mail, is in
-- the journal.
pub dispatch-was_sent :
    (w : World) (kind : ReminderKind) (counter : Counter) (at : ℕ) (es : List Entry) (r s : Run)
    (e : Entry) (u : User)
    → ((ms : List Mail) (m : Mail) → w.takes_mail ms m ≡ true)
    → dispatch w kind email counter at (ok es) r ≡ (ok tt, s)
    → Memᴰ e es
    → get_user_by_id e.occurrence.user_id r.db ≡ some u
    → accepts email kind u ≡ true
    → IsDueToday kind (w.date_at at u.timezone) e
    → was_sent kind email s.db e.occurrence.id ≡ true
unfolding dispatch
dispatch-was_sent w kind counter at es r s e u works h member =
    All-member (λ x. Sent w works kind counter at r s x.occurrence.user_id x) es e
      (ungroup (Sent w works kind counter at r s) es []
        (groups-Sent w works kind counter at (group_by_user es []) r s h)).0
      member u
