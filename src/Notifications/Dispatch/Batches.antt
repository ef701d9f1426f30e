-- ===== src/Notifications/Dispatch/Batches.antt =====
-- How often an occurrence stands in the batches of a pass, and in the mails that left.
use oublie_pas_backend.Base.{
  ℕ, Bool, List, ◌≡◌, ◌≤◌, ◌+◌, ◌∷◌, [], ◌++◌, Bool-cases, inl, inr, refl, arith, ◌==◌,
  if◌then◌else◌, ◌≟◌,
}
use oublie_pas_backend.Base.Sql.{count, sum_by}
use oublie_pas_backend.Calendar.{Date}
use oublie_pas_backend.Errors.{ok, >>=-returned}
use oublie_pas_backend.Models.Columns.{ReminderKind, kind_eq}
use oublie_pas_backend.Notifications.Dispatch.{
  add_entry, group_by_user, due_today, ids_of, is_open_today,
}
use oublie_pas_backend.Notifications.Dispatch.Marks.{is_about}
use oublie_pas_backend.Notifications.ReminderWindow.{is_due}
use oublie_pas_backend.Notifications.Run.{Entry, Mail}
use oublie_pas_backend.Base.Sql.Laws.{count-append}

-- How often the mails of a kind name an occurrence.
unfoldable pub told : ReminderKind → ℕ → List Mail → ℕ
told kind id mails =
    sum_by (λ m. if m.kind ≟ kind then count (λ i. i == id) m.occurrence_ids else 0) mails

unfoldable pub mentions : ℕ → List (ℕ × List Entry) → ℕ
mentions id groups = sum_by (λ g. count (is_about id) g.1) groups

pub sum_by-append {ℓ} :
    {A : Type ℓ} (f : A → ℕ) (xs ys : List A) → sum_by f (xs ++ ys) ≡ sum_by f xs + sum_by f ys
unfolding sum_by
sum_by-append f [] ys = omega arith
sum_by-append f (x ∷ xs) ys = omega (arith, sum_by-append f xs ys)

pub count-ids_of :
    (id : ℕ) (rows : List Entry) → count (λ i. i == id) (ids_of rows) ≡ count (is_about id) rows
unfolding count
count-ids_of id [] = refl
count-ids_of id (e ∷ es) = ground (arith, count-ids_of id es)

mentions-add_entry :
    (id : ℕ) (e : Entry) (groups : List (ℕ × List Entry))
    → mentions id (add_entry e groups) ≡ mentions id groups + count (is_about id) (e ∷ [])
unfolding mentions add_entry count sum_by
mentions-add_entry id e [] = ground arith
mentions-add_entry id e ((u, rows) ∷ groups) = elim (Bool-cases (u == e.occurrence.user_id)) [
  | inl same ↦ rw same (ground (arith, count-append (is_about id) rows (e ∷ [])))
  | inr other ↦ rw other (ground (arith, mentions-add_entry id e groups))
]

pub mentions-group_by_user :
    (id : ℕ) (es : List Entry) (groups : List (ℕ × List Entry))
    → mentions id (group_by_user es groups) ≡ mentions id groups + count (is_about id) es
unfolding group_by_user count
mentions-group_by_user id [] groups = omega arith
mentions-group_by_user id (e ∷ es) groups =
    ground
      (arith, mentions-group_by_user id es (add_entry e groups), mentions-add_entry id e groups)

-- The rows that are due today are among those of the query.
pub due_today-count :
    (p : Entry → Bool) (kind : ReminderKind) (rows : List Entry) (today : Date) (kept : List Entry)
    → due_today kind rows today ≡ ok kept
    → count p kept ≤ count p rows
unfolding due_today count
due_today-count p kind [] today kept h = ground arith
due_today-count p kind (e ∷ es) today kept h =
    let (due, _, h1) = >>=-returned (is_due kind e.occurrence e.commitment today) _ kept h in
    let (opened, _, h2) = >>=-returned (is_open_today kind due e.window today) _ kept h1 in
    let (rest, ih, h3) = >>=-returned (due_today kind es today) _ kept h2 in
    kept-count opened rest (due_today-count p kind es today rest ih) h3
  where
    kept-count :
        (b : Bool) (rest : List Entry)
        → count p rest ≤ count p es
        → ok (if b then e ∷ rest else rest) ≡ ok kept
        → count p kept ≤ count p (e ∷ es)
    kept-count b rest ih q = ground arith
