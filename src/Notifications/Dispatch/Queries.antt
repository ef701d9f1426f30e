-- ===== src/Notifications/Dispatch/Queries.antt =====
-- How often an occurrence stands in what a pass reads from the tables.
use oublie_pas_backend.Base.{
  ℕ, Bool, List, ◌==◌, ◌≤◌, ◌&&◌, map, ◌≡◌, leb, true, not, arith, Bool-cases, ◌∷◌, Option, inl,
  ==_iff, refl, ap, inr, ◌||◌, some, ◌+◌,
}
use oublie_pas_backend.Session.{Db}
use oublie_pas_backend.Repositories.Reminders.{
  Joined, joined, is_unreminded, unreminded, action_candidates, due_for_reminder, due_le,
  overdue_for_reminder, was_sent,
}
use oublie_pas_backend.Models.Columns.{ReminderKind, Channel, action_required, notice, overdue}
use oublie_pas_backend.Base.Sql.{count, select, is_none}
use oublie_pas_backend.Notifications.Dispatch.{
  actionable, entries_of, open_actions, plain, with_window,
}
use oublie_pas_backend.Calendar.{Date}
use oublie_pas_backend.Models.Commitments.{CommitmentOccurrence, Commitment}
use oublie_pas_backend.Notifications.Dispatch.Marks.{is_about}
use oublie_pas_backend.Notifications.Run.{Entry}
use oublie_pas_backend.Base.Sql.Laws.{count-order_by, count-select, count_mono}
use oublie_pas_backend.Errors.{ok, >>=-returned, Result, err}
use oublie_pas_backend.Notifications.ReminderWindow.{query_bounds, timezone_spread_days}
use mathlib.Core.List.{[]}
use oublie_pas_backend.Repositories.Occurrences.{commitment_of}
use oublie_pas_backend.Commitments.ActionWindow.{ActionWindow, action_window}
use mathlib.Core.Option.{none}

abbrev pub concerns : ℕ → Joined → Bool
concerns id j = j.0.id == id

-- What the query of a kind may take of an occurrence.
abbrev pub is_takable : ReminderKind → Channel → ℕ → Date → Db → CommitmentOccurrence → Bool
is_takable kind channel id earliest db o =
    o.id == id && (leb earliest o.due_date && not (was_sent kind channel db id))

joined-count :
    (p : Joined → Bool) (q : CommitmentOccurrence → Bool) (db : Db) (os : List CommitmentOccurrence)
    → ((o : CommitmentOccurrence) (c : Commitment) → p (o, c) ≡ true → q o ≡ true)
    → count p (joined db os) ≤ count q os
unfolding joined count
joined-count p q db [] h = omega arith
joined-count p q db (o ∷ os) h = row (commitment_of db o) refl (joined-count p q db os h)
  where
    row :
        (found : Option Commitment)
        → commitment_of db o ≡ found
        → count p (joined db os) ≤ count q os
        → count p (joined db (o ∷ os)) ≤ count q (o ∷ os)
    row none e ih = rw (e, joined) (ground arith)
    row (some c) e ih = rw (e, joined) (ground (arith, h o c))

taken :
    (kind : ReminderKind) (channel : Channel) (id : ℕ) (earliest latest : Date) (db : Db)
    (o : CommitmentOccurrence) (c : Commitment)
    → (is_unreminded kind earliest latest channel db (o, c) && concerns id (o, c)) ≡ true
    → is_takable kind channel id earliest db o ≡ true
unfolding is_unreminded
taken kind channel id earliest latest db o c h = elim (Bool-cases (o.id == id)) [
  | inl e ↦
      let same : o.id ≡ id = (==_iff o.id id).0 e in
      ground (arith, h, e, ap (was_sent kind channel db) same)
  | inr e ↦ ground (arith, h, e)
]

pub unreminded-count :
    (kind : ReminderKind) (channel : Channel) (id : ℕ) (earliest latest : Date) (db : Db)
    → count (concerns id) (unreminded kind earliest latest channel db)
      ≤ count (is_takable kind channel id earliest db) db.occurrences
unfolding unreminded
unreminded-count kind channel id earliest latest db =
    rw (count-order_by (concerns id) due_le _, count-select (concerns id) _ _)
      (joined-count _ _ db db.occurrences (taken kind channel id earliest latest db))

count-plain :
    (id : ℕ) (js : List Joined) → count (is_about id) (map plain js) ≡ count (concerns id) js
unfolding count
count-plain id [] = refl
count-plain id (j ∷ js) = ground (arith, count-plain id js)

actionable-count :
    (id : ℕ) (reference : Date) (js : List Joined) (es : List Entry)
    → actionable reference js ≡ ok es
    → count (is_about id) es ≤ count (concerns id) js
unfolding actionable count
actionable-count id reference [] es h = ground (arith, h)
actionable-count id reference ((o, c) ∷ js) es h =
    let (window, _, h1) = >>=-returned (action_window c o.due_date reference) _ es h in
    let (rest, ih, h2) = >>=-returned (actionable reference js) _ es h1 in
    kept window rest (actionable-count id reference js rest ih) h2
  where
    kept :
        (window : Option ActionWindow) (rest : List Entry)
        → count (is_about id) rest ≤ count (concerns id) js
        → ok (with_window (o, c) window rest) ≡ ok es
        → count (is_about id) es ≤ count (concerns id) ((o, c) ∷ js)
    kept none rest ih q = ground (arith, q, ih)
    kept (some w) rest ih q = ground (arith, q, ih)

selected-count :
    (id : ℕ) (q : Joined → Bool) (js : List Joined)
    → count (concerns id) (select q js) ≤ count (concerns id) js
selected-count id q js =
    rw (count-select (concerns id) q js) (count_mono _ _ js (λ j h. ground arith))

abbrev has_action : Joined → Bool
has_action j = not (is_none j.1.trial_ends_on) || not (is_none j.1.cancellation_notice_days)

abbrev is_near : Date → Joined → Bool
is_near reference j = leb j.0.due_date (reference + timezone_spread_days + j.1.reminder_days_before)

abbrev returned : ℕ → Result (List Joined) → ℕ
returned id (ok js) = count (concerns id) js
returned id (err e) = 0

abbrev entered : ℕ → Result (List Entry) → ℕ
entered id (ok es) = count (is_about id) es
entered id (err e) = 0

-- What a pass hands on holds an occurrence at most as often as the table has it within the bounds
-- and without a mark.
pub entries_of-count :
    (kind : ReminderKind) (channel : Channel) (id : ℕ) (reference : Date) (db : Db)
    (es : List Entry)
    → entries_of kind reference channel db ≡ ok es
    → (b : Date × Date) × (query_bounds kind reference ≡ ok b)
      × (count (is_about id) es ≤ count (is_takable kind channel id b.0 db) db.occurrences)
unfolding entries_of open_actions action_candidates due_for_reminder overdue_for_reminder
entries_of-count action_required channel id reference db es h =
    let (js, h1, h2) = >>=-returned (action_candidates reference channel db) _ es h in
    let (b, e, h3) = >>=-returned (query_bounds action_required reference) _ js h1 in
    (
      b,
      e,
      omega (
        arith,
        actionable-count id reference js es h2,
        ap (returned id) h3,
        selected-count id has_action (unreminded action_required b.0 b.1 channel db),
        unreminded-count action_required channel id b.0 b.1 db,
      ),
    )
entries_of-count notice channel id reference db es h =
    let (js, h1, h2) = >>=-returned (due_for_reminder reference channel db) _ es h in
    let (b, e, h3) = >>=-returned (query_bounds notice reference) _ js h1 in
    (
      b,
      e,
      omega (
        arith,
        ap (entered id) h2,
        count-plain id js,
        ap (returned id) h3,
        selected-count id (is_near reference) (unreminded notice b.0 b.1 channel db),
        unreminded-count notice channel id b.0 b.1 db,
      ),
    )
entries_of-count overdue channel id reference db es h =
    let (js, h1, h2) = >>=-returned (overdue_for_reminder reference channel db) _ es h in
    let (b, e, h3) = >>=-returned (query_bounds overdue reference) _ js h1 in
    (
      b,
      e,
      omega (
        arith,
        ap (entered id) h2,
        count-plain id js,
        ap (returned id) h3,
        unreminded-count overdue channel id b.0 b.1 db,
      ),
    )
