-- ===== src/Notifications/Dispatch.antt =====
-- services/notifications/reminder_service.py: the reminders of a pass, account by account.
pub mod Marks
pub mod Batches
pub mod Once
pub mod Steps
pub mod Queries
pub mod Passes
pub mod Keeps
pub mod Recipients
pub mod Totals
pub mod Completeness
pub mod Repeats
mod Tests
use oublie_pas_backend.Base.{
  ℕ, Bool, List, Option, some, none, ◌+◌, ◌++◌, ◌∷◌, [], if◌then◌else◌, ◌==◌, ◌&&◌, map, true,
  false, length,
}
use oublie_pas_backend.Base.Sql.{select}
use oublie_pas_backend.Base.Int.{sub_ℕ}
use oublie_pas_backend.Calendar.{Date, date_of}
use oublie_pas_backend.Commitments.ActionWindow.{
  ActionWindow, action_window, is_open, days_left, trial, cancellation,
}
use oublie_pas_backend.Errors.{Result, ok, err, index_error, operational_error, ◌>>=◌}
use oublie_pas_backend.Models.Columns.{
  ReminderKind, notice, overdue, action_required, Channel, email, push,
}
use oublie_pas_backend.Models.Users.{User, PushSubscription}
use oublie_pas_backend.Notifications.ReminderWindow.{is_due}
use oublie_pas_backend.Notifications.Run.{
  Entry, Item, Mail, Message, delivered, gone, raised, Counter, count_actions, count_occurrences,
  count_overdue, Report, empty_report, Run, World, Job, add_sent, add_failed, add_counter, add_to,
  with_report, and_then,
}
use oublie_pas_backend.Repositories.Attempts.{get_user_by_id}
use oublie_pas_backend.Repositories.Reminders.{
  Joined, action_candidates, due_for_reminder, overdue_for_reminder, mark_reminders_sent,
}
use oublie_pas_backend.Repositories.Subscriptions.{list_for_user, forget}
use oublie_pas_backend.Session.{Db}

-- `getattr(user, CHANNELS[channel]["switch"])`
unfoldable pub channel_switch : Channel → User → Bool
channel_switch email u = u.reminder_email_enabled
channel_switch push u = u.reminder_push_enabled

-- `getattr(user, FAMILY_SWITCH[kind])`
unfoldable pub family_switch : ReminderKind → User → Bool
family_switch notice u = u.reminder_notice_enabled
family_switch overdue u = u.reminder_overdue_enabled
family_switch action_required u = u.reminder_action_enabled

abbrev item_of : Entry → Date → Option ActionWindow → Item
item_of e reference none = record {
  title = e.commitment.title;
  due_date = e.occurrence.due_date;
  amount = e.occurrence.amount;
  days_left = sub_ℕ e.occurrence.due_date reference;
  window = none;
}
item_of e reference (some w) = record {
  title = e.commitment.title;
  due_date = e.occurrence.due_date;
  amount = e.occurrence.amount;
  days_left = days_left w reference;
  window = some w;
}

unfoldable pub items : List Entry → Date → List Item
items entries reference = map (λ e. item_of e reference e.window) entries

abbrev pub ids_of : List Entry → List ℕ
ids_of entries = map (λ e. e.occurrence.id) entries

unfoldable pub mail_of : ReminderKind → User → List Entry → Date → Mail
unfolding items
mail_of kind u entries reference = record {
  kind = kind;
  user_id = u.id;
  to = u.email;
  first_name = u.first_name;
  items = items entries reference;
  currency = u.currency;
  locale = u.locale;
  occurrence_ids = ids_of entries;
}

-- `_deliver`: whether it returned.
unfoldable pub deliver : World → ReminderKind → User → List Entry → Date → Run → Bool × Run
unfolding mail_of
deliver w kind u entries reference r =
    let mail = mail_of kind u entries reference in
    if w.takes_mail r.mails mail
    then (true, record r { mails = r.mails ++ (mail ∷ []) })
    else (false, r)

unfoldable pub message_of : ReminderKind → User → List Entry → Date → PushSubscription → Message
unfolding items
message_of kind u entries reference s = record {
  kind = kind;
  user_id = u.id;
  endpoint = s.endpoint;
  items = items entries reference;
  locale = u.locale;
  occurrence_ids = ids_of entries;
}

-- The loop of `_deliver_push`, which an exception ends.
unfoldable pub post_each :
    World → (PushSubscription → Message) → List PushSubscription → Run → Bool × Run
post_each w message [] r = (true, r)
post_each w message (s ∷ ss) r = elim (w.posts r.messages s (message s)) [
  | delivered ↦ post_each w message ss (record r { messages = r.messages ++ (message s ∷ []) })
  | gone ↦ post_each w message ss (record r { db = (forget s.endpoint r.db).1 })
  | raised ↦ (false, r)
]

unfoldable pub deliver_push : World → ReminderKind → User → List Entry → Date → Run → Bool × Run
unfolding message_of post_each
deliver_push w kind u entries reference r =
    post_each w (message_of kind u entries reference) (list_for_user u.id r.db) r

unfoldable pub deliver_on :
    Channel → World → ReminderKind → User → List Entry → Date → Run → Bool × Run
unfolding deliver deliver_push
deliver_on email = deliver
deliver_on push = deliver_push

-- The second test of `_due_today`, which Python makes after the first has passed.
abbrev is_open_today : ReminderKind → Bool → Option ActionWindow → Date → Result Bool
is_open_today action_required true (some w) today = is_open w today
is_open_today action_required true none today = err index_error
is_open_today kind due window today = ok due

unfoldable pub due_today : ReminderKind → List Entry → Date → Result (List Entry)
due_today kind [] today = ok []
due_today kind (e ∷ es) today = is_due kind e.occurrence e.commitment today >>= λ due.
    is_open_today kind due e.window today >>= λ kept.
    due_today kind es today >>= λ rest. ok (if kept then e ∷ rest else rest)

-- `grouped[str(entry[0].user_id)].append(entry)`
unfoldable pub add_entry : Entry → List (ℕ × List Entry) → List (ℕ × List Entry)
add_entry e [] = (e.occurrence.user_id, e ∷ []) ∷ []
add_entry e ((u, rows) ∷ groups) =
    if u == e.occurrence.user_id
    then (u, rows ++ (e ∷ [])) ∷ groups
    else (u, rows) ∷ add_entry e groups

unfoldable pub group_by_user : List Entry → List (ℕ × List Entry) → List (ℕ × List Entry)
unfolding add_entry
group_by_user [] groups = groups
group_by_user (e ∷ es) groups = group_by_user es (add_entry e groups)

-- The accounts that a reminder may reach.
unfoldable pub accepts : Channel → ReminderKind → User → Bool
unfolding channel_switch family_switch
accepts channel kind u =
    u.is_active && (u.is_verified && (channel_switch channel u && family_switch kind u))

abbrev pub is_trial : Option ActionWindow → Bool
is_trial none = false
is_trial (some w) = elim w.reason [ trial ↦ true | cancellation ↦ false ]

-- The marks of a batch that left: those of an action, and of the notice that a trial stands for.
unfoldable pub mark : ReminderKind → Channel → List Entry → ℕ → Db → Db
mark action_required channel rows at db =
    (mark_reminders_sent (ids_of (select (λ e. is_trial e.window) rows)) notice channel at
      (mark_reminders_sent (ids_of rows) action_required channel at db).1).1
mark kind channel rows at db = (mark_reminders_sent (ids_of rows) kind channel at db).1

abbrev pub is_email : Channel → Bool
is_email email = true
is_email push = false

-- What follows a delivery where nothing raises: the marks, the commit and the report.
unfoldable pub saved_sent : ReminderKind → Channel → Counter → ℕ → ℕ → List Entry → Run → Run
unfolding mark
saved_sent kind channel counter at user_id rows r =
    let marked = mark kind channel rows at r.db in
    let report = add_sent channel r.report in
    record r {
      db = marked;
      committed = marked;
      emailed = if is_email channel then add_to user_id r.emailed else r.emailed;
      report = if is_email channel then add_counter counter (length rows) report else report;
    }

-- What follows a delivery: an error of the marks or of the commit ends the pass, uncommitted.
unfoldable pub record_sent : World → ReminderKind → Channel → Counter → ℕ → ℕ → List Entry → Job
unfolding saved_sent
record_sent w kind channel counter at user_id rows r =
    if w.saves r
    then (ok tt, saved_sent kind channel counter at user_id rows r)
    else (err operational_error, r)

unfoldable pub send_rows :
    World → ReminderKind → Channel → Counter → ℕ → User → ℕ → Date → List Entry → Job
unfolding deliver_on record_sent
send_rows w kind channel counter at u user_id today [] r = (ok tt, r)
send_rows w kind channel counter at u user_id today (e ∷ es) r =
    let (sent, after) = deliver_on channel w kind u (e ∷ es) today r in
    if sent
    then record_sent w kind channel counter at user_id (e ∷ es) after
    else (ok tt, with_report (add_failed channel (length (e ∷ es))) after)

abbrev pub skip : ℕ → Report → Report
skip n r = record r { skipped = r.skipped + n }

-- The rows of an account.
unfoldable pub dispatch_rows :
    World → ReminderKind → Channel → Counter → ℕ → ℕ → List Entry → User → Job
unfolding accepts send_rows
dispatch_rows w kind channel counter at user_id rows u r =
    if accepts channel kind u
    then (let today = w.date_at at u.timezone in
        elim (due_today kind rows today) [
          | ok kept ↦ send_rows w kind channel counter at u user_id today kept r
          | err e ↦ (err e, r)
        ])
    else (ok tt, with_report (skip (length rows)) r)

unfoldable pub dispatch_account :
    World → ReminderKind → Channel → Counter → ℕ → ℕ → List Entry → Job
unfolding dispatch_rows
dispatch_account w kind channel counter at user_id rows r = elim (get_user_by_id user_id r.db) [
  | none ↦ (ok tt, with_report (skip (length rows)) r)
  | some u ↦ dispatch_rows w kind channel counter at user_id rows u r
]

unfoldable pub dispatch_groups :
    World → ReminderKind → Channel → Counter → ℕ → List (ℕ × List Entry) → Job
unfolding dispatch_account and_then
dispatch_groups w kind channel counter at [] r = (ok tt, r)
dispatch_groups w kind channel counter at ((user_id, rows) ∷ groups) r =
    and_then (dispatch_account w kind channel counter at user_id rows r)
      (dispatch_groups w kind channel counter at groups)

unfoldable pub dispatch : World → ReminderKind → Channel → Counter → ℕ → Result (List Entry) → Job
unfolding dispatch_groups group_by_user
dispatch w kind channel counter at (err e) r = (err e, r)
dispatch w kind channel counter at (ok entries) r =
    dispatch_groups w kind channel counter at (group_by_user entries []) r

abbrev pub plain : Joined → Entry
plain (o, c) = record { occurrence = o; commitment = c; window = none }

abbrev pub with_window : Joined → Option ActionWindow → List Entry → List Entry
with_window (o, c) none rest = rest
with_window (o, c) (some w) rest = record { occurrence = o; commitment = c; window = some w } ∷ rest

-- The loop of `_open_actions`.
unfoldable pub actionable : Date → List Joined → Result (List Entry)
actionable reference [] = ok []
actionable reference ((o, c) ∷ js) = action_window c o.due_date reference >>= λ window.
    actionable reference js >>= λ rest. ok (with_window (o, c) window rest)

unfoldable pub open_actions : Date → Channel → Db → Result (List Entry)
unfolding actionable
open_actions reference channel db =
    action_candidates reference channel db >>= λ js. actionable reference js

-- What `send_due` hands to `_dispatch` for a kind.
unfoldable pub entries_of : ReminderKind → Date → Channel → Db → Result (List Entry)
unfolding open_actions
entries_of action_required reference channel db = open_actions reference channel db
entries_of notice reference channel db =
    due_for_reminder reference channel db >>= λ js. ok (map plain js)
entries_of overdue reference channel db =
    overdue_for_reminder reference channel db >>= λ js. ok (map plain js)

abbrev pub counter_of : ReminderKind → Counter
counter_of action_required = count_actions
counter_of notice = count_occurrences
counter_of overdue = count_overdue

-- One call of `_dispatch` in `send_due`.
unfoldable pub send_kind : World → ℕ → Channel → ReminderKind → Job
unfolding entries_of dispatch
send_kind w at channel kind r =
    dispatch w kind channel (counter_of kind) at (entries_of kind (date_of at) channel r.db) r

unfoldable pub send_kinds : World → ℕ → List (Channel × ReminderKind) → Job
unfolding send_kind and_then
send_kinds w at [] r = (ok tt, r)
send_kinds w at ((channel, kind) ∷ calls) r =
    and_then (send_kind w at channel kind r) (send_kinds w at calls)

abbrev kinds_on : Channel → List (Channel × ReminderKind)
kinds_on channel = (channel, action_required) ∷ (channel, notice) ∷ (channel, overdue) ∷ []

-- `_channels`, each with the calls of `_dispatch` in their order.
unfoldable pub calls : World → List (Channel × ReminderKind)
calls w = if w.push_configured then kinds_on email ++ kinds_on push else kinds_on email

unfoldable pub fresh : Run → Run
fresh r = record r { report = empty_report; emailed = [] }

abbrev pub count_users : Run → Run
count_users r = with_report (λ x. record x { users = length r.emailed }) r

unfoldable pub send_due : World → ℕ → Job
unfolding send_kinds calls fresh and_then
send_due w at r =
    and_then (send_kinds w at (calls w) (fresh r)) (λ after. (ok tt, count_users after))
