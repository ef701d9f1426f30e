-- ===== src/Notifications/Dispatch/Repeats.antt =====
-- A push message that a device gets again.
use oublie_pas_backend.Base.{ℕ, ◌++◌, List, ◌∷◌, ◌≡◌, [], false, refl, map, sym, length, ◌∙◌, ap}
use oublie_pas_backend.Models.Columns.{push, ReminderKind}
use mathlib.Core.List.{append-nil, append_assoc}
use oublie_pas_backend.Notifications.Run.{
  Message, World, Run, delivered, Entry, raised, Counter, with_report, add_failed,
}
use oublie_pas_backend.Notifications.Dispatch.{deliver_push, post_each, message_of, send_rows}
use oublie_pas_backend.Models.Users.{PushSubscription, User}
use oublie_pas_backend.Calendar.{Date}
use oublie_pas_backend.Repositories.Subscriptions.{list_for_user}
use mathlib.Core.Path.{subst}
use oublie_pas_backend.Errors.{ok}

abbrev pub posted : Message → Run → Run
posted m r = record r { messages = r.messages ++ (m ∷ []) }

-- A device that takes every message, and one whose messages all raise.
pub record IsBlocked (w : World) (a b : PushSubscription) : Type 0 where
  pub takes : (ms : List Message) (m : Message) → w.posts ms a m ≡ delivered
  pub raises : (ms : List Message) (m : Message) → w.posts ms b m ≡ raised

blocked_once :
    (w : World) (kind : ReminderKind) (u : User) (rows : List Entry) (today : Date)
    (a b : PushSubscription) (rest : List PushSubscription) (r : Run)
    → IsBlocked w a b
    → list_for_user u.id r.db ≡ a ∷ b ∷ rest
    → deliver_push w kind u rows today r ≡ (false, posted (message_of kind u rows today a) r)
unfolding deliver_push
blocked_once w kind u rows today a b rest r h e =
    let m = message_of kind u rows today in rw (e, deliver_push) (post_blocked m)
  where
    post_blocked :
        (m : PushSubscription → Message) → post_each w m (a ∷ b ∷ rest) r ≡ (false, posted (m a) r)
    post_blocked m =
        rw (h.takes r.messages (m a), post_each)
          (rw (h.raises (r.messages ++ (m a ∷ [])) (m b), post_each) refl)

send_rows_blocked :
    (w : World) (kind : ReminderKind) (counter : Counter) (at : ℕ) (u : User) (user_id : ℕ)
    (day : Date) (e : Entry) (es : List Entry) (a b : PushSubscription)
    (rest : List PushSubscription) (r : Run)
    → IsBlocked w a b
    → list_for_user u.id r.db ≡ a ∷ b ∷ rest
    → send_rows w kind push counter at u user_id day (e ∷ es) r ≡ (
      ok tt,
      with_report (add_failed push (length (e ∷ es))) (posted (message_of kind u (e ∷ es) day a) r),
    )
unfolding send_rows
send_rows_blocked w kind counter at u user_id day e es a b rest r h q =
    rw (blocked_once w kind u (e ∷ es) day a b rest r h q) refl

-- The batch of an account, sent by push on several days.
unfoldable pub send_on_days :
    World → ReminderKind → Counter → ℕ → User → ℕ → List Entry → List Date → Run → Run
send_on_days w kind counter at u user_id rows [] r = r
send_on_days w kind counter at u user_id rows (day ∷ days) r =
    send_on_days w kind counter at u user_id rows days
      (send_rows w kind push counter at u user_id day rows r).1

-- Where the device that an account used last takes every message and the messages to the one before
-- it raise: on each day the first device gets a message about the same occurrences, and the tables
-- stay as they are, so that no mark stops the next one.
pub send_on_days-messages :
    (w : World) (kind : ReminderKind) (counter : Counter) (at : ℕ) (u : User) (user_id : ℕ)
    (e : Entry) (es : List Entry) (a b : PushSubscription) (rest : List PushSubscription)
    (days : List Date) (r : Run)
    → IsBlocked w a b
    → list_for_user u.id r.db ≡ a ∷ b ∷ rest
    → ((send_on_days w kind counter at u user_id (e ∷ es) days r).messages
        ≡ r.messages ++ map (λ day. message_of kind u (e ∷ es) day a) days)
      × ((send_on_days w kind counter at u user_id (e ∷ es) days r).db ≡ r.db)
unfolding send_on_days
send_on_days-messages w kind counter at u user_id e es a b rest [] r h q =
    (sym (append-nil r.messages), refl)
send_on_days-messages w kind counter at u user_id e es a b rest (day ∷ days) r h q =
    let m = message_of kind u (e ∷ es) day a in
    let after = with_report (add_failed push (length (e ∷ es))) (posted m r) in
    let ih = send_on_days-messages w kind counter at u user_id e es a b rest days after h q in
    subst
      (λ x.
        ((send_on_days w kind counter at u user_id (e ∷ es) days x).messages
          ≡ r.messages ++ (m ∷ map (λ t. message_of kind u (e ∷ es) t a) days))
        × ((send_on_days w kind counter at u user_id (e ∷ es) days x).db ≡ r.db))
      (ap (λ p. p.1) (sym (send_rows_blocked w kind counter at u user_id day e es a b rest r h q)))
      (ih.0 ∙ append_assoc r.messages (m ∷ []) _, ih.1)
