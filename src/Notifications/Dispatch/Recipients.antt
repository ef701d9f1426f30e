-- ===== src/Notifications/Dispatch/Recipients.antt =====
-- Who the mails of a pass reach.
use oublie_pas_backend.Base.{
  ℕ, List, Bool, ◌==◌, ◌≡◌, arith, All, ◌&&◌, true, ◌∙◌, ◌≟◌, some, All-append, ◌∷◌, string_eq,
  ==_refl, [], refl,
}
use oublie_pas_backend.Models.Columns.{email, push, ReminderKind, notice, overdue, action_required}
use oublie_pas_backend.Notifications.Run.{Mail, Run, World, Entry}
use oublie_pas_backend.Repositories.Attempts.{get_user_by_id}
use oublie_pas_backend.Notifications.Dispatch.{
  saved_sent, send_due, mail_of, fresh, accepts, send_kinds, calls, count_users, channel_switch,
  family_switch,
}
use oublie_pas_backend.Models.Users.{User}
use oublie_pas_backend.Base.Sql.{exists}
use oublie_pas_backend.Notifications.Dispatch.Keeps.{Keeps, and_then-Keeps, send_kinds-Keeps}
use oublie_pas_backend.Calendar.{Date}
use oublie_pas_backend.Notifications.Dispatch.Marks.{mark-SameRows}
use oublie_pas_backend.Session.{Db}
use oublie_pas_backend.Base.Sql.Laws.{found-exists}
use oublie_pas_backend.Errors.{ok}
use mathlib.Core.Path.{subst}

-- The switch of a kind of reminder, in the settings of an account.
abbrev pub wants : ReminderKind → User → Bool
wants notice u = u.reminder_notice_enabled
wants overdue u = u.reminder_overdue_enabled
wants action_required u = u.reminder_action_enabled

-- An active and verified account that takes mails and the kind of this one, at its address.
abbrev pub is_recipient : Mail → User → Bool
is_recipient m u =
    (u.id == m.user_id && u.email ≟ m.to)
    && ((u.is_active && u.is_verified) && (u.reminder_email_enabled && wants m.kind u))

accepts-wants :
    (kind : ReminderKind) (u : User)
    → accepts email kind u ≡ true
    → ((u.is_active && u.is_verified) && (u.reminder_email_enabled && wants kind u)) ≡ true
unfolding accepts channel_switch family_switch
accepts-wants notice u t = ground (arith, t)
accepts-wants overdue u t = ground (arith, t)
accepts-wants action_required u t = ground (arith, t)

abbrev pub HasRecipient : List User → Mail → Type 0
HasRecipient users m = exists (is_recipient m) users ≡ true

abbrev Reaches : List User → Run → Type 0
Reaches users r = (r.db.users ≡ users) × All (HasRecipient users) r.mails

found_recipient :
    (kind : ReminderKind) (user_id : ℕ) (u : User) (today : Date) (rows : List Entry) (db : Db)
    → get_user_by_id user_id db ≡ some u
    → accepts email kind u ≡ true
    → HasRecipient db.users (mail_of kind u rows today)
unfolding get_user_by_id mail_of
found_recipient kind user_id u today rows db found t =
    found-exists (λ v. v.id == user_id) (is_recipient (mail_of kind u rows today)) db.users u found
      (ground
        (arith, accepts-wants kind u t, ==_refl u.id, (string_eq.beq_iff u.email u.email).1 refl))

Reaches-Keeps : (w : World) (users : List User) → Keeps w (Reaches users)
unfolding saved_sent
Reaches-Keeps w users = record {
  skips = λ n r p. p;
  fails = λ channel n r p. p;
  posts_kept = λ r s q p. (ground (arith, p.0, q), rw q.mails p.1);
  mails_kept = λ kind counter at user_id u today rows r found t p. (
    (mark-SameRows kind email rows at r.db).users ∙ p.0,
    All-append (HasRecipient users) r.mails (mail_of kind u rows today ∷ []) p.1 (
      subst (λ us. HasRecipient us (mail_of kind u rows today)) p.0
          (found_recipient kind user_id u today rows r.db found t),
      tt,
    ),
  );
  mails_unsaved = λ kind user_id u today rows r found t z p. (
    p.0,
    All-append (HasRecipient users) r.mails (mail_of kind u rows today ∷ []) p.1 (
      subst (λ us. HasRecipient us (mail_of kind u rows today)) p.0
          (found_recipient kind user_id u today rows r.db found t),
      tt,
    ),
  );
  pushes_kept =
      λ kind counter at user_id rows r p. ((mark-SameRows kind push rows at r.db).users ∙ p.0, p.1);
}

-- Each mail that a pass sends goes to the address of an account of the table that is active and
-- verified, takes mails, and takes reminders of this kind.
pub send_due-HasRecipient :
    (w : World) (at : ℕ) (r : Run)
    → All (HasRecipient r.db.users) r.mails
    → All (HasRecipient r.db.users) (send_due w at r).1.mails
unfolding send_due fresh
send_due-HasRecipient w at r h =
    (and_then-Keeps (Reaches r.db.users) w (Reaches-Keeps w r.db.users)
      (send_kinds w at (calls w) (fresh r)) (λ after. (ok tt, count_users after))
      (send_kinds-Keeps (Reaches r.db.users) w (Reaches-Keeps w r.db.users) at (calls w) (fresh r)
        (refl, h))
      (λ s p. p)).1
