-- ===== src/Notifications/Dispatch/Tests.antt =====
-- Passes on concrete rows.
use mathlib.Core.List.Memᴰ
use oublie_pas_backend.Base.{All, ◌≡◌, none, true, ◌∷◌, refl, []}
use oublie_pas_backend.Models.Columns.{email, notice}
use oublie_pas_backend.Errors.{ok}
use oublie_pas_backend.Notifications.Dispatch.Totals.{IsReport, send_due-IsReport}
use oublie_pas_backend.Notifications.Run.{Entry, Run, count_occurrences, and_then}
use oublie_pas_backend.Repositories.Reminders.{was_sent}
use oublie_pas_backend.Notifications.Dispatch.Repeats.{send_on_days, send_on_days-messages}
use oublie_pas_backend.Base.Sql.{order_by, select, find}
use oublie_pas_backend.Notifications.Dispatch.Recipients.{HasRecipient, send_due-HasRecipient}
use oublie_pas_backend.Notifications.Samples.{
  idle, rent_due, world, tables, rent, morning, reader, device,
}
use oublie_pas_backend.Notifications.Dispatch.{
  dispatch, send_due, message_of, group_by_user, add_entry, dispatch_groups, dispatch_account,
  dispatch_rows, accepts, channel_switch, family_switch, due_today,
}
use oublie_pas_backend.Notifications.Dispatch.Completeness.{dispatch-was_sent}
use oublie_pas_backend.Repositories.Subscriptions.{list_for_user}
use oublie_pas_backend.Repositories.Attempts.{get_user_by_id}
use oublie_pas_backend.Notifications.ReminderWindow.{is_due, bounds}
use oublie_pas_backend.Calendar.{add_days, date_of}

send_due-HasRecipient_example :
    All (HasRecipient tables.users) (send_due world morning idle).1.mails
send_due-HasRecipient_example = send_due-HasRecipient world morning idle tt

send_due-IsReport_example : IsReport idle (send_due world morning idle).1
send_due-IsReport_example = send_due-IsReport world morning idle (λ x. refl)

abbrev rent_entry : Entry
rent_entry = record { occurrence = rent_due; commitment = rent; window = none }

abbrev dispatched : Run
dispatched = (dispatch world notice email count_occurrences morning (ok (rent_entry ∷ [])) idle).1

dispatch-was_sent_example : was_sent notice email dispatched.db 2 ≡ true
unfolding dispatch group_by_user add_entry dispatch_groups dispatch_account dispatch_rows and_then
    get_user_by_id find accepts channel_switch family_switch due_today is_due bounds add_days
    date_of
dispatch-was_sent_example =
    dispatch-was_sent world notice count_occurrences morning (rent_entry ∷ []) idle dispatched
      rent_entry reader (λ ms m. refl) refl (Memᴰ.head refl) refl refl refl

send_on_days-messages_example :
    ((send_on_days world notice count_occurrences morning reader 7
        (rent_entry ∷ [])
        (739397 ∷ 739398 ∷ [])
        idle).messages
      ≡ message_of notice reader (rent_entry ∷ []) 739397 (device 3)
        ∷ message_of notice reader (rent_entry ∷ []) 739398 (device 3)
        ∷ [])
    × ((send_on_days world notice count_occurrences morning reader 7
          (rent_entry ∷ [])
          (739397 ∷ 739398 ∷ [])
          idle).db
        ≡ tables)
unfolding list_for_user order_by select
send_on_days-messages_example =
    send_on_days-messages world notice count_occurrences morning reader 7 rent_entry [] (device 3)
      (device 4) [] (739397 ∷ 739398 ∷ []) idle
      (record { takes = λ ms m. refl; raises = λ ms m. refl }) refl
