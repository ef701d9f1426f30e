-- ===== src/Jobs/Daily/Chores.antt =====
-- The tables after the purges and the generation of a day.
use oublie_pas_backend.Base.{ℕ, ◌≡◌, List, ◌+◌, ◌∷◌, ◌≤◌, Bool-cases, arith, inl, inr, some, refl}
use oublie_pas_backend.Session.{Db, Action, ◌>>=◌, lift, modify, pure}
use oublie_pas_backend.Errors.{Result, ok, err}
use oublie_pas_backend.Calendar.{Date, sub_days}
use oublie_pas_backend.Commitments.Requests.Calls.{Preserves, >>=-Preserves}
use oublie_pas_backend.Notifications.Run.{Mail, World}
use oublie_pas_backend.Models.Commitments.{
  WeeklyDigest, purge_reminders_after_days, purge_after_days,
}
use oublie_pas_backend.Jobs.Daily.Calm.{AllCalm}
use oublie_pas_backend.Repositories.Occurrences.{
  add_occurrences, NewOccurrence, insert_occurrence, has_due,
}
use oublie_pas_backend.Repositories.Reminders.{purge_reminders}
use oublie_pas_backend.Repositories.Commitments.{purge_deleted, delete_commitments}
use oublie_pas_backend.Jobs.Daily.{housekeeping, purge_trash, purge_journal, generate, days_before}
use oublie_pas_backend.Commitments.Sync.{sync_all_active}
use oublie_pas_backend.Commitments.Requests.Unguarded.{sync_all_active-writes}
use oublie_pas_backend.Jobs.Daily.Purges.{
  insert_occurrence-AllCalm, purge_reminders-Calm, purge_deleted-Calm,
}
use mathlib.Core.List.{[]}

-- Every kind and occurrence is calm, and the journal of the digests is as it was.
abbrev pub IsRested : Date → List Mail → List WeeklyDigest → Db → Type 0
IsRested d mails digests db = (db.digests ≡ digests) × AllCalm d mails db

lift-Preserves :
    {A B : Type 0} (P : Db → Type 0) (m : Result A) (f : A → Action B)
    → ((a : A) → m ≡ ok a → Preserves P (f a))
    → Preserves P (lift m >>= f)
lift-Preserves P (ok a) f h db p = h a refl db p
lift-Preserves P (err e) f h db p = p

module _ (d : Date) (mails : List Mail) (digests : List WeeklyDigest) where
  add_occurrences-IsRested :
      (new : List NewOccurrence)
      → Preserves (IsRested d mails digests) (modify (add_occurrences new))
  unfolding add_occurrences
  add_occurrences-IsRested [] db h = h
  add_occurrences-IsRested (row ∷ new) db h = elim (Bool-cases (has_due row db)) [
    | inl e ↦ rw e (add_occurrences-IsRested new db h)
    | inr e ↦ rw e (
        add_occurrences-IsRested new (insert_occurrence row db)
          (inserted (h.0, insert_occurrence-AllCalm d mails row db h.1)))
  ]
    where
      inserted :
          (db.digests ≡ digests) × AllCalm d mails (insert_occurrence row db)
          → IsRested d mails digests (insert_occurrence row db)
      inserted q = q

  purge_reminders-IsRested :
      (before : Date)
      → before + purge_reminders_after_days ≤ d
      → Preserves (IsRested d mails digests) (modify (purge_reminders before))
  unfolding purge_reminders
  purge_reminders-IsRested before h db (same, all) =
      (same, λ k id. purge_reminders-Calm k id (all k id).0 d mails before db h (all k id).1)

  purge_deleted-IsRested :
      (before : ℕ) → Preserves (IsRested d mails digests) (modify (purge_deleted before))
  unfolding purge_deleted delete_commitments
  purge_deleted-IsRested before db (same, all) =
      (same, λ k id. purge_deleted-Calm k id (all k id).0 d mails before db (all k id).1)

  pub housekeeping-IsRested :
      (w : World) (now : ℕ) → Preserves (IsRested d mails digests) (housekeeping w now d)
  unfolding housekeeping purge_trash purge_journal generate sub_days
  housekeeping-IsRested w now =
      lift-Preserves (IsRested d mails digests) (days_before now purge_after_days)
        (purge_trash w now d)
        (λ deleted _.
          >>=-Preserves (modify (purge_deleted deleted))
            (λ purged.
              lift (sub_days d purge_reminders_after_days) >>= purge_journal w now d purged)
            (purge_deleted-IsRested deleted)
            (λ purged.
              lift-Preserves (IsRested d mails digests) (sub_days d purge_reminders_after_days)
                (purge_journal w now d purged)
                (λ settled e.
                  >>=-Preserves (modify (purge_reminders settled)) (generate w now d purged)
                    (purge_reminders-IsRested settled (subtracted settled e))
                    (λ forgotten.
                      >>=-Preserves (sync_all_active (w.date_at now) (some d))
                        (λ generated. pure (record {
                          purged = purged;
                          forgotten = forgotten;
                          generated = generated;
                        }))
                        (sync_all_active-writes (IsRested d mails digests) add_occurrences-IsRested
                          (w.date_at now) (some d))
                        (λ _ db q. q)))))
    where
      subtracted :
          (settled : Date)
          → sub_days d purge_reminders_after_days ≡ ok settled
          → settled + purge_reminders_after_days ≤ d
      subtracted settled e = ground (arith, e)
