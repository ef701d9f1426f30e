-- ===== src/Jobs/Daily/Tests.antt =====
-- The daily job on concrete rows.
use oublie_pas_backend.Base.{ℕ, List, arith, ◌≤◌, ◌∷◌, refl, ◌+◌, []}
use oublie_pas_backend.Models.Columns.{notice}
use oublie_pas_backend.Base.Sql.{count}
use oublie_pas_backend.Notifications.Dispatch.Batches.{told}
use oublie_pas_backend.Calendar.{date_of}
use oublie_pas_backend.Jobs.Daily.Once.{IsUnsent, run_days-told, AllSave}
use oublie_pas_backend.Notifications.Run.{World}
use oublie_pas_backend.Notifications.Samples.{idle, world, morning}
use oublie_pas_backend.Jobs.Daily.{run_days}

idle-IsUnsent : IsUnsent idle
unfolding count
idle-IsUnsent = record {
  no_mails = refl;
  no_digests = refl;
  unique = λ id. ground arith;
  below = λ id h. ground arith;
}

abbrev three_days : List (World × ℕ)
three_days = (world, morning) ∷ (world, morning + 86_400) ∷ (world, morning + 172_800) ∷ []

three_days-AllSave : AllSave three_days
three_days-AllSave = ((λ x. refl), ((λ x. refl), ((λ x. refl), tt)))

run_days-told_example : told notice 2 (run_days three_days idle).mails ≤ 1
unfolding date_of
run_days-told_example =
    run_days-told three_days idle idle-IsUnsent (omega arith) three_days-AllSave notice 2
