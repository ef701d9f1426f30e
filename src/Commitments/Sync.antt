-- ===== src/Commitments/Sync.antt =====
-- OccurrenceGenerator: the occurrences that a commitment gets, and their replacement.
use oublie_pas_backend.Errors.{Result, ok, err}
use oublie_pas_backend.Models.Commitments.{Commitment}
use oublie_pas_backend.Base.{Option, List, ℕ, some, if◌then◌else◌, not, ◌≟◌, ◌∷◌, ◌+◌}
use Prim.Native.String.{String}
use oublie_pas_backend.Calendar.{Date}
use oublie_pas_backend.Repositories.Occurrences.{
  NewOccurrence, add_occurrences, delete_pending_occurrences_from,
}
use oublie_pas_backend.Session.{Action, modify, pure, gets, ◌>>=◌}
use mathlib.Core.Option.{none}
use oublie_pas_backend.Repositories.Commitments.{active_with_timezone}
use oublie_pas_backend.Models.Columns.{active, status_eq}
use oublie_pas_backend.Commitments.Rows.{rows}
use mathlib.Core.List.{[]}

unfoldable pub add_rows : Result (List NewOccurrence) → Action ℕ
add_rows (ok new) db = modify (add_occurrences new) db
add_rows (err e) db = (err e, db)

-- The floor is the caller's day, never the server's.
unfoldable pub sync : Commitment → Date → Action ℕ
unfolding add_rows
sync c today = if not (c.status ≟ active) then pure 0 else add_rows (rows c today)

unfoldable pub resync : Commitment → Date → Action ℕ
unfolding sync
resync c today = modify (delete_pending_occurrences_from c.id today) >>= λ _. sync c today

unfoldable pub floor_of : Option Date → Date → Date
floor_of none today = today
floor_of (some d) today = d

-- The loop of `sync_all_active`, with the number created so far.
unfoldable pub sync_each : (String → Date) → Option Date → List (Commitment × String) → ℕ → Action ℕ
unfolding sync floor_of
sync_each today_in today [] created = pure created
sync_each today_in today ((c, zone) ∷ rest) created =
    sync c (floor_of today (today_in zone)) >>= λ n. sync_each today_in today rest (created + n)

-- The day in a time zone is a parameter.
unfoldable pub sync_all_active : (String → Date) → Option Date → Action ℕ
unfolding sync_each
sync_all_active today_in today = gets active_with_timezone >>= λ all. sync_each today_in today all 0
