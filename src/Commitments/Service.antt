-- ===== src/Commitments/Service.antt =====
-- services/commitments/commitment_service.py. `today` is `self._today()`, the day in the time zone of
-- the user, and `now` the instant that the clock shows: a request reads each once.
use oublie_pas_backend.Base.{
  ℕ, Option, some, Bool, ◌+◌, true, ◌≟◌, false, List, if◌then◌else◌, ◌*◌, not, ◌&&◌, map, ltb, leb,
}
use oublie_pas_backend.Models.Commitments.{
  CommitmentOccurrence, Commitment, purge_after_days, is_counted, max_commitments_per_type,
}
use oublie_pas_backend.Calendar.{
  Date, date_of, to_ordinal, year, month, month_length, seconds_per_day,
}
use oublie_pas_backend.Session.{Db, Action, gets, ◌>>=◌, or_raise, raise_if, ◌>>◌, modify}
use Prim.Native.String.{String}
use oublie_pas_backend.Models.Columns.{
  OccurrenceStatus, CommitmentType, active, CommitmentStatus, pending, paid, occurrence_status_eq,
}
use oublie_pas_backend.Schemas.Commitments.{
  OccurrenceResponse, CommitmentCreate, CommitmentResponse,
}
use oublie_pas_backend.Repositories.Occurrences.{DueDates, due_dates, commitment_of}
use oublie_pas_backend.Errors.{
  Result, ok, err, commitment_not_found, app, future_payment_date, commitment_limit_reached,
}
use Option.{none}
use oublie_pas_backend.Repositories.Commitments.{
  get_by_id, count_commitments, list_for_user, create,
}
use oublie_pas_backend.Commitments.Sync.{sync}
pub mod Update
pub mod Trash
pub mod Occurrences
use mathlib.Core.Option

abbrev pub max_range_days : ℕ
max_range_days = 400

abbrev pub max_late_rows : ℕ
max_late_rows = 50

unfoldable pub purge_on : Option ℕ → Option Date
purge_on deleted_at = Option.map (λ t. date_of (t + purge_after_days * seconds_per_day)) deleted_at

-- `paid_on or today`
abbrev pub on_or : Option Date → Date → Date
on_or none today = today
on_or (some d) today = d

abbrev is_paid : Option OccurrenceStatus → Bool
is_paid (some paid) = true
is_paid _ = false

-- `occurrence.paid_at or datetime.now(timezone.utc)`
abbrev pub at_or : Option ℕ → ℕ → Option ℕ
at_or none now = some now
at_or (some t) now = some t

-- The fields `at` and `on` of a Settlement.
unfoldable pub settle :
    CommitmentOccurrence
    → Option OccurrenceStatus
    → Option Date
    → Date
    → ℕ
    → Result (Option ℕ × Option Date)
settle o status paid_on today now =
    if not (is_paid status)
    then ok (none, none)
    else if ltb today (on_or paid_on today)
    then err (app future_payment_date)
    else ok (at_or o.paid_at now, some (on_or paid_on today))

unfoldable pub month_bounds : Date → Date × Date
month_bounds t = (
  to_ordinal (year t) (month t) 1,
  to_ordinal (year t) (month t) (month_length (year t) (month t)),
)

unfoldable pub occurrence_response : Db → Date → CommitmentOccurrence → Option OccurrenceResponse
occurrence_response db today o =
    Option.map
      (λ c. record {
        occurrence = o;
        title = c.title;
        type = c.type;
        category = c.category;
        is_late = o.status ≟ pending && ltb o.due_date today;
      })
      (commitment_of db o)

unfoldable pub commitment_response : Commitment → DueDates → CommitmentResponse
unfolding purge_on
commitment_response c due = record {
  commitment = c;
  next_due_date = due.next_due;
  late_due_date = due.late;
  purge_on = purge_on c.deleted_at;
}

unfoldable pub owned : ℕ → ℕ → Action Commitment
owned user_id commitment_id =
    gets (get_by_id commitment_id user_id) >>= λ c. or_raise c commitment_not_found

unfoldable pub guard_limit : ℕ → CommitmentType → Action (Unit {0})
guard_limit user_id commitment_type =
    gets (count_commitments user_id is_counted (some commitment_type)) >>= λ tracked.
    raise_if (leb max_commitments_per_type tracked)
      (commitment_limit_reached max_commitments_per_type)

abbrev days_or : Option ℕ → ℕ → ℕ
days_or none default = default
days_or (some days) default = days

-- The row of `create`, with the defaults of the columns that it leaves out.
unfoldable pub row_of : ℕ → CommitmentCreate → ℕ → ℕ → ℕ → Commitment
row_of user_id p default_days now id = record {
  id = id;
  user_id = user_id;
  title = p.title;
  type = p.type;
  category = p.category;
  amount = p.amount;
  frequency = p.frequency;
  starts_on = p.starts_on;
  ends_on = p.ends_on;
  trial_ends_on = p.trial_ends_on;
  cancellation_notice_days = p.cancellation_notice_days;
  reminder_days_before = days_or p.reminder_days_before default_days;
  is_reminder_enabled = p.is_reminder_enabled;
  status = active;
  notes = p.notes;
  deleted_at = none;
  created_at = now;
}

unfoldable pub respond : ℕ → Date → Commitment → Action CommitmentResponse
unfolding commitment_response
respond user_id today c db = (ok (commitment_response c (due_dates user_id today db c.id)), db)

unfoldable pub create_commitment : ℕ → CommitmentCreate → ℕ → Date → ℕ → Action CommitmentResponse
unfolding guard_limit row_of respond
create_commitment user_id p default_days today now = do
  guard_limit user_id p.type
  c ← modify (create (row_of user_id p default_days now))
  sync c today
  respond user_id today c

unfoldable pub list_commitments :
    (String → String → Bool)
    → ℕ
    → Option CommitmentType
    → Option CommitmentStatus
    → Date
    → Db
    → List CommitmentResponse
unfolding commitment_response
list_commitments title_le user_id commitment_type status today db =
    map (λ c. commitment_response c (due_dates user_id today db c.id))
      (list_for_user title_le user_id commitment_type status db)

unfoldable pub get : ℕ → ℕ → Date → Action CommitmentResponse
unfolding owned respond
get user_id commitment_id today = do c ← owned user_id commitment_id; respond user_id today c
