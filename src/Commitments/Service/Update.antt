-- ===== src/Commitments/Service/Update.antt =====
-- CommitmentService: the changes of commitments.
use oublie_pas_backend.Schemas.Commitments.{
  Given, CommitmentUpdate, unset, value, CommitmentResponse, BatchStatusResult, is_unset, null,
}
use oublie_pas_backend.Base.{
  ℕ, Option, none, Bool, List, some, true, ◌||◌, not, if◌then◌else◌, false, leb, ◌≟◌, [], ◌&&◌,
  ◌++◌, ◌∷◌,
}
use oublie_pas_backend.Models.Commitments.{Commitment, null_or, is_counted}
use oublie_pas_backend.Models.Columns.{CommitmentStatus, status_eq, action_required, type_eq}
use oublie_pas_backend.Session.{Action, pure, ◌>>◌, modify, raise_if, ◌>>=◌}
use oublie_pas_backend.Calendar.{Date}
use oublie_pas_backend.Errors.{Result, ok, no_fields_to_update, err, invalid_date_range}
use oublie_pas_backend.Commitments.Sync.{resync}
use oublie_pas_backend.Repositories.Commitments.{get_by_id, update_commitment}
use oublie_pas_backend.Commitments.Service.{
  guard_limit, owned, app, commitment_limit_reached, respond,
}
use oublie_pas_backend.Repositories.Reminders.{clear_reminders}

-- `changes.get(field, old)`, where null does not count as a change.
abbrev pub new_or {ℓ} : {A : Type ℓ} → Given A → A → A
new_or (value a) old = a
new_or _ old = old

-- The same for CLEARABLE_FIELDS, where null clears the column.
abbrev pub new_or_null {ℓ} : {A : Type ℓ} → Given A → Option A → Option A
new_or_null unset old = old
new_or_null null old = none
new_or_null (value a) old = some a

abbrev pub is_value {ℓ} : {A : Type ℓ} → Given A → Bool
is_value (value _) = true
is_value _ = false

-- Some field of the body is in `changes`.
unfoldable pub has_changes : CommitmentUpdate → Bool
has_changes p =
    is_value p.title
    || (is_value p.type
        || (is_value p.category
            || (is_value p.amount
                || (is_value p.frequency
                    || (is_value p.starts_on
                        || (not (is_unset p.ends_on)
                            || (not (is_unset p.trial_ends_on)
                                || (not (is_unset p.cancellation_notice_days)
                                    || (is_value p.reminder_days_before
                                        || (is_value p.is_reminder_enabled
                                            || (is_value p.status
                                                || not (is_unset p.notes))))))))))))

-- `RESCHEDULING_FIELDS & changes.keys()`
unfoldable pub reschedules : CommitmentUpdate → Bool
reschedules p =
    is_value p.amount
    || (is_value p.frequency
        || (is_value p.starts_on || (not (is_unset p.ends_on) || is_value p.status)))

-- `ACTION_FIELDS & changes.keys()`
unfoldable pub changes_actions : CommitmentUpdate → Bool
changes_actions p = not (is_unset p.trial_ends_on) || not (is_unset p.cancellation_notice_days)

unfoldable pub apply_changes : CommitmentUpdate → Commitment → Commitment
apply_changes p c = record c {
  title = new_or p.title c.title;
  type = new_or p.type c.type;
  category = new_or p.category c.category;
  amount = new_or p.amount c.amount;
  frequency = new_or p.frequency c.frequency;
  starts_on = new_or p.starts_on c.starts_on;
  ends_on = new_or_null p.ends_on c.ends_on;
  trial_ends_on = new_or_null p.trial_ends_on c.trial_ends_on;
  cancellation_notice_days = new_or_null p.cancellation_notice_days c.cancellation_notice_days;
  reminder_days_before = new_or p.reminder_days_before c.reminder_days_before;
  is_reminder_enabled = new_or p.is_reminder_enabled c.is_reminder_enabled;
  status = new_or p.status c.status;
  notes = new_or_null p.notes c.notes;
}

-- `_guard_entry`
unfoldable pub guard_entry : ℕ → Commitment → CommitmentUpdate → Action (Unit {0})
guard_entry user_id c p =
    let target_type = new_or p.type c.type in
    if not (is_counted (new_or p.status c.status)) || (is_counted c.status && c.type ≟ target_type)
    then pure tt
    else guard_limit user_id target_type

-- The two checks of the dates, on the values that the row will have.
unfoldable pub dates_in_order : CommitmentUpdate → Commitment → Bool
dates_in_order p c =
    let starts_on = new_or p.starts_on c.starts_on in
    null_or (λ e. leb starts_on e) (new_or_null p.ends_on c.ends_on)
    && null_or (λ t. leb t starts_on) (new_or_null p.trial_ends_on c.trial_ends_on)

-- What follows the write.
unfoldable pub after_update : Commitment → CommitmentUpdate → Date → Action ℕ
after_update c p today =
    if reschedules p
    then resync c today
    else if changes_actions p
    then modify (clear_reminders c.id action_required)
    else pure 0

-- The write, once the guards have passed. `owned` has found the row, so that the write finds it
-- too.
unfoldable pub write_update :
    ℕ → ℕ → CommitmentUpdate → Date → Commitment → Action CommitmentResponse
unfolding after_update
write_update user_id commitment_id p today c = do
  modify (update_commitment commitment_id user_id (apply_changes p))
  after_update (apply_changes p c) p today
  respond user_id today (apply_changes p c)

-- The update of the row that `owned` found.
unfoldable pub update_owned :
    ℕ → ℕ → CommitmentUpdate → Date → Commitment → Action CommitmentResponse
unfolding guard_entry dates_in_order write_update
update_owned user_id commitment_id p today c = do
  raise_if (not (dates_in_order p c)) invalid_date_range
  guard_entry user_id c p
  write_update user_id commitment_id p today c

unfoldable pub update_service : ℕ → ℕ → CommitmentUpdate → Date → Action CommitmentResponse
unfolding update_owned
update_service user_id commitment_id p today = do
  raise_if (not (has_changes p)) no_fields_to_update
  c ← owned user_id commitment_id
  update_owned user_id commitment_id p today c

-- `CommitmentUpdate(status=status)`
abbrev pub status_only : CommitmentStatus → CommitmentUpdate
status_only status = record {
  title = unset;
  type = unset;
  category = unset;
  amount = unset;
  frequency = unset;
  starts_on = unset;
  ends_on = unset;
  trial_ends_on = unset;
  cancellation_notice_days = unset;
  reminder_days_before = unset;
  is_reminder_enabled = unset;
  status = value status;
  notes = unset;
}

-- `commitment is None or commitment.status == status`
abbrev pub passes_over : Option Commitment → CommitmentStatus → Bool
passes_over none status = true
passes_over (some c) status = c.status ≟ status

-- The `try` of `set_status_many`: the identifier goes to the changed or to the blocked ones.
unfoldable pub tally : ℕ → Result CommitmentResponse → BatchStatusResult → Result BatchStatusResult
tally id (ok _) b = ok (record b { changed = b.changed ++ (id ∷ []) })
tally id (err (app (commitment_limit_reached _))) b =
    ok (record b { blocked = b.blocked ++ (id ∷ []) })
tally id (err e) b = err e

unfoldable pub set_status_one :
    ℕ → CommitmentStatus → Date → ℕ → BatchStatusResult → Action BatchStatusResult
unfolding tally
set_status_one user_id status today id b db =
    let (r, after) = update_service user_id id (status_only status) today db in
    if passes_over (get_by_id id user_id db) status then (ok b, db) else (tally id r b, after)

unfoldable pub set_status_from :
    ℕ → CommitmentStatus → Date → List ℕ → BatchStatusResult → Action BatchStatusResult
unfolding set_status_one
set_status_from user_id status today [] b = pure b
set_status_from user_id status today (id ∷ ids) b =
    set_status_one user_id status today id b >>= λ b'. set_status_from user_id status today ids b'

unfoldable pub set_status_many : ℕ → List ℕ → CommitmentStatus → Date → Action BatchStatusResult
unfolding set_status_from
set_status_many user_id ids status today =
    set_status_from user_id status today ids (record { changed = []; blocked = [] })
