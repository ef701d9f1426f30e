-- ===== src/Commitments/Tests.antt =====
-- Rows of services/commitments to run it on. Day 739282 is 2025-01-31.
mod Dates
mod Limits
mod Rows
use oublie_pas_backend.Models.Commitments.{
  Commitment, null_or, max_commitments_per_type, CommitmentOccurrence,
}
use oublie_pas_backend.Session.{Db}
use oublie_pas_backend.Schemas.Commitments.{CommitmentCreate, OccurrenceUpdate, value, null, unset}
use oublie_pas_backend.Base.{
  List, ℕ, Option, [], ◌≡◌, none, ◌∷◌, ◌+◌, arith, if◌then◌else◌, some, true, leb, ◌≤◌, max, ◌⊎◌,
  refl, ◌<◌, false,
}
use oublie_pas_backend.Commitments.Generator.{
  add_months, occurrence_dates, first_index, horizon_days, longest_period_days,
}
use oublie_pas_backend.Commitments.Generator.Periods.{due_at, add_months_lem}
use oublie_pas_backend.Commitments.Generator.Window.{Lists, occurrence_dates-Lists}
use oublie_pas_backend.Calendar.{
  Date, year, month, day, days_before_year, days_before_month, month_length, is_leap, last_below,
  mk_date, to_ordinal,
}
use oublie_pas_backend.Base.Sql.{count}
use oublie_pas_backend.Commitments.Population.{IsPopulated, tracked}
use oublie_pas_backend.Models.Columns.{
  invoice, subscription, monthly, yearly, oneoff, weekly, active, archived, pending, paid,
}
use oublie_pas_backend.Commitments.ActionWindow.{ActionWindow, action_window}
use oublie_pas_backend.Commitments.Service.Trash.{ceiling}
use oublie_pas_backend.Errors.{ok, err, value_error}
use oublie_pas_backend.Commitments.Generator.FirstIndex.{StartsBefore, first_index-StartsBefore}
use oublie_pas_backend.Commitments.ActionWindow.Choice.{Chosen, action_window-Chosen}
use oublie_pas_backend.Commitments.Service.Update.{status_only}
use oublie_pas_backend.Calendar.Fields.{month_index, last_month, clamped}
use oublie_pas_backend.Commitments.Generator.Horizon.{occurrence_dates-horizon_days}
use oublie_pas_backend.Commitments.Requests.{
  Request, run_all, run, creation, change, deletion, restoration,
}
use oublie_pas_backend.Commitments.Population.Requests.{run_all-IsPopulated, run-max_commitments}

abbrev pub rent : Commitment
rent = record {
  id = 1;
  user_id = 7;
  title = "Rent";
  type = invoice;
  category = "Home";
  amount = 80_000;
  frequency = monthly;
  starts_on = 739282;
  ends_on = none;
  trial_ends_on = some 739280;
  cancellation_notice_days = some 10;
  reminder_days_before = 3;
  is_reminder_enabled = true;
  status = active;
  notes = none;
  deleted_at = none;
  created_at = 0;
}

abbrev pub one_commitment : Db
one_commitment = record {
  users = [];
  refresh_tokens = [];
  attempts = [];
  subscriptions = [];
  commitments = rent ∷ [];
  occurrences = [];
  reminders = [];
  digests = [];
  next_id = 2;
}

abbrev pub gym : CommitmentCreate
gym = record {
  title = "Gym";
  type = subscription;
  category = "Sport";
  amount = 3_000;
  frequency = weekly;
  starts_on = 739300;
  ends_on = none;
  trial_ends_on = none;
  cancellation_notice_days = none;
  reminder_days_before = none;
  is_reminder_enabled = true;
  notes = none;
}

abbrev pub requests : List Request
requests =
    creation 7 gym 3 739300 100
    ∷ change 7 1 (status_only archived) 739300
    ∷ deletion 7 1 200
    ∷ restoration 7 (1 ∷ [])
    ∷ []

abbrev pub rent_due : CommitmentOccurrence
rent_due = record {
  id = 5;
  commitment_id = 1;
  user_id = 7;
  due_date = 739282;
  amount = 80_000;
  status = pending;
  paid_at = none;
  paid_on = none;
}

-- The rent with its first occurrence.
abbrev pub one_occurrence : Db
one_occurrence = record one_commitment { occurrences = rent_due ∷ []; next_id = 6 }

abbrev pub payment : OccurrenceUpdate
payment = record { status = value paid; amount = unset; paid_on = unset }

abbrev pub no_status : OccurrenceUpdate
no_status = record { status = null; amount = unset; paid_on = unset }
