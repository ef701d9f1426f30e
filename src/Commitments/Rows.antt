-- ===== src/Commitments/Rows.antt =====
-- OccurrenceGenerator._rows: the occurrences that the generator asks for.
use oublie_pas_backend.Errors.{Result, ok, ◌>>=◌}
use oublie_pas_backend.Models.Commitments.{Commitment}
use oublie_pas_backend.Calendar.{Date, add_days}
use oublie_pas_backend.Repositories.Occurrences.{NewOccurrence}
use oublie_pas_backend.Base.{List, map}
use oublie_pas_backend.Commitments.Generator.{horizon_days, occurrence_dates}

unfoldable pub new_row : Commitment → Date → NewOccurrence
new_row c due = record {
  commitment_id = c.id;
  user_id = c.user_id;
  due_date = due;
  amount = c.amount;
}

-- `_rows`
unfoldable pub rows : Commitment → Date → Result (List NewOccurrence)
unfolding new_row
rows c today = add_days today (horizon_days c.frequency) >>= λ horizon.
    occurrence_dates c.starts_on c.frequency c.ends_on today horizon >>= λ dates.
    ok (map (new_row c) dates)
