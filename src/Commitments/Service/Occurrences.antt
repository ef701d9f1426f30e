-- ===== src/Commitments/Service/Occurrences.antt =====
-- CommitmentService: the occurrences, and the dashboard.
use oublie_pas_backend.Session.{Db, Action, lift, ◌>>◌, raise_if, ◌>>=◌, gets, or_raise, pure}
use oublie_pas_backend.Base.{ℕ, Option, Bool, List, none, ◌&&◌, ◌∷◌, some, ltb, ◌-◌, ◌+◌, ◌≟◌}
use oublie_pas_backend.Schemas.Commitments.{
  Given, OccurrenceUpdate, is_unset, OccurrenceResponse, DashboardSummary, value, unset,
  upcoming_days, null, max_upcoming,
}
use oublie_pas_backend.Calendar.{Date, add_days, year, month}
use Prim.Native.String.{String}
use oublie_pas_backend.Models.Columns.{
  OccurrenceStatus, subscription, invoice, paid, pending, active, status_eq,
}
use oublie_pas_backend.Models.Commitments.{CommitmentOccurrence}
use oublie_pas_backend.Repositories.Occurrences.{
  list_late, get_occurrence, list_occurrences, totals_by_type, set_occurrence_status,
  totals_by_status, count_late, count_occurrences,
}
use oublie_pas_backend.Commitments.Service.{
  occurrence_response, max_late_rows, max_range_days, month_bounds, settle,
}
use oublie_pas_backend.Errors.{no_fields_to_update, invalid_date_range, occurrence_not_found}
use mathlib.Core.List.{[]}
use oublie_pas_backend.Repositories.Commitments.{count_commitments}

-- The responses of rows that a join found with their commitments.
responses : Db → Date → List CommitmentOccurrence → List OccurrenceResponse
responses db today [] = []
responses db today (o ∷ os) =
    let rest = responses db today os in
    elim (occurrence_response db today o) [ none ↦ rest | some r ↦ r ∷ rest ]

unfoldable pub list_occurrences_service :
    ℕ → Date → Date → Option OccurrenceStatus → Date → Action (List OccurrenceResponse)
unfolding responses
list_occurrences_service user_id first last status today = do
  raise_if (ltb last first) invalid_date_range
  raise_if (ltb max_range_days (last - first)) invalid_date_range
  gets (λ db. responses db today (list_occurrences user_id first last status none db))

unfoldable pub list_late_service : ℕ → Date → Db → List OccurrenceResponse
unfolding responses
list_late_service user_id today db =
    responses db today (list_late user_id today (some max_late_rows) db)

-- `changes.get(field, old)`, where null is a value.
abbrev pub get_or_old {ℓ} : {A : Type ℓ} → Given A → Option A → Option A
get_or_old unset old = old
get_or_old null old = none
get_or_old (value a) old = some a

abbrev pub no_changes : OccurrenceUpdate → Bool
no_changes p = is_unset p.status && (is_unset p.amount && is_unset p.paid_on)

unfoldable pub owned_occurrence : ℕ → ℕ → Action CommitmentOccurrence
owned_occurrence user_id occurrence_id =
    gets (get_occurrence occurrence_id user_id) >>= λ o. or_raise o occurrence_not_found

-- The settlement of a row, and its write.
unfoldable pub write_occurrence :
    ℕ
    → ℕ
    → OccurrenceUpdate
    → Date
    → ℕ
    → CommitmentOccurrence
    → Action (Option CommitmentOccurrence)
write_occurrence user_id occurrence_id p today now o =
    let status = get_or_old p.status (some o.status) in
    lift (settle o status (get_or_old p.paid_on o.paid_on) today now) >>= λ settlement.
    set_occurrence_status occurrence_id user_id status (get_or_old p.amount none) settlement.0
      settlement.1

-- `_occurrence_response`, of the row that was written.
unfoldable pub occurrence_answer :
    Date → Option CommitmentOccurrence → Action (Option OccurrenceResponse)
occurrence_answer today none = pure none
occurrence_answer today (some o) = gets (λ db. occurrence_response db today o)

unfoldable pub update_occurrence :
    ℕ → ℕ → OccurrenceUpdate → Date → ℕ → Action (Option OccurrenceResponse)
unfolding owned_occurrence write_occurrence occurrence_answer
update_occurrence user_id occurrence_id p today now = do
  raise_if (no_changes p) no_fields_to_update
  o ← owned_occurrence user_id occurrence_id
  updated ← write_occurrence user_id occurrence_id p today now o
  occurrence_answer today updated

unfoldable pub summary : ℕ → String → Date → Action DashboardSummary
unfolding responses
summary user_id currency today = lift (add_days today upcoming_days) >>= λ horizon. gets (λ db.
    let (first, last) = month_bounds today in
    let subscriptions = totals_by_type user_id first last db subscription in
    let invoices = totals_by_type user_id first last db invoice in
    record {
      currency = currency;
      month = (year today, month today);
      month_total = subscriptions + invoices;
      subscriptions_total = subscriptions;
      invoices_total = invoices;
      paid_total = totals_by_status user_id first last db paid;
      pending_total = totals_by_status user_id first last db pending;
      late_count = count_late user_id today db;
      active_count = count_commitments user_id (λ s. s ≟ active) none db;
      upcoming_total = count_occurrences user_id today horizon (some pending) db;
      upcoming =
          responses db today
            (list_occurrences user_id today horizon (some pending) (some max_upcoming) db);
    })
