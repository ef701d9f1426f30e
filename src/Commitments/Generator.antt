-- ===== src/Commitments/Generator.antt =====
-- services/commitments/occurrence_generator.py: the due dates of a commitment.
pub mod Periods
pub mod Dates
pub mod FirstIndex
pub mod Window
pub mod Horizon
use oublie_pas_backend.Base.{
  ℕ, zero, suc, ◌+◌, ◌-◌, ◌*◌, ◌/◌, ◌%◌, min, max, Bool, true, false, not, ◌&&◌, ◌||◌, Option, none,
  some, List, [], ◌∷◌, ltb, leb, if◌then◌else◌,
}
use oublie_pas_backend.Errors.{Result, ok, err, key_error, stuck, ◌>>=◌}
use oublie_pas_backend.Calendar.{Date, month_length, year, month, day, mk_date, add_days}
use oublie_pas_backend.Models.Columns.{Frequency, weekly, monthly, quarterly, yearly, oneoff}
use oublie_pas_backend.Models.Commitments.{null_or}

-- `MONTHS_BY_FREQUENCY[frequency]`
unfoldable pub months_by_frequency : Frequency → Result ℕ
months_by_frequency weekly = err key_error
months_by_frequency monthly = ok 1
months_by_frequency quarterly = ok 3
months_by_frequency yearly = ok 12
months_by_frequency oneoff = err key_error

abbrev pub generation_horizon_days : ℕ
generation_horizon_days = 90

abbrev pub horizon_margin_days : ℕ
horizon_margin_days = 30

abbrev pub longest_period_days : Frequency → ℕ
longest_period_days weekly = 7
longest_period_days monthly = 31
longest_period_days quarterly = 92
longest_period_days yearly = 366
longest_period_days oneoff = 0

abbrev pub max_occurrences_per_commitment : ℕ
max_occurrences_per_commitment = 60

unfoldable pub horizon_days : Frequency → ℕ
horizon_days frequency =
    max generation_horizon_days (longest_period_days frequency + horizon_margin_days)

unfoldable pub add_months : Date → ℕ → Result Date
add_months anchor months =
    let total = month anchor - 1 + months in
    let y = year anchor + total / 12 in
    let m = total % 12 + 1 in mk_date y m (min (day anchor) (month_length y m))

unfoldable pub nth_due_date : Date → Frequency → ℕ → Result Date
nth_due_date starts_on weekly index = add_days starts_on (7 * index)
nth_due_date starts_on frequency index =
    months_by_frequency frequency >>= λ months. add_months starts_on (index * months)

-- The number of whole periods between two dates, less one. The months of each date are counted
-- from year 0, so that the difference of the sums is the source's sum of differences.
periods_elapsed : Date → Frequency → Date → Result ℕ
periods_elapsed starts_on weekly floor = ok ((floor - starts_on) / 7 - 1)
periods_elapsed starts_on frequency floor = months_by_frequency frequency >>= λ months.
    let elapsed = year floor * 12 + month floor - (year starts_on * 12 + month starts_on) in
    ok (elapsed / months - 1)

-- `_first_index`
unfoldable pub first_index : Date → Frequency → Date → Result ℕ
unfolding periods_elapsed
first_index starts_on frequency floor =
    if leb floor starts_on then ok 0 else periods_elapsed starts_on frequency floor

abbrev pub cons {ℓ} : {A : Type ℓ} → A → Result (List A) → Result (List A)
cons a r = r >>= λ l. ok (a ∷ l)

-- The loop of `occurrence_dates` once `taken` dates are in the list: the dates that it adds.
unfoldable pub dates_from :
    Date → Frequency → Option Date → Date → Date → ℕ → ℕ → ℕ → Result (List Date)
dates_from starts_on frequency ends_on floor horizon zero taken index = err stuck
dates_from starts_on frequency ends_on floor horizon (suc fuel) taken index =
    if not (ltb taken max_occurrences_per_commitment)
    then ok []
    else nth_due_date starts_on frequency index >>= λ due.
        let rest =
          dates_from starts_on frequency ends_on floor horizon fuel
            (if leb floor due then taken + 1 else taken) (index + 1) in
        if ltb horizon due || not (null_or (λ e. leb due e) ends_on)
        then ok []
        else if leb floor due
        then cons due rest
        else rest

-- At most three rounds come before the floor, and sixty add a date.
abbrev pub date_fuel : ℕ
date_fuel = 64

recurring_dates : Date → Frequency → Option Date → Date → Date → Result (List Date)
unfolding dates_from
recurring_dates starts_on frequency ends_on floor horizon =
    first_index starts_on frequency floor >>= λ index.
    dates_from starts_on frequency ends_on floor horizon date_fuel 0 index

unfoldable pub oneoff_dates : Date → Option Date → Date → List Date
oneoff_dates starts_on ends_on horizon =
    if leb starts_on horizon && null_or (λ e. leb starts_on e) ends_on then starts_on ∷ [] else []

unfoldable pub is_oneoff : Frequency → Bool
is_oneoff oneoff = true
is_oneoff _ = false

unfoldable pub occurrence_dates : Date → Frequency → Option Date → Date → Date → Result (List Date)
unfolding recurring_dates oneoff_dates is_oneoff
occurrence_dates starts_on frequency ends_on floor horizon =
    if ltb horizon floor
    then ok []
    else if is_oneoff frequency
    then ok (oneoff_dates starts_on ends_on horizon)
    else recurring_dates starts_on frequency ends_on floor horizon
