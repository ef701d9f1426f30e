-- ===== src/Schemas/Commitments.antt =====
-- models/schemas/commitment_schema.py. Pydantic checks a body against the schema before a handler
-- runs. The checks of the numbers and of the dates are here; those of the lengths of texts, and the
-- trimming of titles and categories, are not.
use oublie_pas_backend.Base.{Bool, ℕ, List, true, ltb, leb, ◌&&◌, Option, false}
use Prim.Native.String.{String}
use oublie_pas_backend.Calendar.{Date}
use oublie_pas_backend.Models.Columns.{
  OccurrenceStatus, CommitmentType, Frequency, CommitmentStatus,
}
use oublie_pas_backend.Models.Commitments.{
  Commitment, CommitmentOccurrence, max_cancellation_notice_days, null_or, max_reminder_days,
}

-- An optional field of a PATCH body: left out, null, or a value.
pub data Given {ℓ} (A : Type ℓ) : Type ℓ where
  unset null : Given A
  value : A → Given A

abbrev pub is_unset {ℓ} : {A : Type ℓ} → Given A → Bool
is_unset unset = true
is_unset _ = false

abbrev pub max_amount : ℕ
max_amount = 9_999_999_999

abbrev pub upcoming_days : ℕ
upcoming_days = 14

abbrev pub max_upcoming : ℕ
max_upcoming = 8

pub record CommitmentCreate : Type 0 where
  pub title : String
  pub type : CommitmentType
  pub category : String
  pub amount : ℕ
  pub frequency : Frequency
  pub starts_on : Date
  pub ends_on : Option Date
  pub trial_ends_on : Option Date
  pub cancellation_notice_days : Option ℕ
  pub reminder_days_before : Option ℕ
  pub is_reminder_enabled : Bool
  pub notes : Option String

abbrev pub is_amount : ℕ → Bool
is_amount amount = ltb 0 amount && leb amount max_amount

abbrev pub is_notice : ℕ → Bool
is_notice days = leb 1 days && leb days max_cancellation_notice_days

-- The `Field` bounds of CommitmentCreate, and its `check_term`.
unfoldable pub accepts_create : CommitmentCreate → Bool
accepts_create p =
    is_amount p.amount
    && (null_or is_notice p.cancellation_notice_days
        && (null_or (λ days. leb days max_reminder_days) p.reminder_days_before
            && (null_or (λ e. leb p.starts_on e) p.ends_on
                && null_or (λ t. leb t p.starts_on) p.trial_ends_on)))

pub record CommitmentUpdate : Type 0 where
  pub title : Given String
  pub type : Given CommitmentType
  pub category : Given String
  pub amount : Given ℕ
  pub frequency : Given Frequency
  pub starts_on : Given Date
  pub ends_on : Given Date
  pub trial_ends_on : Given Date
  pub cancellation_notice_days : Given ℕ
  pub reminder_days_before : Given ℕ
  pub is_reminder_enabled : Given Bool
  pub status : Given CommitmentStatus
  pub notes : Given String

abbrev pub value_or {ℓ} : {A : Type ℓ} → (A → Bool) → Given A → Bool
value_or p (value a) = p a
value_or p _ = true

-- `a is None or b is None or p(a, b)`
abbrev both_or : (Date → Date → Bool) → Given Date → Given Date → Bool
both_or p (value a) (value b) = p a b
both_or p _ _ = true

-- The `Field` bounds of CommitmentUpdate, and its `check_term`.
unfoldable pub accepts_update : CommitmentUpdate → Bool
accepts_update p =
    value_or is_amount p.amount
    && (value_or is_notice p.cancellation_notice_days
        && (value_or (λ days. leb days max_reminder_days) p.reminder_days_before
            && (both_or (λ e s. leb s e) p.ends_on p.starts_on
                && both_or (λ t s. leb t s) p.trial_ends_on p.starts_on)))

pub record OccurrenceUpdate : Type 0 where
  pub status : Given OccurrenceStatus
  pub amount : Given ℕ
  pub paid_on : Given Date

pub record CommitmentResponse : Type 0 where
  pub commitment : Commitment
  pub next_due_date : Option Date
  pub late_due_date : Option Date
  pub purge_on : Option Date

-- The fields that come from the occurrence, those of its commitment, and the one that is computed.
pub record OccurrenceResponse : Type 0 where
  pub occurrence : CommitmentOccurrence
  pub title : String
  pub type : CommitmentType
  pub category : String
  pub is_late : Bool

pub record BatchStatusResult : Type 0 where
  pub changed : List ℕ
  pub blocked : List ℕ

-- The totals by category are left out.
pub record DashboardSummary : Type 0 where
  pub currency : String
  pub month : ℕ × ℕ
  pub month_total : ℕ
  pub subscriptions_total : ℕ
  pub invoices_total : ℕ
  pub paid_total : ℕ
  pub pending_total : ℕ
  pub late_count : ℕ
  pub active_count : ℕ
  pub upcoming_total : ℕ
  pub upcoming : List OccurrenceResponse
