-- ===== src/Models/Columns.antt =====
-- The enumerations of models/db/commitments_db.py, which are CHECK constraints on text columns there
-- and literal types in models/schemas/commitment_schema.py.
use oublie_pas_backend.Base.{◌≡◌, ◌↔◌, Bool, true, false, arith, Eq}

pub data CommitmentType : Type 0 where
  subscription invoice : CommitmentType

pub data Frequency : Type 0 where
  weekly monthly quarterly yearly oneoff : Frequency

pub data CommitmentStatus : Type 0 where
  active paused archived : CommitmentStatus

pub data OccurrenceStatus : Type 0 where
  pending paid skipped : OccurrenceStatus

pub data ReminderKind : Type 0 where
  notice overdue action_required : ReminderKind

pub data Channel : Type 0 where
  email push : Channel

abbrev type_beq : CommitmentType → CommitmentType → Bool
type_beq subscription subscription = true
type_beq invoice invoice = true
type_beq _ _ = false

pub type_beq_iff : (a b : CommitmentType) → (type_beq a b ≡ true) ↔ (a ≡ b)
type_beq_iff a b = ground arith

instance abbrev pub type_eq : Eq CommitmentType
type_eq = record { beq = type_beq; beq_iff = type_beq_iff }

abbrev status_beq : CommitmentStatus → CommitmentStatus → Bool
status_beq active active = true
status_beq paused paused = true
status_beq archived archived = true
status_beq _ _ = false

pub status_beq_iff : (a b : CommitmentStatus) → (status_beq a b ≡ true) ↔ (a ≡ b)
status_beq_iff a b = ground arith

instance abbrev pub status_eq : Eq CommitmentStatus
status_eq = record { beq = status_beq; beq_iff = status_beq_iff }

abbrev occurrence_status_beq : OccurrenceStatus → OccurrenceStatus → Bool
occurrence_status_beq pending pending = true
occurrence_status_beq paid paid = true
occurrence_status_beq skipped skipped = true
occurrence_status_beq _ _ = false

pub occurrence_status_beq_iff :
    (a b : OccurrenceStatus) → (occurrence_status_beq a b ≡ true) ↔ (a ≡ b)
occurrence_status_beq_iff a b = ground arith

instance abbrev pub occurrence_status_eq : Eq OccurrenceStatus
occurrence_status_eq = record { beq = occurrence_status_beq; beq_iff = occurrence_status_beq_iff }

abbrev kind_beq : ReminderKind → ReminderKind → Bool
kind_beq notice notice = true
kind_beq overdue overdue = true
kind_beq action_required action_required = true
kind_beq _ _ = false

pub kind_beq_iff : (a b : ReminderKind) → (kind_beq a b ≡ true) ↔ (a ≡ b)
kind_beq_iff a b = ground arith

instance abbrev pub kind_eq : Eq ReminderKind
kind_eq = record { beq = kind_beq; beq_iff = kind_beq_iff }

abbrev channel_beq : Channel → Channel → Bool
channel_beq email email = true
channel_beq push push = true
channel_beq _ _ = false

pub channel_beq_iff : (a b : Channel) → (channel_beq a b ≡ true) ↔ (a ≡ b)
channel_beq_iff a b = ground arith

instance abbrev pub channel_eq : Eq Channel
channel_eq = record { beq = channel_beq; beq_iff = channel_beq_iff }
