-- ===== src/Commitments/Checks.antt =====
-- The bodies that the schemas accept against the CHECK constraints of the table.
use oublie_pas_backend.Schemas.Commitments.{
  accepts_create, accepts_update, CommitmentUpdate, CommitmentCreate,
}
use oublie_pas_backend.Models.Commitments.{meets_checks, Commitment, max_reminder_days}
use oublie_pas_backend.Commitments.Service.Update.{dates_in_order, apply_changes}
use oublie_pas_backend.Commitments.Service.{row_of}
use oublie_pas_backend.Base.{ℕ, ◌≡◌, true, ◌≤◌, arith}

-- A creation that the schema accepts, for an account whose default delay is within the bound, writes
-- a row that the table's constraints accept.
pub accepts_create-meets_checks :
    (u : ℕ) (p : CommitmentCreate) (days now id : ℕ)
    → accepts_create p ≡ true
    → days ≤ max_reminder_days
    → meets_checks (row_of u p days now id) ≡ true
unfolding accepts_create meets_checks row_of
accepts_create-meets_checks u p days now id a d = ground arith

-- An update that the schema accepts and that passes the check of the dates turns a row that the
-- table's constraints accept into one that they accept.
pub accepts_update-meets_checks :
    (p : CommitmentUpdate) (c : Commitment)
    → accepts_update p ≡ true
    → dates_in_order p c ≡ true
    → meets_checks c ≡ true
    → meets_checks (apply_changes p c) ≡ true
unfolding accepts_update dates_in_order meets_checks apply_changes
accepts_update-meets_checks p c a d m = ground arith
