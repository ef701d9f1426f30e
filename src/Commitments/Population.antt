-- ===== src/Commitments/Population.antt =====
-- How many commitments an account tracks: the limit of 25 of each type, and the ceiling of 50 that
-- a restore may reach.
use oublie_pas_backend.Base.{ℕ, Bool, ◌≤◌, ◌==◌, ◌≡◌, ◌&&◌, some}
use oublie_pas_backend.Session.{Db}
use oublie_pas_backend.Models.Columns.{CommitmentType, type_eq}
use oublie_pas_backend.Models.Commitments.{Commitment, is_counted}
use oublie_pas_backend.Base.Sql.{count, given}
use oublie_pas_backend.Repositories.Commitments.{is_live}
use oublie_pas_backend.Commitments.Service.Trash.{ceiling}
pub mod Frame
pub mod Steps
pub mod Calls
pub mod Guards
pub mod Requests

abbrev pub is_tracked : ℕ → CommitmentType → Commitment → Bool
is_tracked user_id t c = is_live user_id c && (is_counted c.status && given (some t) c.type)

-- The population that COUNTED_STATUSES counts.
abbrev pub tracked : ℕ → CommitmentType → Db → ℕ
tracked user_id t db = count (is_tracked user_id t) db.commitments

abbrev pub has_id : ℕ → Commitment → Bool
has_id i c = c.id == i

abbrev pub Cap : Type 0
Cap = ℕ → CommitmentType → ℕ

-- Identifiers are unique and below the next one, and no account tracks more than its cap.
pub record IsPopulated (cap : Cap) (db : Db) : Type 0 where
  pub keyed : (i : ℕ) → count (has_id i) db.commitments ≤ 1
  pub fresh : (i : ℕ) → db.next_id ≤ i → count (has_id i) db.commitments ≡ 0
  pub capped : (user_id : ℕ) (t : CommitmentType) → tracked user_id t db ≤ cap user_id t
