-- ===== src/Authentication/Store.antt =====
-- repositories/refresh_token_repository.py against what a store of tokens promises.
pub mod Slots
pub mod Refinement
use oublie_pas_backend.Base.{
  ℕ, List, Option, ◌∷◌, if◌then◌else◌, some, ◌≟◌, Bool, ◌==◌, ◌≤◌, ◌≡◌, ltb, true, ◌+◌, ◌*◌, sym,
  refl, Bool-cases, inl, string_eq, inr, false, arith, ap, ◌++◌, ◌∙◌,
}
use oublie_pas_backend.Models.Users.{RefreshToken}
use Prim.Native.String.{String}
use oublie_pas_backend.Session.{Db}
use oublie_pas_backend.Base.Sql.{find, count, update, delete, exists}
use oublie_pas_backend.Repositories.RefreshTokens.{
  get_any_by_token_hash, create_token, revoke, revoke_all_for_user, has_hash, purge_expired,
  is_live_hash, revoked_at_time, is_live_of,
}
use mathlib.Core.List.{[]}
use mathlib.Core.Option.{none}
use oublie_pas_backend.Calendar.{seconds_per_day}
use oublie_pas_backend.Base.Sql.Laws.{
  find-exists, count-exists, count-update_eq, count-append, count-delete,
}
use mathlib.Core.Path.{subst}

-- A hash has no token, one that is live, or one that is spent; the owner and the expiry.
pub data Slot : Type 0 where
  unused : Slot
  live : ℕ → ℕ → Slot
  spent : ℕ → ℕ → Slot

-- The writes of the repository.
pub data TokenOp : Type 0 where
  create_op : ℕ → String → ℕ → TokenOp
  revoke_op : String → ℕ → TokenOp
  revoke_all_op : ℕ → ℕ → TokenOp
  purge_op : ℕ → ℕ → TokenOp

unfoldable pub apply_op : TokenOp → Db → Db
apply_op (create_op user_id h expires_at) db = (create_token user_id h expires_at db).1
apply_op (revoke_op h now) db = (revoke h now db).1
apply_op (revoke_all_op user_id now) db = (revoke_all_for_user user_id now db).1
apply_op (purge_op days now) db = (purge_expired days now db).1

unfoldable pub apply_ops : List TokenOp → Db → Db
apply_ops [] db = db
apply_ops (op ∷ ops) db = apply_ops ops (apply_op op db)

-- What a write does to the token of one hash: the promise, without rows.
unfoldable pub promised : TokenOp → String → Slot → Slot
promised (create_op user_id h expires_at) k unused =
    if k ≟ h then live user_id expires_at else unused
promised (create_op user_id h expires_at) k (live u e) = live u e
promised (create_op user_id h expires_at) k (spent u e) = spent u e
promised (revoke_op h now) k unused = unused
promised (revoke_op h now) k (live u e) = if k ≟ h then spent u e else live u e
promised (revoke_op h now) k (spent u e) = spent u e
promised (revoke_all_op user_id now) k unused = unused
promised (revoke_all_op user_id now) k (live u e) = if u == user_id then spent u e else live u e
promised (revoke_all_op user_id now) k (spent u e) = spent u e
promised (purge_op days now) k unused = unused
promised (purge_op days now) k (live u e) =
    if ltb (e + days * seconds_per_day) now then unused else live u e
promised (purge_op days now) k (spent u e) =
    if ltb (e + days * seconds_per_day) now then unused else spent u e

unfoldable pub promised_all : List TokenOp → String → Slot → Slot
promised_all [] k s = s
promised_all (op ∷ ops) k s = promised_all ops k (promised op k s)

abbrev pub slot_of : Option RefreshToken → Slot
slot_of none = unused
slot_of (some t) = if t.revoked then spent t.user_id t.expires_at else live t.user_id t.expires_at

abbrev pub slot : String → Db → Slot
slot k db = slot_of (get_any_by_token_hash k db)

-- The constraint on `token_hash`.
abbrev pub HasUniqueHashes : Db → Type 0
HasUniqueHashes db = (k : String) → count (has_hash k) db.refresh_tokens ≤ 1
