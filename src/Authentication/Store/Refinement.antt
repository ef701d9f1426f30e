-- ===== src/Authentication/Store/Refinement.antt =====
-- The rows of `refresh_tokens` implement the store of tokens.
use oublie_pas_backend.Base.{ℕ}
use oublie_pas_backend.Models.Users.{RefreshToken}
use oublie_pas_backend.Base.{
  ◌≤◌, List, ◌≡◌, false, Bool-cases, ◌∷◌, ◌++◌, ◌∙◌, [], ap, ◌≟◌, refl, sym, string_eq, arith, ltb,
  ◌+◌, ◌*◌,
}
use oublie_pas_backend.Base.Sql.{count, exists}
use oublie_pas_backend.Repositories.RefreshTokens.{
  create_token, revoke, revoke_all_for_user, purge_expired, has_hash, is_live_hash, revoked_at_time,
  is_live_of,
}
use oublie_pas_backend.Authentication.Store.{
  apply_op, apply_ops, promised_all, HasUniqueHashes, TokenOp, slot, create_op, revoke_op, inl, inr,
  revoke_all_op, purge_op,
}
use Prim.Native.String.{String}
use oublie_pas_backend.Session.{Db}
use oublie_pas_backend.Base.Sql.Laws.{count-update_eq, count-exists, count-delete, count-append}
use oublie_pas_backend.Authentication.Store.Slots.{apply_op-promised, flipped}
use mathlib.Core.Path.{subst}
use oublie_pas_backend.Calendar.{seconds_per_day}

added_count :
    (h k : String) (xs : List RefreshToken) (row : RefreshToken)
    → row.token_hash ≡ h
    → exists (has_hash h) xs ≡ false
    → count (has_hash k) xs ≤ 1
    → count (has_hash k) (xs ++ (row ∷ [])) ≤ 1
unfolding count
added_count h k xs row named free one = elim (Bool-cases (k ≟ h)) [
  | inl e ↦
      let zero_rows =
        count-exists (has_hash k) xs
          (subst (λ x. exists (has_hash x) xs ≡ false) (sym ((string_eq.beq_iff k h).0 e)) free) in
      ground (arith, zero_rows, count-append (has_hash k) xs (row ∷ []))
  | inr e ↦
      let f : has_hash k row ≡ false = ap (λ x. x ≟ k) named ∙ flipped h k ∙ e in
      ground (arith, f, one, count-append (has_hash k) xs (row ∷ []))
]

created_count :
    (user_id : ℕ) (h : String) (expires_at : ℕ) (k : String) (db : Db)
    → HasUniqueHashes db
    → count (has_hash k) (create_token user_id h expires_at db).1.refresh_tokens ≤ 1
unfolding create_token
created_count user_id h expires_at k db one =
    elim (Bool-cases (exists (has_hash h) db.refresh_tokens)) [
      | inl e ↦ rw e (one k)
      | inr e ↦ rw e (added_count h k db.refresh_tokens _ refl e (one k))
    ]

apply_op-HasUniqueHashes :
    (op : TokenOp) (db : Db) → HasUniqueHashes db → HasUniqueHashes (apply_op op db)
unfolding apply_op create_token revoke revoke_all_for_user purge_expired
apply_op-HasUniqueHashes (create_op user_id h expires_at) db one k =
    created_count user_id h expires_at k db one
apply_op-HasUniqueHashes (revoke_op h now) db one k =
    let same =
      count-update_eq (is_live_hash h) (has_hash k) (revoked_at_time now) db.refresh_tokens
        (λ t. refl) in
    rw same (one k)
apply_op-HasUniqueHashes (revoke_all_op user_id now) db one k =
    let same =
      count-update_eq (is_live_of user_id) (has_hash k) (revoked_at_time now) db.refresh_tokens
        (λ t. refl) in
    rw same (one k)
apply_op-HasUniqueHashes (purge_op days now) db one k =
    let fewer =
      count-delete (λ t. ltb (t.expires_at + days * seconds_per_day) now) (has_hash k)
        db.refresh_tokens in
    omega (arith, fewer, one k)

-- The repository of refresh tokens is a store of tokens by their hash: from a table where no hash has
-- two rows, after any list of its writes, what a hash has (no token, a live one or a spent one, with
-- the owner and the expiry) is what the writes promise, each of them by what the hash had before it.
pub apply_ops-promised_all :
    (ops : List TokenOp) (k : String) (db : Db)
    → HasUniqueHashes db
    → slot k (apply_ops ops db) ≡ promised_all ops k (slot k db)
unfolding apply_ops promised_all
apply_ops-promised_all [] k db one = refl
apply_ops-promised_all (op ∷ ops) k db one =
    apply_ops-promised_all ops k (apply_op op db) (apply_op-HasUniqueHashes op db one)
    ∙ ap (promised_all ops k) (apply_op-promised op k db one)
