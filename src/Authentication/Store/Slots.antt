-- ===== src/Authentication/Store/Slots.antt =====
-- What each write of the repository does to the token of a hash.
use oublie_pas_backend.Base.{ℕ}
use oublie_pas_backend.Models.Users.{RefreshToken}
use oublie_pas_backend.Base.{
  ◌≤◌, Bool, ◌≟◌, List, ◌≡◌, true, false, some, none, Bool-cases, ◌∷◌, ap, ltb, ◌++◌, Option, arith,
  string_eq, ◌+◌, sym, [], ◌*◌, ◌∙◌, if◌then◌else◌, refl,
}
use oublie_pas_backend.Base.Sql.{find, update, delete, count, exists}
use Prim.Native.String.{String}
use oublie_pas_backend.Authentication.Store.{
  promised, apply_op, create_op, TokenOp, slot_of, unused, revoke_all_op, live, inl, spent,
  revoke_op, slot, inr, HasUniqueHashes, purge_op,
}
use oublie_pas_backend.Repositories.RefreshTokens.{
  has_hash, is_live_of, get_any_by_token_hash, create_token, revoke, is_live_hash,
  revoke_all_for_user, purge_expired, revoked_at_time,
}
use oublie_pas_backend.Session.{Db}
use oublie_pas_backend.Base.Sql.Laws.{find-exists}
use oublie_pas_backend.Calendar.{seconds_per_day}
use mathlib.Core.Path.{subst}

-- A write that revokes the rows of a test, by what it does to one row.
updated_slot :
    (op : TokenOp) (k : String) (p : RefreshToken → Bool) (now : ℕ) (xs : List RefreshToken)
    → promised op k unused ≡ unused
    → ((t : RefreshToken)
        → has_hash k t ≡ true
        → p t ≡ true
        → promised op k (slot_of (some t)) ≡ spent t.user_id t.expires_at)
    → ((t : RefreshToken)
        → has_hash k t ≡ true
        → p t ≡ false
        → promised op k (slot_of (some t)) ≡ slot_of (some t))
    → slot_of (find (has_hash k) (update p (revoked_at_time now) xs))
      ≡ promised op k (slot_of (find (has_hash k) xs))
unfolding find update
updated_slot op k p now [] none_stays hit miss = sym none_stays
updated_slot op k p now (x ∷ xs) none_stays hit miss = elim (Bool-cases (has_hash k x)) [
  | inl e ↦ elim (Bool-cases (p x)) [
    | inl y ↦ rw (y, e) (sym (hit x e y))
    | inr n ↦ rw (n, e) (sym (miss x e n))
  ]
  | inr e ↦ elim (Bool-cases (p x)) [
    | inl y ↦ rw (y, e) (updated_slot op k p now xs none_stays hit miss)
    | inr n ↦ rw (n, e) (updated_slot op k p now xs none_stays hit miss)
  ]
]

gone :
    (q p : RefreshToken → Bool) (xs : List RefreshToken)
    → count q xs ≡ 0
    → find q (delete p xs) ≡ none
unfolding find delete count
gone q p [] z = refl
gone q p (x ∷ xs) z = ground (arith, gone q p xs)

same_hash : (h k : String) (t : RefreshToken) → has_hash k t ≡ true → has_hash h t ≡ (k ≟ h)
same_hash h k t e = ap (λ x. x ≟ h) ((string_eq.beq_iff t.token_hash k).0 e)

-- A row of the hash is gone, and there is no other.
purged_slot :
    (days now : ℕ) (k : String) (xs : List RefreshToken)
    → count (has_hash k) xs ≤ 1
    → slot_of (find (has_hash k) (delete (λ t. ltb (t.expires_at + days * seconds_per_day) now) xs))
      ≡ promised (purge_op days now) k (slot_of (find (has_hash k) xs))
unfolding find delete count promised
purged_slot days now k [] one = refl
purged_slot days now k (x ∷ xs) one = ground (
  arith,
  purged_slot days now k xs,
  gone (has_hash k) (λ t. ltb (t.expires_at + days * seconds_per_day) now) xs,
)

revoke_hit :
    (h : String) (now : ℕ) (k : String) (t : RefreshToken)
    → has_hash k t ≡ true
    → is_live_hash h t ≡ true
    → promised (revoke_op h now) k (slot_of (some t)) ≡ spent t.user_id t.expires_at
unfolding promised
revoke_hit h now k t e y = let same = same_hash h k t e in ground (arith, same, y)

revoke_miss :
    (h : String) (now : ℕ) (k : String) (t : RefreshToken)
    → has_hash k t ≡ true
    → is_live_hash h t ≡ false
    → promised (revoke_op h now) k (slot_of (some t)) ≡ slot_of (some t)
unfolding promised
revoke_miss h now k t e n = elim (Bool-cases t.revoked) [
  | inl r ↦ rw r refl
  | inr r ↦ let same = same_hash h k t e in ground (arith, same, n, r)
]

revoke_all_hit :
    (user_id now : ℕ) (k : String) (t : RefreshToken)
    → is_live_of user_id t ≡ true
    → promised (revoke_all_op user_id now) k (slot_of (some t)) ≡ spent t.user_id t.expires_at
unfolding promised
revoke_all_hit user_id now k t y = ground arith

revoke_all_miss :
    (user_id now : ℕ) (k : String) (t : RefreshToken)
    → is_live_of user_id t ≡ false
    → promised (revoke_all_op user_id now) k (slot_of (some t)) ≡ slot_of (some t)
unfolding promised
revoke_all_miss user_id now k t n = ground arith

find-append_some :
    (q : RefreshToken → Bool) (xs ys : List RefreshToken) (t : RefreshToken)
    → find q xs ≡ some t
    → find q (xs ++ ys) ≡ some t
unfolding find
find-append_some q [] ys t e = absurd (let clash = e in cc)
find-append_some q (x ∷ xs) ys t e = ground (arith, find-append_some q xs ys t, e)

find-append_none :
    (q : RefreshToken → Bool) (xs ys : List RefreshToken)
    → find q xs ≡ none
    → find q (xs ++ ys) ≡ find q ys
unfolding find
find-append_none q [] ys e = refl
find-append_none q (x ∷ xs) ys e = ground (arith, find-append_none q xs ys, e)

pub flipped : (h k : String) → (h ≟ k) ≡ (k ≟ h)
flipped h k = elim (Bool-cases (h ≟ k)) [
  | inl e ↦
      let other = (string_eq.beq_iff k h).1 (sym ((string_eq.beq_iff h k).0 e)) in
      rw (e, other) refl
  | inr e ↦ elim (Bool-cases (k ≟ h)) [
    | inl o ↦
        absurd (let back = (string_eq.beq_iff h k).1 (sym ((string_eq.beq_iff k h).0 o)) in cc)
    | inr o ↦ rw (e, o) refl
  ]
]

module _ (user_id : ℕ) (h : String) (expires_at : ℕ) (k : String) where
  taken :
      (t : RefreshToken)
      → promised (create_op user_id h expires_at) k (slot_of (some t)) ≡ slot_of (some t)
  unfolding promised
  taken t = elim (Bool-cases t.revoked) [ inl r ↦ rw r refl | inr r ↦ rw r refl ]

  refused_slot :
      (xs : List RefreshToken)
      → exists (has_hash h) xs ≡ true
      → slot_of (find (has_hash k) xs)
        ≡ promised (create_op user_id h expires_at) k (slot_of (find (has_hash k) xs))
  unfolding promised
  refused_slot xs e = go (find (has_hash k) xs) refl
    where
      go :
          (found : Option RefreshToken)
          → find (has_hash k) xs ≡ found
          → slot_of found ≡ promised (create_op user_id h expires_at) k (slot_of found)
      go (some t) f = sym (taken t)
      go none f = elim (Bool-cases (k ≟ h)) [
        | inl same ↦ absurd (
            let (t, there) = find-exists (has_hash k) xs (
              subst (λ x. exists (has_hash x) xs ≡ true) (sym ((string_eq.beq_iff k h).0 same))
                e) in
            let clash = sym f ∙ there in cc)
        | inr other ↦ rw other refl
      ]

  last_slot :
      (row : RefreshToken)
      → row.token_hash ≡ h
      → slot_of (some row) ≡ live user_id expires_at
      → slot_of (find (has_hash k) (row ∷ [])) ≡ (if k ≟ h then live user_id expires_at else unused)
  unfolding find
  last_slot row named new = elim (Bool-cases (k ≟ h)) [
    | inl e ↦
        let f : has_hash k row ≡ true = ap (λ x. x ≟ k) named ∙ flipped h k ∙ e in rw (f, e) new
    | inr e ↦
        let f : has_hash k row ≡ false = ap (λ x. x ≟ k) named ∙ flipped h k ∙ e in rw (f, e) refl
  ]

  added_slot :
      (xs : List RefreshToken) (row : RefreshToken)
      → row.token_hash ≡ h
      → slot_of (some row) ≡ live user_id expires_at
      → slot_of (find (has_hash k) (xs ++ (row ∷ [])))
        ≡ promised (create_op user_id h expires_at) k (slot_of (find (has_hash k) xs))
  unfolding promised
  added_slot xs row named new = go (find (has_hash k) xs) refl
    where
      go :
          (found : Option RefreshToken)
          → find (has_hash k) xs ≡ found
          → slot_of (find (has_hash k) (xs ++ (row ∷ [])))
            ≡ promised (create_op user_id h expires_at) k (slot_of found)
      go (some t) f = ap slot_of (find-append_some (has_hash k) xs (row ∷ []) t f) ∙ sym (taken t)
      go none f =
          ap slot_of (find-append_none (has_hash k) xs (row ∷ []) f) ∙ last_slot row named new

  created_slot :
      (db : Db)
      → slot k (create_token user_id h expires_at db).1
        ≡ promised (create_op user_id h expires_at) k (slot k db)
  unfolding get_any_by_token_hash create_token
  created_slot db = elim (Bool-cases (exists (has_hash h) db.refresh_tokens)) [
    | inl e ↦ rw e (refused_slot db.refresh_tokens e)
    | inr e ↦ rw e (added_slot db.refresh_tokens _ refl refl)
  ]

pub apply_op-promised :
    (op : TokenOp) (k : String) (db : Db)
    → HasUniqueHashes db
    → slot k (apply_op op db) ≡ promised op k (slot k db)
unfolding apply_op promised get_any_by_token_hash revoke revoke_all_for_user purge_expired
apply_op-promised (create_op user_id h expires_at) k db one = created_slot user_id h expires_at k db
apply_op-promised (revoke_op h now) k db one =
    updated_slot (revoke_op h now) k (is_live_hash h) now db.refresh_tokens refl
      (revoke_hit h now k) (revoke_miss h now k)
apply_op-promised (revoke_all_op user_id now) k db one =
    updated_slot (revoke_all_op user_id now) k (is_live_of user_id) now db.refresh_tokens refl
      (λ t e. revoke_all_hit user_id now k t) (λ t e. revoke_all_miss user_id now k t)
apply_op-promised (purge_op days now) k db one = purged_slot days now k db.refresh_tokens (one k)
