-- ===== src/Authentication/Rotation.antt =====
-- A refresh token is spent by its first use, and a replay revokes every token of its owner.
use Prim.Native.String.{String}
use oublie_pas_backend.Base.Sql.{exists, count, update}
use oublie_pas_backend.Base.{
  Bool, ℕ, List, ◌≡◌, Option, false, ◌∷◌, true, none, arith, ap, Bool-cases, sym, some, inl, inr,
  refl, ◌≟◌, ◌++◌, ◌+◌, ◌*◌, ◌∙◌, string_eq, ltb, not,
}
use oublie_pas_backend.Authentication.Tokens.{
  Security, rotate, refuse, refresh_active, issue_tokens, Tokens, refresh_row, refresh_found,
  refresh_access_token, is_sub, is_refresh,
}
use oublie_pas_backend.Errors.{
  AppException, ok, invalid_refresh_token, err, app, token_reuse_detected,
}
use oublie_pas_backend.Session.{Db, raise_if, pure, Action, ◌>>=◌, or_raise, gets}
use oublie_pas_backend.Models.Users.{RefreshToken, User}
use oublie_pas_backend.Repositories.RefreshTokens.{
  get_by_token_hash, is_live_hash, has_hash, is_live_of, revoked_at_time, create_token,
  get_any_by_token_hash, revoke, revoke_all_for_user,
}
use mathlib.Core.List.{[]}
use text.Mathlib.TextEquality.{eq_iff}
use oublie_pas_backend.Base.Sql.Laws.{find-none, exists-append, find-exists, find-some-exists}
use oublie_pas_backend.Calendar.{seconds_per_day}
use oublie_pas_backend.Commitments.Requests.Calls.{>>=-returns, >>=-ok}
use oublie_pas_backend.Repositories.Attempts.{get_user_by_id}

module _ (h : String) (now : ℕ) where
  -- The rows after `revoke`.
  spent : List RefreshToken → List RefreshToken
  spent xs = update (is_live_hash h) (revoked_at_time now) xs

  spent-not_live : (xs : List RefreshToken) → exists (is_live_hash h) (spent xs) ≡ false
  unfolding spent exists update
  spent-not_live [] = refl
  spent-not_live (x ∷ xs) = ground (arith, spent-not_live xs)

  spent-has_hash :
      (k : String) (xs : List RefreshToken)
      → exists (has_hash k) (spent xs) ≡ exists (has_hash k) xs
  unfolding spent exists update
  spent-has_hash k [] = refl
  spent-has_hash k (x ∷ xs) = ground (arith, spent-has_hash k xs)

live-has_hash :
    (h : String) (xs : List RefreshToken)
    → exists (is_live_hash h) xs ≡ true
    → exists (has_hash h) xs ≡ true
unfolding exists
live-has_hash h [] e = e
live-has_hash h (x ∷ xs) e = ground (arith, live-has_hash h xs)

-- `revoke_all_for_user` leaves the user no live token.
pub revoke_all_for_user-count :
    (u now : ℕ) (xs : List RefreshToken)
    → count (is_live_of u) (update (is_live_of u) (revoked_at_time now) xs) ≡ 0
unfolding count update
revoke_all_for_user-count u now [] = refl
revoke_all_for_user-count u now (x ∷ xs) = ground (arith, revoke_all_for_user-count u now xs)

after_raise_if :
    {A : Type 0} (b : Bool) (e : AppException) (k : Unit {0} → Action A) (db : Db) (r : A)
    (after : Db)
    → (raise_if b e >>= k) db ≡ (ok r, after)
    → (b ≡ false) × (k tt db ≡ (ok r, after))
after_raise_if true e k db r after q = absurd (let clash = ap (λ r. r.0) q in cc)
after_raise_if false e k db r after q = (refl, q)

after_or_raise :
    {A B : Type 0} (o : Option B) (e : AppException) (k : B → Action A) (db : Db) (r : A)
    (after : Db)
    → (or_raise o e >>= k) db ≡ (ok r, after)
    → (b : B) × (o ≡ some b) × (k b db ≡ (ok r, after))
after_or_raise none e k db r after q = absurd (let clash = ap (λ r. r.0) q in cc)
after_or_raise (some b) e k db r after q = (b, refl, q)

-- The tables after a successful rotation of the token with the hash `h`.
record IsRotated (h : String) (after : Db) : Type 0 where
  dead : get_by_token_hash h after ≡ none
  known : (x : RefreshToken) × (get_any_by_token_hash h after ≡ some x)

other_hash :
    (h k : String) (xs : List RefreshToken)
    → exists (has_hash k) xs ≡ false
    → exists (has_hash h) xs ≡ true
    → (k ≟ h) ≡ false
other_hash h k xs none_k some_h = elim (Bool-cases (k ≟ h)) [
  | inr f ↦ f
  | inl t ↦
      let same : k ≡ h = (eq_iff k h).0 t in
      absurd (let clash = sym (rw same at none_k) ∙ some_h in cc)
]

-- A fresh row beside the spent ones.
rows-IsRotated :
    (h : String) (xs : List RefreshToken) (row : RefreshToken) (after : Db)
    → after.refresh_tokens ≡ xs ++ (row ∷ [])
    → exists (has_hash row.token_hash) xs ≡ false
    → exists (is_live_hash h) xs ≡ false
    → exists (has_hash h) xs ≡ true
    → IsRotated h after
unfolding get_by_token_hash get_any_by_token_hash exists
rows-IsRotated h xs row after e fresh no_live known =
    let other = other_hash h row.token_hash xs fresh known in
    record {
      dead = rw e (
          find-none (is_live_hash h) (xs ++ (row ∷ []))
            (exists-append (is_live_hash h) xs (row ∷ []) ∙ rw (no_live, other) refl));
      known = rw e (
          find-exists (has_hash h) (xs ++ (row ∷ []))
            (exists-append (has_hash h) xs (row ∷ []) ∙ rw known refl));
    }

module _ (s : Security) (token fresh : String) (days now : ℕ) where
  issued :
      (u : User) (r : Tokens) (db after : Db)
      → exists (has_hash (s.hash_token token)) db.refresh_tokens ≡ true
      → rotate s token fresh days now u db ≡ (ok r, after)
      → IsRotated (s.hash_token token) after
  unfolding rotate issue_tokens create_token revoke spent
  issued u r db after known e =
      let h = s.hash_token token in
      let k = s.hash_token fresh in
      let xs = spent h now db.refresh_tokens in
      let expires = now + days * seconds_per_day in
      let revoked = (revoke h now db).1 in
      let (t, mid, made, kept) =
        >>=-returns (create_token u.id k expires)
          (λ _. pure (record {
            access_token = s.create_access_token u.id u.role;
            refresh_token = fresh;
            role = u.role;
          }))
          revoked r after e in
      elim (Bool-cases (exists (has_hash k) xs)) [
        | inl taken ↦ absurd (let q = rw taken at made in let clash = ap (λ r. r.0) q in cc)
        | inr free ↦
            let q = rw free at made in
            rows-IsRotated h xs _ after
              (ap (λ r. r.1.refresh_tokens) (sym kept) ∙ sym (ap (λ r. r.1.refresh_tokens) q)) free
              (spent-not_live h now db.refresh_tokens)
              (spent-has_hash h now h db.refresh_tokens ∙ known)
      ]

  refuse-raises :
      (o : Option RefreshToken) (r : Tokens) (db after : Db) → refuse o now db ≡ (ok r, after) → ⊥
  unfolding refuse
  refuse-raises none r db after e = let clash = ap (λ r. r.0) e in cc
  refuse-raises (some x) r db after e = let clash = ap (λ r. r.0) e in cc

  active :
      (row : RefreshToken) (u : User) (r : Tokens) (db after : Db)
      → refresh_active s token fresh days now row u db ≡ (ok r, after)
      → rotate s token fresh days now u db ≡ (ok r, after)
  unfolding refresh_active
  active row u r db after e = elim (Bool-cases u.is_active) [
    | inl t ↦ rw t at e
    | inr f ↦ absurd (let q = rw f at e in let clash = ap (λ r. r.0) q in cc)
  ]

  of_row :
      (row : RefreshToken) (r : Tokens) (db after : Db)
      → exists (has_hash (s.hash_token token)) db.refresh_tokens ≡ true
      → refresh_row s token fresh days now row db ≡ (ok r, after)
      → IsRotated (s.hash_token token) after
  unfolding refresh_row
  of_row row r db after known e =
      let continue = λ (found : Option User).
        or_raise found invalid_refresh_token >>= λ u. refresh_active s token fresh days now row u in
      let (in_time, e1) =
        after_raise_if (ltb row.expires_at now) invalid_refresh_token
          (λ _.
            raise_if (not (is_sub (s.decode_token token now) row.user_id)) invalid_refresh_token
            >>= λ _. gets (get_user_by_id row.user_id) >>= continue)
          db r after e in
      let (owned, e2) =
        after_raise_if (not (is_sub (s.decode_token token now) row.user_id)) invalid_refresh_token
          (λ _. gets (get_user_by_id row.user_id) >>= continue) db r after e1 in
      let (u, found, e3) =
        after_or_raise (get_user_by_id row.user_id db) invalid_refresh_token
          (refresh_active s token fresh days now row) db r after e2 in
      issued u r db after known (active row u r db after e3)

  of_found :
      (o : Option RefreshToken) (r : Tokens) (db after : Db)
      → get_by_token_hash (s.hash_token token) db ≡ o
      → refresh_found s token fresh days now o db ≡ (ok r, after)
      → IsRotated (s.hash_token token) after
  unfolding refresh_found get_by_token_hash
  of_found none r db after found e =
      absurd (refuse-raises (get_any_by_token_hash (s.hash_token token) db) r db after e)
  of_found (some row) r db after found e =
      of_row row r db after
        (live-has_hash (s.hash_token token) db.refresh_tokens
          (find-some-exists (is_live_hash (s.hash_token token)) db.refresh_tokens row found))
        e

-- Once a refresh with a token has returned, a second use of the token raises TokenReuseDetected, if
-- the token still decodes as it did, so has not expired, and if no other request has come in between;
-- it leaves the owner of the row that has its hash no live token.
pub refresh_access_token-replay :
    (s : Security) (token fresh fresh' : String) (days days' now now' : ℕ) (r : Tokens)
    (db after : Db)
    → refresh_access_token s token fresh days now db ≡ (ok r, after)
    → s.decode_token token now' ≡ s.decode_token token now
    → (owner : RefreshToken) × (get_any_by_token_hash (s.hash_token token) after ≡ some owner)
      × (refresh_access_token s token fresh' days' now' after
          ≡ (err (app token_reuse_detected), (revoke_all_for_user owner.user_id now' after).1))
      × (count
            (is_live_of owner.user_id)
            (revoke_all_for_user owner.user_id now' after).1.refresh_tokens
          ≡ 0)
unfolding refresh_access_token refresh_found refuse revoke_all_for_user
refresh_access_token-replay s token fresh fresh' days days' now now' r db after e same =
    let h = s.hash_token token in
    let (typed, e1) =
      after_raise_if (not (is_refresh (s.decode_token token now))) invalid_refresh_token
        (λ _. gets (get_by_token_hash h) >>= refresh_found s token fresh days now) db r after e in
    let rotated = of_found s token fresh days now (get_by_token_hash h db) r db after refl e1 in
    let (owner, known) = rotated.known in
    (
      owner,
      known,
      >>=-ok (raise_if (not (is_refresh (s.decode_token token now'))) invalid_refresh_token)
            (λ _. gets (get_by_token_hash h) >>= refresh_found s token fresh' days' now') after tt
            after (rw (same, typed) refl)
          ∙ rw (rotated.dead, known) refl,
      revoke_all_for_user-count owner.user_id now' after.refresh_tokens,
    )
