-- ===== src/Authentication/Profile/Deletion.antt =====
-- What the deletion of an account leaves of it.
use oublie_pas_backend.Base.{
  ℕ, ◌==◌, ◌≡◌, Bool, Option, List, some, true, arith, ap, ◌∷◌, Bool-cases, if◌then◌else◌, inl,
  refl, not, ◌∙◌, inr,
}
use oublie_pas_backend.Models.Users.{User}
use oublie_pas_backend.Authentication.Profile.Password.{passed, SameUsers}
use oublie_pas_backend.Errors.{
  ok, invalid_deletion_confirmation, incorrect_password, AppException, user_not_found,
}
use oublie_pas_backend.Session.{Db, Action, modify, raise_if, or_raise}
use oublie_pas_backend.Base.Sql.{count, delete, find}
use oublie_pas_backend.Repositories.Users.{delete_user}
use oublie_pas_backend.Authentication.Accounts.{Texts, is_unset}
use oublie_pas_backend.Authentication.Profile.{
  delete_account, get_user, delete_found, confirmation_matches, or_empty, is_wrong_password,
}
use oublie_pas_backend.Repositories.Attempts.{get_user_by_id}
use oublie_pas_backend.Authentication.Login.{Passwords}
use Prim.Native.String.{String}
use oublie_pas_backend.Commitments.Requests.Calls.{Preserves, raise_if-Preserves, >>=-returns}
use mathlib.Core.Option.{none}
use mathlib.Core.Path.{subst}
use mathlib.Core.List.{[]}

-- Neither the users nor a table with the column `user_id` has a row of the account.
pub record IsErased (user_id : ℕ) (db : Db) : Type 0 where
  pub users : count (λ u. u.id == user_id) db.users ≡ 0
  pub refresh_tokens : count (λ t. t.user_id == user_id) db.refresh_tokens ≡ 0
  pub attempts : count (λ a. a.user_id == user_id) db.attempts ≡ 0
  pub subscriptions : count (λ s. s.user_id == user_id) db.subscriptions ≡ 0
  pub commitments : count (λ c. c.user_id == user_id) db.commitments ≡ 0
  pub occurrences : count (λ o. o.user_id == user_id) db.occurrences ≡ 0
  pub digests : count (λ d. d.user_id == user_id) db.digests ≡ 0

count-gone :
    {A : Type 0} (p q : A → Bool) (xs : List A)
    → ((x : A) → q x ≡ true → p x ≡ true)
    → count q (delete p xs) ≡ 0
unfolding count delete
count-gone p q [] h = refl
count-gone p q (x ∷ xs) h = ground (arith, h x, count-gone p q xs h)

erased :
    (user_id : ℕ) (u : User) (db : Db)
    → get_user_by_id user_id db ≡ some u
    → IsErased user_id (delete_user user_id db).1
unfolding delete_user
erased user_id u db found = rw found (record {
  users = count-gone _ _ db.users (λ x e. e);
  refresh_tokens = count-gone _ _ db.refresh_tokens (λ x e. e);
  attempts = count-gone _ _ db.attempts (λ x e. e);
  subscriptions = count-gone _ _ db.subscriptions (λ x e. e);
  commitments = count-gone _ _ db.commitments (λ x e. e);
  occurrences = count-gone _ _ db.occurrences (λ x e. ground (arith, e));
  digests = count-gone _ _ db.digests (λ x e. e);
})

module _ (t : Texts) (p : Passwords) (user_id : ℕ) (password confirmation : Option String) where
  guard : User → Action (Unit {0})
  guard u =
      if is_unset u.password_hash
      then raise_if (not (confirmation_matches t (or_empty confirmation) u.email))
          invalid_deletion_confirmation
      else raise_if (is_wrong_password t p u.password_hash password) incorrect_password

  guard-SameUsers : (users : List User) (u : User) → Preserves (SameUsers users) (guard u)
  unfolding guard
  guard-SameUsers users u = elim (Bool-cases (is_unset u.password_hash)) [
    | inl e ↦ rw e (raise_if-Preserves (SameUsers users) _ _)
    | inr e ↦ rw e (raise_if-Preserves (SameUsers users) _ _)
  ]

  delete_found-IsErased :
      (u : User) (db after : Db)
      → get_user_by_id user_id db ≡ some u
      → delete_found t p user_id password confirmation u db ≡ (ok tt, after)
      → IsErased user_id after
  unfolding delete_found guard get_user_by_id
  delete_found-IsErased u db after found e =
      let (_, mid, same, rest) =
        passed db.users (guard u) (λ _. modify (delete_user user_id)) db tt after
          (guard-SameUsers db.users u) refl e in
      subst (IsErased user_id) (ap (λ r. r.1) rest)
        (erased user_id u mid (ap (find (λ v. v.id == user_id)) same ∙ found))

or_raise-returns :
    (o : Option User) (x : AppException) (db : Db) (u : User) (mid : Db)
    → or_raise o x db ≡ (ok u, mid)
    → (o ≡ some u) × (db ≡ mid)
or_raise-returns none x db u mid q = absurd (let clash = ap (λ r. r.0) q in cc)
or_raise-returns (some v) x db u mid q = (let same = ap (λ r. r.0) q in cc, ap (λ r. r.1) q)

get_user-returns :
    (user_id : ℕ) (db : Db) (u : User) (mid : Db)
    → get_user user_id db ≡ (ok u, mid)
    → (get_user_by_id user_id db ≡ some u) × (db ≡ mid)
unfolding get_user
get_user-returns user_id db u mid q =
    or_raise-returns (get_user_by_id user_id db) user_not_found db u mid q

-- Once the deletion of an account has returned, neither the users nor any table with the column
-- `user_id` has a row of the account.
pub delete_account-IsErased :
    (t : Texts) (p : Passwords) (user_id : ℕ) (password confirmation : Option String)
    (db after : Db)
    → delete_account t p user_id password confirmation db ≡ (ok tt, after)
    → IsErased user_id after
unfolding delete_account
delete_account-IsErased t p user_id password confirmation db after e =
    let (u, mid, first, rest) =
      >>=-returns (get_user user_id) (delete_found t p user_id password confirmation) db tt after
        e in
    let (found, same) = get_user-returns user_id db u mid first in
    delete_found-IsErased t p user_id password confirmation u mid after
      (subst (λ d. get_user_by_id user_id d ≡ some u) same found) rest
