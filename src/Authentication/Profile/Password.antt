-- ===== src/Authentication/Profile/Password.antt =====
-- A code that reset a password does not reset it again.
use oublie_pas_backend.Base.{
  ℕ, List, ◌≡◌, Bool-cases, some, ◌==◌, leb, Option, ap, not, inl, ◌≟◌, inr, sym, ◌∙◌, refl,
  string_eq, true, arith,
}
use oublie_pas_backend.Models.Users.{User, VerificationKind, max_verification_attempts, reset}
use oublie_pas_backend.Repositories.Attempts.{
  bump_attempts, get_user_by_email, clear_attempts, is_attempt, get_user_by_id, attempts_of,
}
use oublie_pas_backend.Authentication.Codes.{
  check_otp, compare_otp, is_expired, code_columns, verify_otp,
}
use oublie_pas_backend.Repositories.Users.{
  update_user, update_found, update_password, with_password, clashes,
}
use oublie_pas_backend.Authentication.Login.{Passwords, verify_password}
use oublie_pas_backend.Authentication.Profile.{reset_password, reset_found, reset_accepted}
use oublie_pas_backend.Session.{Db, Action, modify, ◌>>=◌, raise_if}
use oublie_pas_backend.Authentication.Tokens.{Security}
use oublie_pas_backend.Commitments.Requests.Calls.{
  Preserves, >>=-Preserves, >>=-returns, raise_if-Preserves,
}
use Prim.Native.String.{String}
use oublie_pas_backend.Authentication.Accounts.{Texts, is_unset, normalize_email}
use oublie_pas_backend.Errors.{
  AppException, ok, err, app, invalid_or_expired_reset_code, same_password_as_before,
  account_disabled, too_many_verification_attempts, reset_code_expired, invalid_reset_code,
}
use oublie_pas_backend.Base.Sql.{update, exists, find}
use mathlib.Core.Path.{subst}
use oublie_pas_backend.Repositories.RefreshTokens.{revoke_all_for_user}
use mathlib.Core.Option.{none}
use oublie_pas_backend.Base.Sql.Laws.{find-update_other}

abbrev pub SameUsers : List User → Db → Type 0
SameUsers users db = db.users ≡ users

bump_attempts-SameUsers :
    (users : List User) (user_id : ℕ) (kind : VerificationKind)
    → Preserves (SameUsers users) (modify (bump_attempts user_id kind))
unfolding bump_attempts
bump_attempts-SameUsers users user_id kind db p =
    elim (Bool-cases (exists (is_attempt user_id kind) db.attempts)) [
      | inl e ↦ rw e p
      | inr e ↦ rw e p
    ]

check_otp-SameUsers :
    (users : List User) (h : String → String) (u : User) (kind : VerificationKind) (code : String)
    (expired invalid : AppException) (now : ℕ)
    → Preserves (SameUsers users) (check_otp h u kind code expired invalid now)
unfolding check_otp compare_otp
check_otp-SameUsers users h u kind code expired invalid now db =
    >>=-Preserves {P = SameUsers users}
      (raise_if (leb max_verification_attempts (attempts_of u.id kind db))
        too_many_verification_attempts)
      (λ _. modify (bump_attempts u.id kind) >>= λ _. compare_otp h u kind code expired invalid now)
      (raise_if-Preserves (SameUsers users) _ _)
      (λ _.
        >>=-Preserves {P = SameUsers users} (modify (bump_attempts u.id kind))
          (λ _. compare_otp h u kind code expired invalid now)
          (bump_attempts-SameUsers users u.id kind)
          (λ _.
            >>=-Preserves {P = SameUsers users}
              (raise_if (is_expired (code_columns kind u).1 now) expired)
              (λ _. raise_if (not (verify_otp h code (code_columns kind u).0)) invalid)
              (raise_if-Preserves (SameUsers users) _ _)
              (λ _. raise_if-Preserves (SameUsers users) _ _)))
      db

-- The first part of a sequence that returned, when it leaves the accounts.
pub passed :
    {A B : Type 0} (users : List User) (m : Action A) (f : A → Action B) (db : Db) (b : B)
    (after : Db)
    → Preserves (SameUsers users) m
    → SameUsers users db
    → (m >>= f) db ≡ (ok b, after)
    → (a : A) × (mid : Db) × SameUsers users mid × (f a mid ≡ (ok b, after))
passed users m f db b after h p e =
    let (a, mid, first, rest) = >>=-returns m f db b after e in
    (a, mid, subst (λ r. SameUsers users r.1) first (h db p), rest)

update_user-writes :
    (user_id : ℕ) (changes : User → User) (db : Db) (v : User) (after : Db)
    → update_user user_id changes db ≡ (ok v, after)
    → after.users ≡ update (λ w. w.id == user_id) changes db.users
unfolding update_user update_found
update_user-writes user_id changes db v after = go (get_user_by_id user_id db) refl
  where
    go :
        (found : Option User)
        → get_user_by_id user_id db ≡ found
        → update_user user_id changes db ≡ (ok v, after)
        → after.users ≡ update (λ w. w.id == user_id) changes db.users
    go none e q = absurd (let clash = ap (λ r. r.0) (rw (e, update_user) at q) in cc)
    go (some u) e q = elim (Bool-cases (exists (clashes (changes u)) db.users)) [
      | inl c ↦ absurd (let clash = ap (λ r. r.0) (rw (e, update_user, c) at q) in cc)
      | inr c ↦ sym (ap (λ r. r.1.users) (rw (e, update_user, c) at q))
    ]

module _ (p : Passwords) (s : Security) (code new : String) (now : ℕ) where
  reset_accepted-writes :
      (u : User) (db after : Db)
      → reset_accepted p new now u db ≡ (ok tt, after)
      → after.users ≡ update (λ w. w.id == u.id) (with_password (p.hash_password new)) db.users
  unfolding reset_accepted update_password clear_attempts revoke_all_for_user
  reset_accepted-writes u db after e =
      let (_, mid, same, rest) =
        passed db.users (raise_if (verify_password p u.password_hash new) same_password_as_before)
          (λ _. update_password u.id (p.hash_password new) >>= λ _.
            modify (clear_attempts u.id reset) >>= λ _. modify (revoke_all_for_user u.id now))
          db tt after (raise_if-Preserves (SameUsers db.users) _ _) refl e in
      let (v, written, first, last) =
        >>=-returns (update_password u.id (p.hash_password new))
          (λ _. modify (clear_attempts u.id reset) >>= λ _. modify (revoke_all_for_user u.id now))
          mid tt after rest in
      sym (ap (λ r. r.1.users) last)
      ∙ update_user-writes u.id (with_password (p.hash_password new)) mid v written first
      ∙ ap (update (λ w. w.id == u.id) (with_password (p.hash_password new))) same

  reset_found-writes :
      (u : User) (db after : Db)
      → reset_found p s code new now u db ≡ (ok tt, after)
      → after.users ≡ update (λ w. w.id == u.id) (with_password (p.hash_password new)) db.users
  unfolding reset_found
  reset_found-writes u db after e =
      let (_, a, same_a, rest_a) =
        passed db.users (raise_if (is_unset u.reset_code_hash) invalid_or_expired_reset_code)
          (λ _. raise_if (not u.is_active) account_disabled >>= λ _.
            check_otp s.hash_token u reset code reset_code_expired invalid_reset_code now >>= λ _.
            reset_accepted p new now u)
          db tt after (raise_if-Preserves (SameUsers db.users) _ _) refl e in
      let (_, b, same_b, rest_b) =
        passed db.users (raise_if (not u.is_active) account_disabled)
          (λ _.
            check_otp s.hash_token u reset code reset_code_expired invalid_reset_code now >>= λ _.
            reset_accepted p new now u)
          a tt after (raise_if-Preserves (SameUsers db.users) _ _) same_a rest_a in
      let (_, c, same_c, rest_c) =
        passed db.users
          (check_otp s.hash_token u reset code reset_code_expired invalid_reset_code now)
          (λ _. reset_accepted p new now u) b tt after
          (check_otp-SameUsers db.users s.hash_token u reset code reset_code_expired
            invalid_reset_code now)
          same_b rest_b in
      reset_accepted-writes u c after rest_c
      ∙ ap (update (λ w. w.id == u.id) (with_password (p.hash_password new))) same_c

  -- After it, the row that the address finds has no code.
  reset_found-spent :
      (address : String) (u : User) (db after : Db)
      → get_user_by_email address db ≡ some u
      → reset_found p s code new now u db ≡ (ok tt, after)
      → get_user_by_email address after ≡ some (with_password (p.hash_password new) u)
  unfolding get_user_by_email
  reset_found-spent address u db after found e =
      ap (find (λ w. w.email ≟ address)) (reset_found-writes u db after e)
      ∙ find-update_other (λ w. w.id == u.id) (λ w. w.email ≟ address)
          (with_password (p.hash_password new)) db.users u (λ w. refl) found
      ∙ (let self : (u.id == u.id) ≡ true = ground arith in rw self refl)

-- A code is for one reset: once a reset of the password of an address has returned, the next one for
-- the address is refused, whatever its code, its password and its time, and changes nothing, if no
-- other request has come in between.
pub reset_password-once :
    (t : Texts) (p : Passwords) (s : Security) (address code other new another : String)
    (now later : ℕ) (db after : Db)
    → reset_password t p s address code new now db ≡ (ok tt, after)
    → reset_password t p s address other another later after
      ≡ (err (app invalid_or_expired_reset_code), after)
unfolding reset_password reset_found
reset_password-once t p s address code other new another now later db after =
    go (get_user_by_email (normalize_email t address) db) refl
  where
    go :
        (found : Option User)
        → get_user_by_email (normalize_email t address) db ≡ found
        → reset_password t p s address code new now db ≡ (ok tt, after)
        → reset_password t p s address other another later after
          ≡ (err (app invalid_or_expired_reset_code), after)
    go none e q = absurd (let clash = ap (λ r. r.0) (rw (e, reset_password) at q) in cc)
    go (some u) e q =
        rw
          (
            reset_found-spent p s code new now (normalize_email t address) u db after e
                (rw (e, reset_password) at q),
            reset_password,
          )
          refl
