-- ===== src/Authentication/Failures.antt =====
-- The lockout of logins after too many failures.
use oublie_pas_backend.Authentication.Login.{
  Passwords, login_user, login_found, next_failure_count, login_locked, verify_password,
  max_login_attempts_per_hour, login_window,
}
use oublie_pas_backend.Authentication.Tokens.{Security, Tokens}
use Prim.Native.String.{String}
use oublie_pas_backend.Base.{
  ℕ, List, Option, ◌∷◌, ◌≡◌, ◌≤◌, suc, All, false, some, ◌<◌, true, Bool-cases, length, ◌+◌, none,
  ap, inl, ◌⊎◌, ◌∙◌, inr, min, arith, refl, ltb, leb, ◌==◌, ◌≟◌, ==_refl, string_eq,
}
use oublie_pas_backend.Session.{Action, Db, run_request, kept, or_raise}
use oublie_pas_backend.Repositories.Attempts.{record_failed_login, get_user_by_email, failed}
use oublie_pas_backend.Models.Users.{User}
use mathlib.Core.List.{[]}
use oublie_pas_backend.Errors.{err, app, invalid_credentials}
use oublie_pas_backend.Commitments.Requests.Calls.{>>=-ok}
use mathlib.Core.Path.{subst}
use oublie_pas_backend.Base.Sql.Laws.{find-update_other}

module _ (p : Passwords) (s : Security) (email fresh : String) (expire_days : ℕ) where
  -- A login in its session: a password at an instant.
  unfoldable pub login : String × ℕ → Action Tokens
  login (plain, now) = run_request (login_user p s email plain fresh expire_days now)

  unfoldable pub login_all : List (String × ℕ) → Db → Db
  unfolding login
  login_all [] db = db
  login_all (g ∷ gs) db = login_all gs (login g db).1

  -- A wrong password within the hour that starts at `a`.
  abbrev pub IsWrong : Option String → ℕ → String × ℕ → Type 0
  IsWrong hashed a (plain, now) =
      (verify_password p hashed plain ≡ false) × (a ≤ now) × (now < a + login_window)

  -- The account after `n` failures in that hour.
  record HasFailed (hashed : Option String) (a n : ℕ) (db : Db) : Type 0 where
    user : User
    found : get_user_by_email email db ≡ some user
    same_hash : user.password_hash ≡ hashed
    failures :
        ((user.last_failed_login_at ≡ none) × (n ≡ 0))
        ⊎ ((t : ℕ) × (user.last_failed_login_at ≡ some t)
            × (a ≤ t)
            × (min n max_login_attempts_per_hour ≤ user.failed_login_count))

  reaches_user :
      (plain : String) (now : ℕ) (db : Db) (u : User)
      → get_user_by_email email db ≡ some u
      → login (plain, now) db ≡ run_request (login_found p s plain fresh expire_days now u) db
  unfolding login login_user run_request
  reaches_user plain now db u e =
      ap (λ r. (r.0, kept db r))
        (>>=-ok (or_raise (get_user_by_email email db) invalid_credentials)
          (login_found p s plain fresh expire_days now) db u db (rw e refl))

  locked_out :
      (plain : String) (now : ℕ) (db : Db) (u : User)
      → get_user_by_email email db ≡ some u
      → login_locked u now ≡ true
      → login (plain, now) db ≡ (err (app invalid_credentials), db)
  unfolding login_found run_request kept
  locked_out plain now db u e locked = reaches_user plain now db u e ∙ rw locked refl

  recorded :
      (plain : String) (now : ℕ) (db : Db) (u : User)
      → get_user_by_email email db ≡ some u
      → login_locked u now ≡ false
      → verify_password p u.password_hash plain ≡ false
      → (login (plain, now) db).1 ≡ (record_failed_login u.id (next_failure_count u now) now db).1
  unfolding login_found run_request kept
  recorded plain now db u e free wrong =
      ap (λ r. r.1) (reaches_user plain now db u e) ∙ rw (free, wrong) refl

  counted_up :
      (u : User) (a n now : ℕ)
      → a ≤ now
      → now < a + login_window
      → ((u.last_failed_login_at ≡ none) × (n ≡ 0))
        ⊎ ((t : ℕ) × (u.last_failed_login_at ≡ some t)
            × (a ≤ t)
            × (min n max_login_attempts_per_hour ≤ u.failed_login_count))
      → min (suc n) max_login_attempts_per_hour ≤ next_failure_count u now
  unfolding next_failure_count
  counted_up u a n now le lt (inl (e, z)) = rw e (omega (arith, z))
  counted_up u a n now le lt (inr (t, e, f, g)) =
      let recent : ltb now (t + login_window) ≡ true = ground arith in
      rw (e, recent) (omega (arith, g))

  stays_locked :
      (u : User) (a n now : ℕ)
      → login_locked u now ≡ true
      → ((u.last_failed_login_at ≡ none) × (n ≡ 0))
        ⊎ ((t : ℕ) × (u.last_failed_login_at ≡ some t)
            × (a ≤ t)
            × (min n max_login_attempts_per_hour ≤ u.failed_login_count))
      → ((u.last_failed_login_at ≡ none) × (suc n ≡ 0))
        ⊎ ((t : ℕ) × (u.last_failed_login_at ≡ some t)
            × (a ≤ t)
            × (min (suc n) max_login_attempts_per_hour ≤ u.failed_login_count))
  unfolding login_locked
  stays_locked u a n now locked (inl (e, z)) = absurd (ground (arith, e, locked))
  stays_locked u a n now locked (inr (t, e, f, g)) = inr (t, e, f, ground (arith, locked))

  is_locked :
      (u : User) (a n now : ℕ)
      → max_login_attempts_per_hour ≤ n
      → now < a + login_window
      → ((u.last_failed_login_at ≡ none) × (n ≡ 0))
        ⊎ ((t : ℕ) × (u.last_failed_login_at ≡ some t)
            × (a ≤ t)
            × (min n max_login_attempts_per_hour ≤ u.failed_login_count))
      → login_locked u now ≡ true
  unfolding login_locked
  is_locked u a n now many lt (inl (e, z)) = absurd (omega (arith, z))
  is_locked u a n now many lt (inr (t, e, f, g)) =
      let recent : ltb now (t + login_window) ≡ true = ground arith in
      let enough : leb max_login_attempts_per_hour u.failed_login_count ≡ true =
        ground (arith, g) in
      rw (e, recent, enough) refl

  fails :
      (hashed : Option String) (a n : ℕ) (plain : String) (now : ℕ) (db : Db)
      → IsWrong hashed a (plain, now)
      → HasFailed hashed a n db
      → HasFailed hashed a (suc n) (login (plain, now) db).1
  unfolding record_failed_login get_user_by_email
  fails hashed a n plain now db (wrong, le, lt) h =
      let u = h.user in
      elim (Bool-cases (login_locked u now)) [
        | inl locked ↦ rw (ap (λ r. r.1) (locked_out plain now db u h.found locked)) (record {
          user = u;
          found = h.found;
          same_hash = h.same_hash;
          failures = stays_locked u a n now locked h.failures;
        })
        | inr free ↦
            let e = recorded plain now db u h.found free (rw h.same_hash wrong) in
            rw e (record {
              user = failed (next_failure_count u now) now u;
              found =
                  find-update_other (λ x. x.id == u.id) (λ x. x.email ≟ email)
                    (failed (next_failure_count u now) now) db.users u (λ y. refl) h.found
                  ∙ rw (==_refl u.id) refl;
              same_hash = h.same_hash;
              failures = inr (now, refl, le, counted_up u a n now le lt h.failures);
            })
      ]

  accumulate :
      (hashed : Option String) (a n : ℕ) (gs : List (String × ℕ)) (db : Db)
      → All (IsWrong hashed a) gs
      → HasFailed hashed a n db
      → HasFailed hashed a (length gs + n) (login_all gs db)
  unfolding login_all
  accumulate hashed a n [] db w h = subst (λ m. HasFailed hashed a m db) (omega arith) h
  accumulate hashed a n ((plain, now) ∷ gs) db w h =
      subst (λ m. HasFailed hashed a m (login_all ((plain, now) ∷ gs) db)) (omega arith)
        (accumulate hashed a (suc n) gs (login (plain, now) db).1 w.1
          (fails hashed a n plain now db w.0 h))

-- An account without an earlier failure, after twenty or more logins with wrong passwords within an
-- hour: every further login within that hour is refused and changes nothing, even with the right
-- password.
pub login_all-max_login_attempts :
    (p : Passwords) (s : Security) (email fresh : String) (expire_days : ℕ) (a : ℕ)
    (gs : List (String × ℕ)) (plain : String) (now : ℕ) (db : Db) (u : User)
    → get_user_by_email email db ≡ some u
    → u.last_failed_login_at ≡ none
    → max_login_attempts_per_hour ≤ length gs
    → All (IsWrong p s email fresh expire_days u.password_hash a) gs
    → now < a + login_window
    → login p s email fresh expire_days (plain, now) (login_all p s email fresh expire_days gs db)
      ≡ (err (app invalid_credentials), login_all p s email fresh expire_days gs db)
login_all-max_login_attempts p s email fresh expire_days a gs plain now db u found none_yet many
      wrong lt =
    let h =
      accumulate p s email fresh expire_days u.password_hash a 0 gs db wrong
        (record { user = u; found = found; same_hash = refl; failures = inl (none_yet, refl) }) in
    locked_out p s email fresh expire_days plain now _ h.user h.found (
      is_locked p s email fresh expire_days h.user a (length gs + 0) now (omega arith) lt
        h.failures)
