-- ===== src/Authentication/Lockout.antt =====
-- The attempts at a code: each check costs one, whatever it finds.
use Prim.Native.String.{String}
use oublie_pas_backend.Models.Users.{
  User, VerificationKind, max_verification_attempts, verification_kind_beq_iff,
}
use oublie_pas_backend.Errors.{AppException, err, app, too_many_verification_attempts}
use oublie_pas_backend.Base.{
  ℕ, List, ◌∷◌, ◌≡◌, ◌<◌, ◌+◌, ◌≤◌, Bool-cases, leb, length, false, arith, inl, ap, inr, refl, ◌∙◌,
  true, ==_refl,
}
use oublie_pas_backend.Repositories.Attempts.{bump_attempts, attempts_of, is_attempt, bumped}
use oublie_pas_backend.Session.{run_request, Action, Db, kept, raise_if, modify, ◌>>=◌}
use oublie_pas_backend.Authentication.Codes.{
  compare_otp, check_otp, is_expired, code_columns, verify_otp,
}
use mathlib.Core.List.{[]}
use native.Mathlib.Decide.{dec_lt}
use oublie_pas_backend.Commitments.Requests.Calls.{>>=-ok, >>=-err}
use oublie_pas_backend.Base.Sql.{exists}
use oublie_pas_backend.Base.Sql.Laws.{find-exists, find-update, find-none, find-added}

module _ (hash_token : String → String) (u : User) (kind : VerificationKind)
    (expired invalid : AppException) where
  -- A check in its session: a code at an instant.
  unfoldable pub attempt : String × ℕ → Action (Unit {0})
  attempt (code, now) = run_request (check_otp hash_token u kind code expired invalid now)

  unfoldable pub attempt_all : List (String × ℕ) → Db → Db
  attempt_all [] db = db
  attempt_all (g ∷ gs) db = attempt_all gs (attempt g db).1

  bump_attempts-attempts_of :
      (db : Db)
      → attempts_of u.id kind (bump_attempts u.id kind db).1 ≡ attempts_of u.id kind db + 1
  unfolding bump_attempts attempts_of
  bump_attempts-attempts_of db = elim (Bool-cases (exists (is_attempt u.id kind) db.attempts)) [
    | inl e ↦
        let (a, found) = find-exists (is_attempt u.id kind) db.attempts e in
        rw (e, find-update (is_attempt u.id kind) bumped db.attempts (λ x. refl), found) refl
    | inr e ↦
        rw
          (
            e,
            find-none (is_attempt u.id kind) db.attempts e,
            find-added (is_attempt u.id kind) db.attempts
                (record { id = db.next_id; user_id = u.id; kind = kind; count = 1 }) e
                (ground (arith, ==_refl u.id, verification_kind_beq_iff kind kind)),
          )
          refl
  ]

  refused :
      (code : String) (now : ℕ) (db : Db)
      → max_verification_attempts ≤ attempts_of u.id kind db
      → attempt (code, now) db ≡ (err (app too_many_verification_attempts), db)
  unfolding attempt run_request check_otp kept
  refused code now db h =
      let tried = attempts_of u.id kind db in
      let full : leb max_verification_attempts tried ≡ true = ground arith in
      ap (λ r. (r.0, kept db r))
        (>>=-err (raise_if (leb max_verification_attempts tried) too_many_verification_attempts)
          (λ _. modify (bump_attempts u.id kind) >>= λ _.
            compare_otp hash_token u kind code expired invalid now)
          db (app too_many_verification_attempts) db (rw full refl))

  compared :
      (code : String) (now : ℕ) (before db : Db)
      → kept before (compare_otp hash_token u kind code expired invalid now db) ≡ db
  unfolding compare_otp kept
  compared code now before db = elim (Bool-cases (is_expired (code_columns kind u).1 now)) [
    | inl e ↦ rw e refl
    | inr e ↦ elim (Bool-cases (verify_otp hash_token code (code_columns kind u).0)) [
      | inl f ↦ rw (e, f) refl
      | inr f ↦ rw (e, f) refl
    ]
  ]

  counted :
      (code : String) (now : ℕ) (db : Db)
      → attempts_of u.id kind db < max_verification_attempts
      → attempts_of u.id kind (attempt (code, now) db).1 ≡ attempts_of u.id kind db + 1
  unfolding attempt run_request check_otp
  counted code now db h =
      let tried = attempts_of u.id kind db in
      let low : leb max_verification_attempts tried ≡ false = ground arith in
      let runs : check_otp hash_token u kind code expired invalid now db
          ≡ compare_otp hash_token u kind code expired invalid now (bump_attempts u.id kind db).1 =
        >>=-ok (raise_if (leb max_verification_attempts tried) too_many_verification_attempts)
          (λ _. modify (bump_attempts u.id kind) >>= λ _.
            compare_otp hash_token u kind code expired invalid now)
          db tt db (rw low refl) in
      ap (λ r. attempts_of u.id kind (kept db r)) runs
      ∙ ap (attempts_of u.id kind) (compared code now db (bump_attempts u.id kind db).1)
      ∙ bump_attempts-attempts_of db

  reaches_limit :
      (gs : List (String × ℕ)) (db : Db)
      → max_verification_attempts ≤ length gs + attempts_of u.id kind db
      → max_verification_attempts ≤ attempts_of u.id kind (attempt_all gs db)
  unfolding attempt_all
  reaches_limit [] db h = omega (arith, h)
  reaches_limit ((code, now) ∷ gs) db h =
      elim (dec_lt (attempts_of u.id kind db) max_verification_attempts) [
        | yes p ↦ reaches_limit gs (attempt (code, now) db).1 (omega (arith, counted code now db p))
        | no p ↦
            let same = ap (λ r. r.1) (refused code now db (omega arith)) in
            reaches_limit gs (attempt (code, now) db).1 (rw same (omega arith))
      ]

-- Once as many checks of a code were made as the limit of attempts allows, with whatever codes and
-- outcomes, every further check is refused and changes nothing, even with the right code.
pub attempt_all-max_verification_attempts :
    (hash_token : String → String) (u : User) (kind : VerificationKind)
    (expired invalid : AppException) (gs : List (String × ℕ)) (code : String) (now : ℕ) (db : Db)
    → max_verification_attempts ≤ length gs + attempts_of u.id kind db
    → attempt hash_token u kind expired invalid
        (code, now)
        (attempt_all hash_token u kind expired invalid gs db)
      ≡ (
        err (app too_many_verification_attempts),
        attempt_all hash_token u kind expired invalid gs db,
      )
attempt_all-max_verification_attempts hash_token u kind expired invalid gs code now db h =
    refused hash_token u kind expired invalid code now _
      (reaches_limit hash_token u kind expired invalid gs db h)
