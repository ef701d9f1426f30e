-- ===== src/Authentication/Quota.antt =====
-- The quota of codes: five within an hour, whatever they are for.
use oublie_pas_backend.Base.{
  ℕ, Option, List, ◌∷◌, ◌+◌, some, ◌≡◌, false, ◌⊎◌, Bool-cases, inl, inr, true, ◌∙◌, sym, refl, ◌≟◌,
  string_eq, ◌==◌, Bool, ap, ◌≤◌, All, ◌<◌, arith, ltb,
}
use oublie_pas_backend.Errors.{
  err, ok, Result, app, integrity_error, runtime_error, too_many_code_requests, Error,
}
use oublie_pas_backend.Models.Users.{User, VerificationKind, verification, reset, email_change}
use oublie_pas_backend.Session.{Action, Db, run_request, kept, pure, ◌>>=◌, raise_if}
use oublie_pas_backend.Commitments.Requests.Calls.{>>=-ok, >>=-err}
use oublie_pas_backend.Authentication.Issue.{
  Draw, send_verification_otp, with_code, issue, compute_resend_count, write_code, send_reset_otp,
  send_code, send_email_change_otp, resend_limited, clear_for, write_by_email, write_by_id,
  max_resend_per_hour,
}
use Prim.Native.String.{String}
use oublie_pas_backend.Repositories.Attempts.{get_user_by_id, clear_attempts}
use mathlib.Core.Option.{none}
use mathlib.Core.List.{[]}
use mathlib.Core.Path.{subst}
use oublie_pas_backend.Repositories.Users.{update_user, update_user_by_email, update_found, clashes}
use oublie_pas_backend.Base.Sql.{update, exists}
use oublie_pas_backend.Base.Sql.Laws.{find-holds, find-update_other}

abbrev address_of : Option User → String
address_of none = ""
address_of (some u) = u.email

-- A code of a kind for an account, as the services ask for it, in its session.
unfoldable pub ask_code : VerificationKind → ℕ → Draw → Action (Unit {0})
ask_code verification user_id d db =
    run_request (send_verification_otp user_id (get_user_by_id user_id db) d) db
ask_code reset user_id d db =
    run_request
      (send_reset_otp (address_of (get_user_by_id user_id db)) (get_user_by_id user_id db) d) db
ask_code email_change user_id d db =
    run_request (send_email_change_otp user_id (get_user_by_id user_id db) d) db

abbrev pub returned : Result (Unit {0}) → ℕ
returned (ok _) = 1
returned (err _) = 0

-- The number of requests that return, each with its code sent.
unfoldable pub codes_sent : ℕ → List (VerificationKind × Draw) → Db → ℕ
unfolding ask_code
codes_sent user_id [] db = 0
codes_sent user_id ((kind, d) ∷ asks) db =
    let (result, after) = ask_code kind user_id d db in
    returned result + codes_sent user_id asks after

-- The columns that a code leaves, and those that it counts by.
code_kept :
    (kind : VerificationKind) (d : Draw) (n : ℕ) (u : User)
    → ((with_code kind d n u).id ≡ u.id)
      × ((with_code kind d n u).last_code_sent_at ≡ some d.now)
      × ((with_code kind d n u).code_resend_count ≡ n)
unfolding with_code
code_kept verification d n u = (refl, refl, refl)
code_kept reset d n u = (refl, refl, refl)
code_kept email_change d n u = (refl, refl, refl)

module _ (kind : VerificationKind) (user_id : ℕ) (u : User) (d : Draw) where
  written : User → User
  written = with_code kind d (compute_resend_count u d.now)

  -- A request that fails leaves the account as it was; one that returns was not limited, and counts.
  data Asked (db : Db) : Result (Unit {0}) × Db → Type 0 where
    refused_code :
        {e : Error} {after : Db} → get_user_by_id user_id after ≡ some u → Asked db (err e, after)
    sent_code :
        {after : Db}
        → resend_limited u d.now ≡ false
        → get_user_by_id user_id after ≡ some (written u)
        → Asked db (ok tt, after)

  module _ (owner : ℕ) (write : (User → User) → Action (Unit {0})) (db : Db) where
    limited_issue :
        resend_limited u d.now ≡ true
        → issue kind (some owner) (some u) d write db ≡ (err (app too_many_code_requests), db)
    unfolding issue written
    limited_issue t =
        >>=-err (raise_if (resend_limited u d.now) too_many_code_requests)
          (λ _. write_code kind (some owner) d (write written)) db (app too_many_code_requests) db
          (rw t refl)

    free_issue :
        resend_limited u d.now ≡ false
        → issue kind (some owner) (some u) d write db
          ≡ write_code kind (some owner) d (write written) db
    unfolding issue written
    free_issue f =
        >>=-ok (raise_if (resend_limited u d.now) too_many_code_requests)
          (λ _. write_code kind (some owner) d (write written)) db tt db (rw f refl)

    clashing_write :
        write written db ≡ (err integrity_error, db)
        → write_code kind (some owner) d (write written) db ≡ (err integrity_error, db)
    unfolding write_code
    clashing_write e =
        >>=-err (write written) (λ _. clear_for kind (some owner) >>= λ _. send_code d.takes_mail)
          db integrity_error db e

    done_write :
        (after : Db)
        → write written db ≡ (ok tt, after)
        → write_code kind (some owner) d (write written) db
          ≡ send_code d.takes_mail (clear_attempts owner kind after).1
    unfolding write_code
    done_write after e =
        >>=-ok (write written) (λ _. clear_for kind (some owner) >>= λ _. send_code d.takes_mail) db
          tt after e

    asked :
        (r : Result (Unit {0}) × Db)
        → issue kind (some owner) (some u) d write db ≡ r
        → Asked db (r.0, kept db r)
        → Asked db (run_request (issue kind (some owner) (some u) d write) db)
    unfolding run_request
    asked r e h = subst (λ q. Asked db (q.0, kept db q)) (sym e) h

    issue-Asked :
        get_user_by_id user_id db ≡ some u
        → (write written db ≡ (err integrity_error, db))
          ⊎ ((after : Db) × (write written db ≡ (ok tt, after))
              × (get_user_by_id user_id after ≡ some (written u)))
        → Asked db (run_request (issue kind (some owner) (some u) d write) db)
    unfolding kept send_code clear_attempts get_user_by_id
    issue-Asked found outcome = elim (Bool-cases (resend_limited u d.now)) [
      | inl t ↦ asked _ (limited_issue t) (refused_code found)
      | inr f ↦ elim outcome [
        | inl e ↦ asked _ (free_issue f ∙ clashing_write e) (refused_code found)
        | inr (after, e, g) ↦ elim (Bool-cases d.takes_mail) [
          | inl y ↦
              asked (ok tt, (clear_attempts owner kind after).1)
                (free_issue f ∙ done_write after e ∙ rw y refl) (sent_code f g)
          | inr n ↦
              asked (err runtime_error, (clear_attempts owner kind after).1)
                (free_issue f ∙ done_write after e ∙ rw n refl) (refused_code found)
        ]
      ]
    ]

  rewritten :
      (p : User → Bool) (db : Db)
      → get_user_by_id user_id db ≡ some u
      → p u ≡ true
      → get_user_by_id user_id (record db { users = update p written db.users }) ≡ some (written u)
  unfolding get_user_by_id written
  rewritten p db found t =
      find-update_other p (λ v. v.id == user_id) written db.users u
        (λ y. ap (λ x. x == user_id) (code_kept kind d (compute_resend_count u d.now) y).0) found
      ∙ rw t refl

  -- A write by the identifier, and one by the address that the account has.
  by_id_outcome :
      (db : Db)
      → get_user_by_id user_id db ≡ some u
      → (write_by_id user_id written db ≡ (err integrity_error, db))
        ⊎ ((after : Db) × (write_by_id user_id written db ≡ (ok tt, after))
            × (get_user_by_id user_id after ≡ some (written u)))
  unfolding update_user update_found get_user_by_id
  by_id_outcome db found = elim (Bool-cases (exists (clashes (written u)) db.users)) [
    | inl c ↦ inl (
        >>=-err (update_user user_id written) (λ _. pure tt) db integrity_error db
          (rw (found, update_user, c) refl))
    | inr c ↦
        let after = record db { users = update (λ v. v.id == user_id) written db.users } in
        inr (
          after,
          >>=-ok (update_user user_id written) (λ _. pure tt) db (written u) after
              (rw (found, update_user, c) refl),
          rewritten (λ v. v.id == user_id) db found
              (find-holds (λ v. v.id == user_id) db.users u found),
        )
  ]

  by_address_outcome :
      (db : Db)
      → get_user_by_id user_id db ≡ some u
      → (write_by_email u.email written db ≡ (err integrity_error, db))
        ⊎ ((after : Db) × (write_by_email u.email written db ≡ (ok tt, after))
            × (get_user_by_id user_id after ≡ some (written u)))
  unfolding update_user_by_email
  by_address_outcome db found = inr (
    record db { users = update (λ v. v.email ≟ u.email) written db.users },
    refl,
    rewritten (λ v. v.email ≟ u.email) db found ((string_eq.beq_iff u.email u.email).1 refl),
  )

ask_code-Asked :
    (kind : VerificationKind) (user_id : ℕ) (u : User) (d : Draw) (db : Db)
    → get_user_by_id user_id db ≡ some u
    → Asked kind user_id u d db (ask_code kind user_id d db)
unfolding ask_code send_verification_otp send_reset_otp send_email_change_otp
ask_code-Asked verification user_id u d db found =
    rw (found, ask_code)
      (issue-Asked verification user_id u d user_id (write_by_id user_id) db found
        (by_id_outcome verification user_id u d db found))
ask_code-Asked reset user_id u d db found =
    rw (found, ask_code)
      (issue-Asked reset user_id u d u.id (write_by_email u.email) db found
        (by_address_outcome reset user_id u d db found))
ask_code-Asked email_change user_id u d db found =
    rw (found, ask_code)
      (issue-Asked email_change user_id u d user_id (write_by_id user_id) db found
        (by_id_outcome email_change user_id u d db found))

-- `n` codes were sent since the instant `start`.
abbrev SentSince : ℕ → ℕ → User → Type 0
SentSince start n u =
    (n ≡ 0) ⊎ ((t : ℕ) × (u.last_code_sent_at ≡ some t) × (start ≤ t) × (n ≤ u.code_resend_count))

-- The instants of the requests lie within an hour from `start` on.
abbrev pub AreWithinHour : ℕ → List (VerificationKind × Draw) → Type 0
AreWithinHour start asks = All (λ a. (start ≤ a.1.now) × (a.1.now < start + 3_600)) asks

more_sent :
    (kind : VerificationKind) (d : Draw) (start n : ℕ) (u : User)
    → (start ≤ d.now) × (d.now < start + 3_600)
    → n ≤ max_resend_per_hour
    → SentSince start n u
    → resend_limited u d.now ≡ false
    → (n + 1 ≤ max_resend_per_hour)
      × SentSince start (n + 1) (with_code kind d (compute_resend_count u d.now) u)
unfolding resend_limited compute_resend_count
more_sent kind d start n u time few (inl z) f =
    let (_, last, counts) = code_kept kind d (compute_resend_count u d.now) u in
    (ground (arith, z), inr (d.now, last, time.0, ground (arith, z, counts)))
more_sent kind d start n u time few (inr (t, sent, since, low)) f =
    let (_, last, counts) = code_kept kind d (compute_resend_count u d.now) u in
    let lately : ltb d.now (t + 3_600) ≡ true = ground (arith, time.1) in
    (
      ground (arith, sent, lately, f, low),
      inr (d.now, last, time.0, ground (arith, sent, lately, counts, low)),
    )

codes_sent-le :
    (user_id start n : ℕ) (asks : List (VerificationKind × Draw)) (u : User) (db : Db)
    → get_user_by_id user_id db ≡ some u
    → AreWithinHour start asks
    → n ≤ max_resend_per_hour
    → SentSince start n u
    → n + codes_sent user_id asks db ≤ max_resend_per_hour
unfolding codes_sent written
codes_sent-le user_id start n [] u db found times few h = omega (arith, few)
codes_sent-le user_id start n ((kind, d) ∷ asks) u db found times few h =
    counted (ask_code kind user_id d db) (ask_code-Asked kind user_id u d db found)
      (λ m v after. codes_sent-le user_id start m asks v after)
  where
    counted :
        (r : Result (Unit {0}) × Db)
        → Asked kind user_id u d db r
        → ((m : ℕ) (v : User) (after : Db)
            → get_user_by_id user_id after ≡ some v
            → AreWithinHour start asks
            → m ≤ max_resend_per_hour
            → SentSince start m v
            → m + codes_sent user_id asks after ≤ max_resend_per_hour)
        → n + (returned r.0 + codes_sent user_id asks r.1) ≤ max_resend_per_hour
    counted (err e, after) (refused_code same) ih = omega (arith, ih n u after same times.1 few h)
    counted (ok _, after) (sent_code free same) ih =
        let (room, more) = more_sent kind d start n u times.0 few h free in
        omega (arith, ih (n + 1) _ after same times.1 room more)

-- Within an hour, whatever the order of the requests and whatever they are for: the requests for a
-- code of an account that return, each of them with a mail, are five at most. Requests in between that
-- change the account in another way are left out.
pub codes_sent-max_resend_per_hour :
    (user_id start : ℕ) (asks : List (VerificationKind × Draw)) (u : User) (db : Db)
    → get_user_by_id user_id db ≡ some u
    → AreWithinHour start asks
    → codes_sent user_id asks db ≤ max_resend_per_hour
codes_sent-max_resend_per_hour user_id start asks u db found times =
    omega (arith, codes_sent-le user_id start 0 asks u db found times (omega arith) (inl refl))
