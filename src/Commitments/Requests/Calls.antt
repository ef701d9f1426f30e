-- ===== src/Commitments/Requests/Calls.antt =====
-- How calls compose, and what a session keeps of them.
-- A property of the database after a call, by what the first part of the call returned.
use oublie_pas_backend.Session.{Db, Action, run_request, ◌>>=◌, or_raise, raise_if, kept}
use oublie_pas_backend.Base.{Option, Bool, ◌≡◌, some, refl, sym, ap}
use oublie_pas_backend.Errors.{
  AppException, Result, ok, err, app, overflow_error, value_error, key_error, runtime_error,
  integrity_error, no_result_found, stuck, Error, index_error, operational_error,
}
use mathlib.Core.Path.{subst}
use mathlib.Core.Bool.{true, false}
use mathlib.Core.Option.{none}

pub >>=-after :
    {A B : Type 0} (P : Db → Type 0) (m : Action A) (f : A → Action B) (db : Db)
    → P (m db).1
    → ((a : A) (after : Db) → m db ≡ (ok a, after) → P (f a after).1)
    → P ((m >>= f) db).1
>>=-after {A} {B} P m f db stops goes = go (m db) refl stops
  where
    go :
        (r : Result A × Db)
        → m db ≡ r
        → P r.1
        → P (elim r.0 as (λ _. Result B × Db) [ ok a ↦ f a r.1 | err e ↦ (err e, r.1) ]).1
    go (ok a, after) e q = goes a after e
    go (err x, after) e q = q

-- What follows a call that returned.
pub >>=-ok :
    {A B : Type 0} (m : Action A) (f : A → Action B) (db : Db) (a : A) (after : Db)
    → m db ≡ (ok a, after)
    → (m >>= f) db ≡ f a after
>>=-ok {A} {B} m f db a after = go (m db)
  where
    go :
        (r : Result A × Db)
        → r ≡ (ok a, after)
        → Path
            (Result B × Db)
            (elim r.0 as (λ _. Result B × Db) [ ok a ↦ f a r.1 | err e ↦ (err e, r.1) ])
            (f a after)
    go r e =
        subst
          (λ q.
            Path (Result B × Db)
              (elim q.0 as (λ _. Result B × Db) [ ok a ↦ f a q.1 | err e ↦ (err e, q.1) ])
              (f a after))
          (sym e) refl

pub >>=-err :
    {A B : Type 0} (m : Action A) (f : A → Action B) (db : Db) (x : Error) (after : Db)
    → m db ≡ (err x, after)
    → (m >>= f) db ≡ (err x, after)
>>=-err {A} {B} m f db x after = go (m db)
  where
    go :
        (r : Result A × Db)
        → r ≡ (err x, after)
        → Path
            (Result B × Db)
            (elim r.0 as (λ _. Result B × Db) [ ok a ↦ f a r.1 | err e ↦ (err e, r.1) ])
            (err x, after)
    go r e =
        subst
          (λ q.
            Path (Result B × Db)
              (elim q.0 as (λ _. Result B × Db) [ ok a ↦ f a q.1 | err e ↦ (err e, q.1) ])
              (err x, after))
          (sym e) refl

-- A sequence that returned did so after its first part.
pub >>=-returns :
    {A B : Type 0} (m : Action A) (f : A → Action B) (db : Db) (b : B) (after : Db)
    → (m >>= f) db ≡ (ok b, after)
    → (a : A) × (mid : Db) × (m db ≡ (ok a, mid)) × (f a mid ≡ (ok b, after))
>>=-returns {A} {B} m f db b after = go (m db) refl
  where
    go :
        (r : Result A × Db)
        → m db ≡ r
        → Path
            (Result B × Db)
            (elim r.0 as (λ _. Result B × Db) [ ok a ↦ f a r.1 | err e ↦ (err e, r.1) ])
            (ok b, after)
        → (a : A) × (mid : Db) × (m db ≡ (ok a, mid)) × (f a mid ≡ (ok b, after))
    go (ok a, mid) e q = (a, mid, e, q)
    go (err x, mid) e q = absurd (let clash = ap (λ s. s.0) q in cc)

-- A call that keeps a property of the database, whether it returns or raises.
abbrev pub Preserves : (Db → Type 0) → {A : Type 0} → Action A → Type 0
Preserves P m = (db : Db) → P db → P (m db).1

module _ {P : Db → Type 0} where
  pub >>=-Preserves :
      {A B : Type 0} (m : Action A) (f : A → Action B)
      → Preserves P m
      → ((a : A) → Preserves P (f a))
      → Preserves P (m >>= f)
  >>=-Preserves m f h k db p =
      >>=-after P m f db (h db p) (λ a after e. k a after (subst (λ r. P r.1) e (h db p)))

  -- A session keeps what the call wrote, or what was there before.
  pub run_request-Preserves :
      {A : Type 0} (m : Action A) → Preserves P m → Preserves P (run_request m)
  unfolding run_request
  run_request-Preserves {A} m h db p = go (m db) (h db p)
    where
      go : (r : Result A × Db) → P r.1 → P (kept db r)
      go (ok a, after) q = q
      go (err (app e), after) q = q
      go (err overflow_error, after) q = p
      go (err value_error, after) q = p
      go (err key_error, after) q = p
      go (err index_error, after) q = p
      go (err operational_error, after) q = p
      go (err runtime_error, after) q = p
      go (err integrity_error, after) q = p
      go (err no_result_found, after) q = p
      go (err stuck, after) q = p

module _ (P : Db → Type 0) where
  pub or_raise-Preserves :
      {A : Type 0} (o : Option A) (e : AppException) → Preserves P (or_raise o e)
  or_raise-Preserves none e db p = p
  or_raise-Preserves (some a) e db p = p

  pub raise_if-Preserves : (b : Bool) (e : AppException) → Preserves P (raise_if b e)
  raise_if-Preserves true e db p = p
  raise_if-Preserves false e db p = p
