-- ===== src/Session.antt =====
-- The database as a value, and a request as a function on it. A call that raises still hands back
-- the rows that it wrote: whether they stay is decided where the session closes, in
-- core/database.py.
use oublie_pas_backend.Base.{List, Option, Bool, some, ℕ}
use oublie_pas_backend.Errors.{Result, ok, AppException, err, app}
use oublie_pas_backend.Models.Users.{User, RefreshToken, VerificationAttempt, PushSubscription}
use oublie_pas_backend.Models.Commitments.{
  Commitment, CommitmentOccurrence, OccurrenceReminder, WeeklyDigest,
}
use mathlib.Core.Option.{none}
use mathlib.Core.Bool.{true, false}

-- The tables. `next_id` stands for `uuid4`: an identifier that no row has.
pub record Db : Type 0 where
  pub users : List User
  pub refresh_tokens : List RefreshToken
  pub attempts : List VerificationAttempt
  pub subscriptions : List PushSubscription
  pub commitments : List Commitment
  pub occurrences : List CommitmentOccurrence
  pub reminders : List OccurrenceReminder
  pub digests : List WeeklyDigest
  pub next_id : ℕ

abbrev pub Action : Type 0 → Type 0
Action A = Db → Result A × Db

infixl 5 ◌>>=◌ ◌>>◌
abbrev pub ◌>>=◌ : {A B : Type 0} → Action A → (A → Action B) → Action B
◌>>=◌ m f db = let (r, db') = m db in elim r [ ok a ↦ f a db' | err e ↦ (err e, db') ]

abbrev pub ◌>>◌ : {A B : Type 0} → Action A → Action B → Action B
m >> k = m >>= λ _. k

module _ {A : Type 0} where
  abbrev pub pure : A → Action A
  pure a db = (ok a, db)

  abbrev pub raise : AppException → Action A
  raise e db = (err (app e), db)

  -- A read.
  abbrev pub gets : (Db → A) → Action A
  gets f db = (ok (f db), db)

  -- A write, with what it returns.
  abbrev pub modify : (Db → A × Db) → Action A
  modify f db = let (a, db') = f db in (ok a, db')

  -- A computation without state, which may raise.
  abbrev pub lift : Result A → Action A
  lift r db = (r, db)

  abbrev pub or_raise : Option A → AppException → Action A
  or_raise none e = raise e
  or_raise (some a) e = pure a

abbrev pub raise_if : Bool → AppException → Action (Unit {0})
raise_if true e = raise e
raise_if false e = pure tt

-- What a closing session keeps (`get_session`): the writes of a request that returned or raised
-- an exception of the application; after any other error, nothing.
unfoldable pub kept : {A : Type 0} → Db → Result A × Db → Db
kept before (ok _, after) = after
kept before (err (app _), after) = after
kept before (err _, after) = before

-- A request in its session.
unfoldable pub run_request : {A : Type 0} → Action A → Db → Result A × Db
unfolding kept
run_request request db = let (r, after) = request db in (r, kept db (r, after))
