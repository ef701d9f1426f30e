-- ===== src/Repositories/RefreshTokens.antt =====
-- repositories/refresh_token_repository.py: the rows of `refresh_tokens`.
use oublie_pas_backend.Base.{
  ℕ, Option, Bool, false, true, ltb, ◌≟◌, ◌&&◌, ◌==◌, none, some, ◌+◌, not, ◌*◌, if◌then◌else◌,
  string_eq, ◌++◌, ◌∷◌, [],
}
use Prim.Native.String.{String}
use oublie_pas_backend.Models.Users.{RefreshToken}
use oublie_pas_backend.Session.{Action, Db}
use oublie_pas_backend.Base.Sql.{find, update, exists, count, delete}
use oublie_pas_backend.Calendar.{seconds_per_day}
use oublie_pas_backend.Errors.{err, integrity_error, ok}

abbrev pub purge_grace_days : ℕ
purge_grace_days = 7

abbrev pub has_hash : String → RefreshToken → Bool
has_hash token_hash t = t.token_hash ≟ token_hash

abbrev pub is_live_hash : String → RefreshToken → Bool
is_live_hash token_hash t = has_hash token_hash t && not t.revoked

abbrev pub is_live_of : ℕ → RefreshToken → Bool
is_live_of user_id t = t.user_id == user_id && not t.revoked

-- The constraint on `token_hash` refuses a second row with one hash.
unfoldable pub create_token : ℕ → String → ℕ → Action RefreshToken
create_token user_id token_hash expires_at db =
    let row : RefreshToken = record {
      id = db.next_id;
      user_id = user_id;
      token_hash = token_hash;
      expires_at = expires_at;
      revoked = false;
      revoked_at = none;
    } in
    if exists (has_hash token_hash) db.refresh_tokens then (err integrity_error, db) else (
      ok row,
      record db { refresh_tokens = db.refresh_tokens ++ (row ∷ []); next_id = db.next_id + 1 },
    )

unfoldable pub get_by_token_hash : String → Db → Option RefreshToken
get_by_token_hash token_hash db = find (is_live_hash token_hash) db.refresh_tokens

unfoldable pub get_any_by_token_hash : String → Db → Option RefreshToken
get_any_by_token_hash token_hash db = find (has_hash token_hash) db.refresh_tokens

abbrev pub revoked_at_time : ℕ → RefreshToken → RefreshToken
revoked_at_time now t = record t { revoked = true; revoked_at = some now }

unfoldable pub revoke : String → ℕ → Db → Unit {0} × Db
revoke token_hash now db = (
  tt,
  record db {
    refresh_tokens = update (is_live_hash token_hash) (revoked_at_time now) db.refresh_tokens;
  },
)

unfoldable pub revoke_all_for_user : ℕ → ℕ → Db → Unit {0} × Db
revoke_all_for_user user_id now db = (
  tt,
  record db {
    refresh_tokens = update (is_live_of user_id) (revoked_at_time now) db.refresh_tokens;
  },
)

-- The number of rows that go; the cutoff is `now` less the days of grace.
unfoldable pub purge_expired : ℕ → ℕ → Db → ℕ × Db
purge_expired grace_days now db =
    let p = λ (t : RefreshToken). ltb (t.expires_at + grace_days * seconds_per_day) now in
    (count p db.refresh_tokens, record db { refresh_tokens = delete p db.refresh_tokens })
