-- ===== src/Authentication/Tokens.antt =====
-- services/authentication: issue_tokens of tokens.py, and refresh_access_token and logout_user of
-- email_password.py.
use oublie_pas_backend.Base.{
  Option, ℕ, Bool, false, some, if◌then◌else◌, ◌+◌, ◌*◌, ltb, not, ◌≟◌, ◌==◌, string_eq,
}
use Prim.Native.String.{String}
use oublie_pas_backend.Models.Users.{RefreshToken, User}
use oublie_pas_backend.Session.{Action, modify, raise, gets, ◌>>◌, raise_if, ◌>>=◌, pure, or_raise}
use oublie_pas_backend.Repositories.RefreshTokens.{
  create_token, revoke, revoke_all_for_user, get_any_by_token_hash, get_by_token_hash,
}
use oublie_pas_backend.Errors.{invalid_refresh_token, account_disabled, token_reuse_detected}
use oublie_pas_backend.Calendar.{seconds_per_day}
use oublie_pas_backend.Repositories.Attempts.{get_user_by_id}
use mathlib.Core.Option.{none}

-- The claims of a token that its signature vouches for. A `sub` that is not an identifier is none.
pub record Payload : Type 0 where
  pub type : Option String
  pub sub : Option ℕ

-- SHA-256 and the JWT library, with the keys of the configuration. `decode_token` takes the instant,
-- since it gives nothing once the token has expired.
pub record Security : Type 0 where
  pub hash_token : String → String
  pub decode_token : String → ℕ → Option Payload
  pub create_access_token : ℕ → String → String

pub record Tokens : Type 0 where
  pub access_token : String
  pub refresh_token : String
  pub role : String

-- `fresh` is the refresh token that `create_refresh_token` draws, and `expire_days` the setting
-- REFRESH_TOKEN_EXPIRE_DAYS.
unfoldable pub issue_tokens : Security → String → ℕ → ℕ → User → Action Tokens
issue_tokens s fresh expire_days now u =
    create_token u.id (s.hash_token fresh) (now + expire_days * seconds_per_day) >>= λ _.
    pure (record {
      access_token = s.create_access_token u.id u.role;
      refresh_token = fresh;
      role = u.role;
    })

abbrev pub is_refresh : Option Payload → Bool
is_refresh none = false
is_refresh (some p) = elim p.type [ none ↦ false | some t ↦ t ≟ "refresh" ]

abbrev pub is_sub : Option Payload → ℕ → Bool
is_sub none user_id = false
is_sub (some p) user_id = elim p.sub [ none ↦ false | some u ↦ u == user_id ]

-- An account that is disabled loses its tokens.
unfoldable pub rotate : Security → String → String → ℕ → ℕ → User → Action Tokens
unfolding issue_tokens
rotate s token fresh expire_days now u =
    modify (revoke (s.hash_token token) now) >>= λ _. issue_tokens s fresh expire_days now u

unfoldable pub refresh_active :
    Security → String → String → ℕ → ℕ → RefreshToken → User → Action Tokens
unfolding rotate
refresh_active s token fresh expire_days now row u =
    if u.is_active
    then rotate s token fresh expire_days now u
    else modify (revoke_all_for_user row.user_id now) >>= λ _. raise account_disabled

-- `sub` is the owner of the row, whom the users have under this identifier.
unfoldable pub refresh_row : Security → String → String → ℕ → ℕ → RefreshToken → Action Tokens
unfolding refresh_active
refresh_row s token fresh expire_days now row = do
  raise_if (ltb row.expires_at now) invalid_refresh_token
  raise_if (not (is_sub (s.decode_token token now) row.user_id)) invalid_refresh_token
  found ← gets (get_user_by_id row.user_id)
  u ← or_raise found invalid_refresh_token
  refresh_active s token fresh expire_days now row u

-- A token that is no longer live: a replay, where the table still has it.
unfoldable pub refuse : Option RefreshToken → ℕ → Action Tokens
refuse none now = raise invalid_refresh_token
refuse (some replayed) now =
    modify (revoke_all_for_user replayed.user_id now) >>= λ _. raise token_reuse_detected

unfoldable pub refresh_found :
    Security → String → String → ℕ → ℕ → Option RefreshToken → Action Tokens
unfolding refresh_row refuse
refresh_found s token fresh expire_days now none =
    gets (get_any_by_token_hash (s.hash_token token)) >>= λ replayed. refuse replayed now
refresh_found s token fresh expire_days now (some row) =
    refresh_row s token fresh expire_days now row

unfoldable pub refresh_access_token : Security → String → String → ℕ → ℕ → Action Tokens
unfolding refresh_found
refresh_access_token s token fresh expire_days now = do
  raise_if (not (is_refresh (s.decode_token token now))) invalid_refresh_token
  found ← gets (get_by_token_hash (s.hash_token token))
  refresh_found s token fresh expire_days now found

unfoldable pub logout_user : Security → String → ℕ → Action (Unit {0})
logout_user s token now = modify (revoke (s.hash_token token) now)
