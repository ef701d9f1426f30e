-- ===== src/RateLimit.antt =====
-- core/rate_limit.py: the address that a limit counts for. The header comes as its parts between
-- commas.
pub mod Spoofing
pub mod Tests
use oublie_pas_backend.Base.{
  ℕ, Option, List, ◌∷◌, none, some, if◌then◌else◌, ◌≟◌, length, ltb, suc, ◌-◌, string_eq,
}
use oublie_pas_backend.Errors.{Result, index_error, err, ok}
use Prim.Native.String.{String}
use mathlib.Core.List.{[]}
use Prim.Native.Nat.{zero}

abbrev pub fallback_ip : String
fallback_ip = "127.0.0.1"

-- The parts of the header that are not blank.
unfoldable pub chain_of : (String → String) → List String → List String
chain_of strip [] = []
chain_of strip (part ∷ parts) =
    let rest = chain_of strip parts in if strip part ≟ "" then rest else strip part ∷ rest

-- `request.client.host`, where there is one.
abbrev pub direct : Option String → String
direct none = fallback_ip
direct (some host) = if host ≟ "" then fallback_ip else host

abbrev pub get_elem? : {A : Type 0} → List A → ℕ → Option A
get_elem? [] i = none
get_elem? (x ∷ xs) zero = some x
get_elem? (x ∷ xs) (suc i) = get_elem? xs i

abbrev pub or_index_error : Option String → Result String
or_index_error none = err index_error
or_index_error (some s) = ok s

-- `chain[max(0, len(chain) - TRUSTED_PROXY_COUNT)]`, for a chain that is not empty.
unfoldable pub from_chain : ℕ → Option String → List String → Result String
from_chain n host [] = ok (direct host)
from_chain n host (x ∷ xs) = or_index_error (get_elem? (x ∷ xs) (length (x ∷ xs) - n))

unfoldable pub client_ip : (String → String) → ℕ → List String → Option String → Result String
unfolding from_chain chain_of
client_ip strip trusted_proxy_count forwarded host =
    if ltb 0 trusted_proxy_count
    then from_chain trusted_proxy_count host (chain_of strip forwarded)
    else ok (direct host)
