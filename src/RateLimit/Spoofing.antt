-- ===== src/RateLimit/Spoofing.antt =====
-- What a client writes in the header does not choose the address that a limit counts for.
use oublie_pas_backend.Base.{
  ℕ, List, ◌++◌, All, length, ◌≡◌, Option, ◌∷◌, ◌≟◌, suc, Bool-cases, false, ap, some, ◌-◌, arith,
  ◌∙◌, inl, string_eq, length-append, sym, inr, refl, ltb, true,
}
use oublie_pas_backend.Errors.{ok}
use oublie_pas_backend.RateLimit.{chain_of, from_chain, client_ip, get_elem?, or_index_error}
use Prim.Native.String.{String}
use mathlib.Core.List.{[]}

chain_of-append :
    (strip : String → String) (xs ys : List String)
    → chain_of strip (xs ++ ys) ≡ chain_of strip xs ++ chain_of strip ys
unfolding chain_of
chain_of-append strip [] ys = refl
chain_of-append strip (x ∷ xs) ys = elim (Bool-cases (strip x ≟ "")) [
  | inl e ↦ rw e (chain_of-append strip xs ys)
  | inr e ↦ rw e (ap (λ c. strip x ∷ c) (chain_of-append strip xs ys))
]

-- The proxies write addresses that are not blank.
abbrev pub AreFilled : (String → String) → List String → Type 0
AreFilled strip xs = All (λ s. (strip s ≟ "") ≡ false) xs

chain_of-length :
    (strip : String → String) (xs : List String)
    → AreFilled strip xs
    → length (chain_of strip xs) ≡ length xs
unfolding chain_of
chain_of-length strip [] h = refl
chain_of-length strip (x ∷ xs) h = rw h.0 (ap suc (chain_of-length strip xs h.1))

get_elem?-append :
    (xs ys : List String) (y : String) → get_elem? (xs ++ (y ∷ ys)) (length xs) ≡ some y
get_elem?-append [] ys y = refl
get_elem?-append (x ∷ xs) ys y = get_elem?-append xs ys y

index_left :
    (xs ys : List String) (y : String) (n : ℕ)
    → n ≡ suc (length ys)
    → length (xs ++ (y ∷ ys)) - n ≡ length xs
index_left xs ys y n e = omega (arith, e, length-append xs (y ∷ ys))

from_chain-append :
    (n : ℕ) (host : Option String) (xs ys : List String) (y : String)
    → n ≡ suc (length ys)
    → from_chain n host (xs ++ (y ∷ ys)) ≡ ok y
unfolding from_chain
from_chain-append n host [] ys y e =
    ap (λ i. or_index_error (get_elem? (y ∷ ys) i)) (index_left [] ys y n e)
from_chain-append n host (x ∷ xs) ys y e =
    ap (λ i. or_index_error (get_elem? (x ∷ xs ++ (y ∷ ys)) i)) (index_left (x ∷ xs) ys y n e)
    ∙ ap or_index_error (get_elem?-append (x ∷ xs) ys y)

behind :
    (strip : String → String) (n : ℕ) (forwarded : List String) (host : Option String)
    → client_ip strip (suc n) forwarded host ≡ from_chain (suc n) host (chain_of strip forwarded)
unfolding client_ip
behind strip n forwarded host = let trusted : ltb 0 (suc n) ≡ true = ground arith in rw trusted refl

-- Behind as many proxies as are trusted, each of which adds the address that called it, and none of
-- them a blank one: the limit counts for the address that called the outermost proxy, whatever the
-- client wrote in the header before it.
pub client_ip-spoofed :
    (strip : String → String) (spoofed proxies : List String) (caller : String)
    (host : Option String)
    → (strip caller ≟ "") ≡ false
    → AreFilled strip proxies
    → client_ip strip (suc (length proxies)) (spoofed ++ (caller ∷ proxies)) host
      ≡ ok (strip caller)
unfolding chain_of
client_ip-spoofed strip spoofed proxies caller host named filled =
    behind strip (length proxies) (spoofed ++ (caller ∷ proxies)) host
    ∙ ap (from_chain (suc (length proxies)) host) (chain_of-append strip spoofed (caller ∷ proxies))
    ∙ rw named (
        from_chain-append (suc (length proxies)) host (chain_of strip spoofed)
          (chain_of strip proxies) (strip caller)
          (ap suc (sym (chain_of-length strip proxies filled))))
