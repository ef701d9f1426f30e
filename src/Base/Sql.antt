-- ===== src/Base/Sql.antt =====
-- Statements on one table, a list of rows: SELECT, UPDATE and DELETE with a WHERE clause. A query
-- without ORDER BY returns the rows in the order of the table; ORDER BY keeps that order between
-- rows with equal keys.
pub mod Laws
use oublie_pas_backend.Base.{
  Bool, Option, ℕ, Eq, List, true, ◌∷◌, none, false, ◌==◌, some, ◌||◌, take, ◌+◌, ◌≟◌,
  if◌then◌else◌, suc,
}
use mathlib.Core.List.{[]}

module _ {ℓ} {A : Type ℓ} where
  unfoldable pub select : (A → Bool) → List A → List A
  select p [] = []
  select p (x ∷ xs) = let rest = select p xs in if p x then x ∷ rest else rest

  unfoldable pub count : (A → Bool) → List A → ℕ
  count p [] = 0
  count p (x ∷ xs) = let rest = count p xs in if p x then suc rest else rest

  unfoldable pub update : (A → Bool) → (A → A) → List A → List A
  update p f [] = []
  update p f (x ∷ xs) = (if p x then f x else x) ∷ update p f xs

  unfoldable pub delete : (A → Bool) → List A → List A
  delete p [] = []
  delete p (x ∷ xs) = let rest = delete p xs in if p x then rest else x ∷ rest

  -- `scalar_one_or_none`, by a key that is unique.
  unfoldable pub find : (A → Bool) → List A → Option A
  find p [] = none
  find p (x ∷ xs) = let rest = find p xs in if p x then some x else rest

  unfoldable pub exists : (A → Bool) → List A → Bool
  exists p [] = false
  exists p (x ∷ xs) = p x || exists p xs

  unfoldable pub insert_by : (A → A → Bool) → A → List A → List A
  insert_by le x [] = x ∷ []
  insert_by le x (y ∷ ys) = if le x y then x ∷ y ∷ ys else y ∷ insert_by le x ys

  unfoldable pub order_by : (A → A → Bool) → List A → List A
  unfolding insert_by
  order_by le [] = []
  order_by le (x ∷ xs) = insert_by le x (order_by le xs)

  -- LIMIT n, where one is given.
  unfoldable pub limit : Option ℕ → List A → List A
  limit none xs = xs
  limit (some n) xs = take n xs

  unfoldable pub sum_by : (A → ℕ) → List A → ℕ
  sum_by f [] = 0
  sum_by f (x ∷ xs) = f x + sum_by f xs

-- `column IN (values)`
unfoldable pub is_in : ℕ → List ℕ → Bool
is_in x ys = exists (λ y. y == x) ys

-- `column = value` where a value is given.
abbrev pub given {ℓ} : {A : Type ℓ} ⦃e : Eq A⦄ → Option A → A → Bool
given none x = true
given (some y) x = x ≟ y

abbrev pub is_none {ℓ} : {A : Type ℓ} → Option A → Bool
is_none none = true
is_none (some _) = false
