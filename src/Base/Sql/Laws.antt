-- ===== src/Base/Sql/Laws.antt =====
-- How the statements change the number of rows that a test selects.
use oublie_pas_backend.Base.Sql.{count, find, delete, update, select, exists, insert_by, order_by}
use oublie_pas_backend.Base.{
  List, Bool, All, ◌++◌, ◌≤◌, ◌≡◌, ◌∷◌, ◌+◌, arith, true, false, some, ◌⊎◌, Bool-cases, refl, inl,
  All-map, inr, ◌||◌, none, if◌then◌else◌, ◌&&◌,
}
use mathlib.Core.List.{[]}
use mathlib.Core.Option

module _ {ℓ} {A : Type ℓ} where
  pub count-append : (p : A → Bool) (xs ys : List A) → count p (xs ++ ys) ≡ count p xs + count p ys
  unfolding count
  count-append p [] ys = omega arith
  count-append p (x ∷ xs) ys = ground (arith, count-append p xs ys)

  pub count-delete : (p q : A → Bool) (xs : List A) → count q (delete p xs) ≤ count q xs
  unfolding count delete
  count-delete p q [] = omega arith
  count-delete p q (x ∷ xs) = ground (arith, count-delete p q xs)

  -- The rows that an update brings under the test `q` were under it, or are under `r`.
  pub count-update :
      (p q r : A → Bool) (f : A → A) (xs : List A)
      → All (λ x. p x ≡ true → q (f x) ≡ true → (q x ≡ true) ⊎ (r x ≡ true)) xs
      → count q (update p f xs) ≤ count q xs + count r xs
  unfolding count update
  count-update p q r f [] h = omega arith
  count-update p q r f (x ∷ xs) h = ground (arith, count-update p q r f xs h.1)

  -- An update that brings no row under the test.
  pub count-update_le :
      (p q : A → Bool) (f : A → A) (xs : List A)
      → All (λ x. p x ≡ true → q (f x) ≡ true → q x ≡ true) xs
      → count q (update p f xs) ≤ count q xs
  unfolding count update
  count-update_le p q f [] h = omega arith
  count-update_le p q f (x ∷ xs) h = ground (arith, count-update_le p q f xs h.1)

  -- An update that leaves the test as it is.
  pub count-update_eq :
      (p q : A → Bool) (f : A → A) (xs : List A)
      → ((x : A) → q (f x) ≡ q x)
      → count q (update p f xs) ≡ count q xs
  unfolding count update
  count-update_eq p q f [] h = refl
  count-update_eq p q f (x ∷ xs) h = ground (arith, h x, count-update_eq p q f xs h)

  pub count_mono :
      (p q : A → Bool) (xs : List A) → ((x : A) → p x ≡ true → q x ≡ true) → count p xs ≤ count q xs
  unfolding count
  count_mono p q [] h = omega arith
  count_mono p q (x ∷ xs) h = ground (arith, h x, count_mono p q xs h)

  pub All-of {κ} : {P : A → Type κ} (f : (x : A) → P x) (xs : List A) → All P xs
  All-of f [] = tt
  All-of f (x ∷ xs) = (f x, All-of f xs)

  pub none_when_zero : (p : A → Bool) (xs : List A) → count p xs ≡ 0 → All (λ x. p x ≡ false) xs
  unfolding count
  none_when_zero p [] h = tt
  none_when_zero p (x ∷ xs) h = elim (Bool-cases (p x)) [
    | inl e ↦ absurd (omega (arith, rw e at h))
    | inr e ↦ (e, none_when_zero p xs (rw e at h))
  ]

  -- The row that a unique key finds is the only one with the key.
  pub find_unique :
      (p : A → Bool) (xs : List A) (c : A)
      → count p xs ≤ 1
      → find p xs ≡ some c
      → All (λ x. p x ≡ true → x ≡ c) xs
  unfolding count find
  find_unique p [] c h e = tt
  find_unique p (x ∷ xs) c h e = elim (Bool-cases (p x)) [
    | inl t ↦
        (λ _. ground arith, All-map _ _ (λ y no yes'. cc) xs (none_when_zero p xs (ground arith)))
    | inr f ↦ (λ t. cc, find_unique p xs c (ground arith) (ground arith))
  ]

  pub find-holds : (p : A → Bool) (xs : List A) (c : A) → find p xs ≡ some c → p c ≡ true
  unfolding find
  find-holds p [] c e = cc
  find-holds p (x ∷ xs) c e = ground (arith, find-holds p xs c)

  pub select-append :
      (q : A → Bool) (xs ys : List A) → select q (xs ++ ys) ≡ select q xs ++ select q ys
  unfolding select
  select-append q [] ys = refl
  select-append q (x ∷ xs) ys = ground (arith, select-append q xs ys)

  -- An update of rows that are outside of a selection, before and after.
  pub select-update :
      (p q : A → Bool) (f : A → A) (xs : List A)
      → ((x : A) → p x ≡ true → (q x ≡ false) × (q (f x) ≡ false))
      → select q (update p f xs) ≡ select q xs
  unfolding select update
  select-update p q f [] h = refl
  select-update p q f (x ∷ xs) h = ground (arith, h x, select-update p q f xs h)

  pub select-delete :
      (p q : A → Bool) (xs : List A)
      → ((x : A) → p x ≡ true → q x ≡ false)
      → select q (delete p xs) ≡ select q xs
  unfolding select delete
  select-delete p q [] h = refl
  select-delete p q (x ∷ xs) h = ground (arith, h x, select-delete p q xs h)

  pub count-exists : (p : A → Bool) (xs : List A) → exists p xs ≡ false → count p xs ≡ 0
  unfolding count exists
  count-exists p [] h = refl
  count-exists p (x ∷ xs) h = ground (arith, count-exists p xs)

  pub All-delete {κ} :
      (P : A → Type κ) (p : A → Bool) (xs : List A) → All P xs → All P (delete p xs)
  unfolding delete
  All-delete P p [] h = tt
  All-delete P p (x ∷ xs) h = elim (Bool-cases (p x)) [
    | inl e ↦ rw e (All-delete P p xs h.1)
    | inr e ↦ rw e (h.0, All-delete P p xs h.1)
  ]

  pub All-update {κ} :
      (P : A → Type κ) (p : A → Bool) (f : A → A) (xs : List A)
      → ((x : A) → p x ≡ true → P (f x))
      → All P xs
      → All P (update p f xs)
  unfolding update
  All-update P p f [] g h = tt
  All-update P p f (x ∷ xs) g h = elim (Bool-cases (p x)) [
    | inl e ↦ rw e (g x e, All-update P p f xs g h.1)
    | inr e ↦ rw e (h.0, All-update P p f xs g h.1)
  ]

  -- A deletion of other rows.
  pub count-delete_eq :
      (p q : A → Bool) (xs : List A)
      → ((x : A) → q x ≡ true → p x ≡ false)
      → count q (delete p xs) ≡ count q xs
  unfolding count delete
  count-delete_eq p q [] h = refl
  count-delete_eq p q (x ∷ xs) h = ground (arith, h x, count-delete_eq p q xs h)

  pub exists-append :
      (p : A → Bool) (xs ys : List A) → exists p (xs ++ ys) ≡ (exists p xs || exists p ys)
  unfolding exists
  exists-append p [] ys = refl
  exists-append p (x ∷ xs) ys = ground (arith, exists-append p xs ys)

  -- An update that leaves the key of the rows that it changes.
  pub find-update :
      (p : A → Bool) (f : A → A) (xs : List A)
      → ((x : A) → p (f x) ≡ p x)
      → find p (update p f xs) ≡ Option.map f (find p xs)
  unfolding find update
  find-update p f [] h = refl
  find-update p f (x ∷ xs) h = elim (Bool-cases (p x)) [
    | inl e ↦ rw (e, h x, e) refl
    | inr e ↦ rw (e, e) (find-update p f xs h)
  ]

  -- A row that is added where no row has its key.
  pub find-added :
      (p : A → Bool) (xs : List A) (x : A)
      → exists p xs ≡ false
      → p x ≡ true
      → find p (xs ++ (x ∷ [])) ≡ some x
  unfolding find exists
  find-added p [] x h e = rw e refl
  find-added p (y ∷ xs) x h e = ground (arith, find-added p xs x)

  pub find-exists :
      (p : A → Bool) (xs : List A) → exists p xs ≡ true → (x : A) × (find p xs ≡ some x)
  unfolding find exists
  find-exists p [] h = absurd (let clash = h in cc)
  find-exists p (x ∷ xs) h = elim (Bool-cases (p x)) [
    | inl e ↦ (x, rw e refl)
    | inr e ↦ let (y, found) = find-exists p xs (rw e at h) in (y, rw e found)
  ]

  pub find-none : (p : A → Bool) (xs : List A) → exists p xs ≡ false → find p xs ≡ none
  unfolding find exists
  find-none p [] h = refl
  find-none p (x ∷ xs) h = ground (arith, find-none p xs)

  pub find-some-exists :
      (p : A → Bool) (xs : List A) (x : A) → find p xs ≡ some x → exists p xs ≡ true
  unfolding find exists
  find-some-exists p [] x h = cc
  find-some-exists p (y ∷ xs) x h = ground (arith, find-some-exists p xs x)

  -- An update of the rows under `p` that leaves the key `q`.
  pub find-update_other :
      (p q : A → Bool) (f : A → A) (xs : List A) (x : A)
      → ((y : A) → q (f y) ≡ q y)
      → find q xs ≡ some x
      → find q (update p f xs) ≡ some (if p x then f x else x)
  unfolding find update
  find-update_other p q f [] x h e = absurd (let clash = e in cc)
  find-update_other p q f (y ∷ ys) x h e = elim (Bool-cases (q y)) [
    | inl t ↦ let same : y ≡ x = ground (arith, e, t) in ground (arith, h y, t, same)
    | inr f' ↦ ground (arith, h y, f', find-update_other p q f ys x h)
  ]

  count-insert_by :
      (p : A → Bool) (le : A → A → Bool) (x : A) (xs : List A)
      → count p (insert_by le x xs) ≡ count p (x ∷ xs)
  unfolding count insert_by
  count-insert_by p le x [] = refl
  count-insert_by p le x (y ∷ ys) = ground (arith, count-insert_by p le x ys)

  pub count-order_by :
      (p : A → Bool) (le : A → A → Bool) (xs : List A) → count p (order_by le xs) ≡ count p xs
  unfolding count order_by
  count-order_by p le [] = refl
  count-order_by p le (x ∷ xs) =
      ground (arith, count-insert_by p le x (order_by le xs), count-order_by p le xs)

  pub count-select :
      (p q : A → Bool) (xs : List A) → count p (select q xs) ≡ count (λ x. q x && p x) xs
  unfolding count select
  count-select p q [] = refl
  count-select p q (x ∷ xs) = ground (arith, count-select p q xs)

  pub count-when_none : (p : A → Bool) (xs : List A) → All (λ x. p x ≡ false) xs → count p xs ≡ 0
  unfolding count
  count-when_none p [] h = refl
  count-when_none p (x ∷ xs) h = ground (arith, h.0, count-when_none p xs h.1)

  -- A test that holds only where another does, on the rows of the list.
  pub count-le :
      (p q : A → Bool) (xs : List A)
      → All (λ x. p x ≡ true → q x ≡ true) xs
      → count p xs ≤ count q xs
  unfolding count
  count-le p q [] h = omega arith
  count-le p q (x ∷ xs) h = ground (arith, h.0, count-le p q xs h.1)

  -- A row that a key finds, under another test.
  pub found-exists :
      (p q : A → Bool) (xs : List A) (x : A) → find p xs ≡ some x → q x ≡ true → exists q xs ≡ true
  unfolding find exists
  found-exists p q [] x h t = cc
  found-exists p q (y ∷ xs) x h t = elim (Bool-cases (p y)) [
    | inl e ↦ let same : y ≡ x = ground (arith, h, e) in ground (arith, same, t)
    | inr f ↦ ground (arith, f, h, found-exists p q xs x)
  ]
