-- ===== src/Repositories/Subscriptions/Rows.antt =====
-- Counts of the rows of `push_subscriptions`.
use oublie_pas_backend.Base.{
  ℕ, Bool, List, ◌==◌, ◌∷◌, ◌≡◌, length, ◌≤◌, true, take, ◌||◌, All, ◌+◌, ◌<◌, arith, map, suc,
  false, ap, refl, ◌++◌, Bool-cases, inl, inr, sym,
}
use oublie_pas_backend.Models.Users.{PushSubscription}
use oublie_pas_backend.Base.Sql.{count, is_in, limit, exists, order_by, delete, select, update}
use oublie_pas_backend.Repositories.Subscriptions.{is_of, kept_ids, is_kept_before}
use mathlib.Core.List.{[]}
use oublie_pas_backend.Base.Sql.Laws.{
  count-when_none, All-of, count-delete, count-append, count-update_eq,
}
use Prim.Native.Nat.{zero}
use mathlib.Core.Path.{subst}

abbrev pub is_device : ℕ → PushSubscription → Bool
is_device i s = s.id == i

count_or :
    (p q r : PushSubscription → Bool) (xs : List PushSubscription)
    → ((x : PushSubscription) → p x ≡ true → (q x || r x) ≡ true)
    → count p xs ≤ count q xs + count r xs
unfolding count
count_or p q r [] h = omega arith
count_or p q r (x ∷ xs) h = ground (arith, h x, count_or p q r xs h)

-- As many rows as identifiers, since each has one at most.
pub count-is_in :
    (ids : List ℕ) (xs : List PushSubscription)
    → ((i : ℕ) → count (is_device i) xs ≤ 1)
    → count (λ s. is_in s.id ids) xs ≤ length ids
unfolding is_in exists
count-is_in [] xs one = omega (arith, count-when_none (λ s. false) xs (All-of (λ s. refl) xs))
count-is_in (i ∷ ids) xs one =
    let split =
      count_or (λ s. is_in s.id (i ∷ ids)) (is_device i) (λ s. is_in s.id ids) xs
        (λ s t. ground (arith, t)) in
    omega (arith, split, one i, count-is_in ids xs one)

length-take : {A : Type 0} (n : ℕ) (xs : List A) → length (take n xs) ≤ n
length-take zero xs = omega arith
length-take (suc n) [] = omega arith
length-take (suc n) (x ∷ xs) = omega (arith, length-take n xs)

length-ids : (xs : List PushSubscription) → length (map (λ s. s.id) xs) ≡ length xs
length-ids [] = refl
length-ids (x ∷ xs) = ap suc (length-ids xs)

pub kept_ids-length :
    (user_id keep : ℕ) (rows : List PushSubscription) → length (kept_ids user_id keep rows) ≤ keep
unfolding kept_ids limit
kept_ids-length user_id keep rows =
    let sorted = order_by is_kept_before (select (is_of user_id) rows) in
    omega (arith, length-ids (take keep sorted), length-take keep sorted)

-- The rows under `q` that a deletion leaves.
pub count-left :
    (p q r : PushSubscription → Bool) (xs : List PushSubscription)
    → ((x : PushSubscription) → q x ≡ true → p x ≡ false → r x ≡ true)
    → count q (delete p xs) ≤ count r xs
unfolding count delete
count-left p q r [] h = omega arith
count-left p q r (x ∷ xs) h = ground (arith, h x, count-left p q r xs h)

pub appended :
    (q : PushSubscription → Bool) (xs : List PushSubscription) (row : PushSubscription)
    → q row ≡ false
    → count q (xs ++ (row ∷ [])) ≤ count q xs
unfolding count
appended q xs row e = ground (arith, e, count-append q xs (row ∷ []))

pub updated_le :
    (p q : PushSubscription → Bool) (f : PushSubscription → PushSubscription)
    (xs : List PushSubscription) (n : ℕ)
    → ((s : PushSubscription) → q (f s) ≡ q s)
    → count q xs ≤ n
    → count q (update p f xs) ≤ n
updated_le p q f xs n same h = omega (arith, count-update_eq p q f xs same, h)

pub deleted_le :
    (p q : PushSubscription → Bool) (xs : List PushSubscription) (n : ℕ)
    → count q xs ≤ n
    → count q (delete p xs) ≤ n
deleted_le p q xs n h = omega (arith, count-delete p q xs, h)

absent :
    (i next : ℕ) (xs : List PushSubscription)
    → next ≤ i
    → All (λ s. s.id < next) xs
    → count (is_device i) xs ≡ 0
unfolding count
absent i next [] le h = refl
absent i next (x ∷ xs) le h = ground (arith, h.0, absent i next xs le h.1)

pub fresh_count :
    (i : ℕ) (xs : List PushSubscription) (next : ℕ) (row : PushSubscription)
    → row.id ≡ next
    → All (λ s. s.id < next) xs
    → count (is_device i) xs ≤ 1
    → count (is_device i) (xs ++ (row ∷ [])) ≤ 1
unfolding count
fresh_count i xs next row named h one = elim (Bool-cases (is_device i row)) [
  | inl e ↦
      let zero_rows = absent i next xs (ground (arith, named, e)) h in
      ground (arith, e, zero_rows, count-append (is_device i) xs (row ∷ []))
  | inr e ↦ ground (arith, e, one, count-append (is_device i) xs (row ∷ []))
]

pub below_added :
    (xs : List PushSubscription) (next : ℕ) (row : PushSubscription)
    → row.id ≡ next
    → All (λ s. s.id < next) xs
    → All (λ s. s.id < next + 1) (xs ++ (row ∷ []))
below_added [] next row named h = (omega (arith, named), tt)
below_added (x ∷ xs) next row named h = (omega (arith, h.0), below_added xs next row named h.1)

pub All-updated_id :
    (P : ℕ → Type 0) (p : PushSubscription → Bool) (f : PushSubscription → PushSubscription)
    (xs : List PushSubscription)
    → ((s : PushSubscription) → (f s).id ≡ s.id)
    → All (λ s. P s.id) xs
    → All (λ s. P s.id) (update p f xs)
unfolding update
All-updated_id P p f [] same h = tt
All-updated_id P p f (x ∷ xs) same h = elim (Bool-cases (p x)) [
  | inl e ↦ rw e (subst P (sym (same x)) h.0, All-updated_id P p f xs same h.1)
  | inr e ↦ rw e (h.0, All-updated_id P p f xs same h.1)
]
