-- ===== src/Commitments/Restoration.antt =====
-- A deletion, and the restoration of what it deleted.
use oublie_pas_backend.Base.Sql.{find, count, is_in, update, exists}
use oublie_pas_backend.Models.Commitments.{Commitment}
use oublie_pas_backend.Base.{
  ℕ, Bool, List, ◌≡◌, some, ◌≤◌, ◌∷◌, arith, ◌&&◌, ◌==◌, All, true, Bool-cases, inl, All-map, none,
  sym, ◌∙◌, if◌then◌else◌, inr, false, refl,
}
use oublie_pas_backend.Commitments.Population.{has_id}
use oublie_pas_backend.Repositories.Commitments.{
  is_live, get_by_id, restore_rows, in_trash, delete_one, soft_delete,
}
use mathlib.Core.List.{[]}
use oublie_pas_backend.Base.Sql.Laws.{count_mono, none_when_zero}
use oublie_pas_backend.Session.{Db}
use native.Mathlib.Nat.{le_trans}

find-count :
    (p : Commitment → Bool) (xs : List Commitment) (c : Commitment)
    → find p xs ≡ some c
    → 1 ≤ count p xs
unfolding find count
find-count p [] c e = cc
find-count p (x ∷ xs) c e = ground (arith, find-count p xs c)

-- Where one row has the identifier and the key finds a live one, every row with it is live.
only_live :
    (u id : ℕ) (xs : List Commitment) (c : Commitment)
    → count (has_id id) xs ≤ 1
    → find (λ x. is_live u x && x.id == id) xs ≡ some c
    → All (λ x. has_id id x ≡ true → is_live u x ≡ true) xs
unfolding find count
only_live u id [] c once e = tt
only_live u id (x ∷ xs) c once e = elim (Bool-cases (is_live u x && x.id == id)) [
  | inl t ↦
      let live : is_live u x ≡ true = ground (arith, t) in
      let none : count (has_id id) xs ≡ 0 = ground (arith, once, t) in
      (
        λ h. live,
        All-map _ _ (λ y no_id h. absurd (let clash = sym h ∙ no_id in cc)) xs
            (none_when_zero (has_id id) xs none),
      )
  | inr f ↦
      let later : find (λ y. is_live u y && y.id == id) xs ≡ some c = ground (arith, e, f) in
      let some_later : 1 ≤ count (has_id id) xs =
        le_trans (find-count _ xs c later)
          (count_mono (λ y. is_live u y && y.id == id) (has_id id) xs (λ y h. ground arith)) in
      (
        λ h. absurd (ground (arith, once, some_later, h)),
        only_live u id xs c (ground (arith, once)) later,
      )
]

stamp : ℕ → Commitment → Commitment
stamp now c = record c { deleted_at = some now }

unstamp : Commitment → Commitment
unstamp c = record c { deleted_at = none }

one :
    (u id now : ℕ) (x : Commitment)
    → (has_id id x ≡ true → is_live u x ≡ true)
    → let y = if is_live u x && x.id == id then stamp now x else x in
      (if in_trash u y && is_in y.id (id ∷ []) then unstamp y else y) ≡ x
unfolding is_in exists stamp unstamp
one u id now x h = elim (Bool-cases (is_live u x && x.id == id)) [
  | inl e ↦
      let hit : (in_trash u (stamp now x) && is_in x.id (id ∷ [])) ≡ true = ground (arith, e) in
      let alive : none ≡ x.deleted_at = ground (arith, e) in
      rw (e, hit) (λ i. record x { deleted_at = alive i })
  | inr e ↦
      let miss : (in_trash u x && is_in x.id (id ∷ [])) ≡ false = ground (arith, e, h) in
      rw (e, miss) refl
]

there_and_back :
    (u id now : ℕ) (xs : List Commitment)
    → All (λ x. has_id id x ≡ true → is_live u x ≡ true) xs
    → update
        (λ c. in_trash u c && is_in c.id (id ∷ []))
        unstamp
        (update (λ c. is_live u c && c.id == id) (stamp now) xs)
      ≡ xs
unfolding update is_in exists stamp unstamp
there_and_back u id now [] h = refl
there_and_back u id now (x ∷ xs) h = λ i. one u id now x h.0 i ∷ there_and_back u id now xs h.1 i

-- The commitment that an account deletes and then restores is as it was, as are all others: the
-- table has the same rows as before, when identifiers are unique.
pub delete_one-restore_rows :
    (u id now : ℕ) (db : Db) (c : Commitment)
    → count (has_id id) db.commitments ≤ 1
    → get_by_id id u db ≡ some c
    → (restore_rows u (id ∷ []) (delete_one id u now db).1).1.commitments ≡ db.commitments
unfolding get_by_id restore_rows delete_one soft_delete stamp unstamp
delete_one-restore_rows u id now db c once found =
    there_and_back u id now db.commitments (only_live u id db.commitments c once found)
