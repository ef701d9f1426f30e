-- ===== src/Commitments/Population/Calls.antt =====
-- The update of one row that its key finds.
use oublie_pas_backend.Session.{Db}
use oublie_pas_backend.Commitments.Population.{Cap, IsPopulated, is_tracked, tracked, has_id}
use oublie_pas_backend.Repositories.Commitments.{update_commitment, get_by_id, is_live}
use oublie_pas_backend.Base.{
  ℕ, ◌≡◌, some, true, false, ◌<◌, List, ◌≤◌, ◌&&◌, ◌==◌, arith, Bool-cases, inr, All-map, inl, sym,
  ◌∙◌,
}
use oublie_pas_backend.Models.Commitments.{Commitment}
use oublie_pas_backend.Calendar.{Date}
use oublie_pas_backend.Commitments.Sync.{sync}
use oublie_pas_backend.Commitments.Population.Frame.{IsPopulated-same, sync-SameCommitments}
use oublie_pas_backend.Models.Columns.{CommitmentType}
use oublie_pas_backend.Commitments.Population.Steps.{update-IsPopulated, tracked_only}
use oublie_pas_backend.Base.Sql.{count, find, update}
use native.Mathlib.Nat.{le_trans}
use oublie_pas_backend.Base.Sql.Laws.{
  count_mono, find_unique, find-holds, count-update_le, count-update, All-of,
}
use oublie_pas_backend.Commitments.Requests.Calls.{Preserves}

live_owner : (u id : ℕ) (c : Commitment) → (is_live u c && c.id == id) ≡ true → c.user_id ≡ u
live_owner u id c h = ground arith

-- The rows of a user that an update by key changes are the row that the key finds, and the row
-- enters a population only where there is room.
updated_rows :
    (id u : ℕ) (f : Commitment → Commitment) (c : Commitment) (xs : List Commitment) (v : ℕ)
    (t : CommitmentType) (k : ℕ)
    → ((x : Commitment) → (f x).user_id ≡ x.user_id)
    → count (has_id id) xs ≤ 1
    → find (λ x. is_live u x && x.id == id) xs ≡ some c
    → count (is_tracked v t) xs ≤ k
    → (v ≡ u
        → is_tracked v t (f c) ≡ true
        → is_tracked v t c ≡ false
        → count (is_tracked v t) xs < k)
    → count (is_tracked v t) (update (λ x. is_live u x && x.id == id) f xs) ≤ k
updated_rows id u f c xs v t k keeps keyed found capped room =
    let p = λ (x : Commitment). is_live u x && x.id == id in
    let once = le_trans (count_mono p (has_id id) xs (λ x h. ground arith)) keyed in
    let only = find_unique p xs c once found in
    let mine = find-holds p xs c found in
    elim (Bool-cases (is_tracked v t (f c))) [
      | inr out ↦
          le_trans
            (count-update_le p (is_tracked v t) f xs (
              All-map _ _
                (λ x is_c a b. absurd (let b' = rw (is_c a) at b in let clash = sym b' ∙ out in cc))
                xs only))
            capped
      | inl enters ↦ elim (Bool-cases (is_tracked v t c)) [
        | inl was ↦
            le_trans
              (count-update_le p (is_tracked v t) f xs
                (All-map _ _ (λ x is_c a b. rw (is_c a) was) xs only))
              capped
        | inr new ↦ le_trans (count-update p (is_tracked v t) p f xs (All-of (λ x a b. inr a) xs)) (
            omega (
              arith,
              once,
              room (sym (tracked_only v t (f c) enters).0 ∙ keeps c ∙ live_owner u id c mine) enters
                  new,
            ))
      ]
    ]

-- An update of one row, which the key finds: the row enters a population only where there is room.
pub update_commitment-IsPopulated :
    (cap : Cap) (id u : ℕ) (f : Commitment → Commitment) (c : Commitment) (db : Db)
    → ((x : Commitment) → ((f x).id ≡ x.id) × ((f x).user_id ≡ x.user_id))
    → IsPopulated cap db
    → get_by_id id u db ≡ some c
    → ((t : CommitmentType)
        → is_tracked u t (f c) ≡ true
        → is_tracked u t c ≡ false
        → tracked u t db < cap u t)
    → IsPopulated cap (update_commitment id u f db).1
unfolding update_commitment get_by_id
update_commitment-IsPopulated cap id u f c db keeps p found room =
    update-IsPopulated _ f db (λ x. (keeps x).0)
      (λ v t.
        updated_rows id u f c db.commitments v t (cap v t) (λ x. (keeps x).1) (p.keyed id) found
          (p.capped v t) (λ same enters new. rw same (room t (rw same at enters) (rw same at new))))
      p

pub sync-Preserves :
    (cap : Cap) (c : Commitment) (today : Date) → Preserves (IsPopulated cap) (sync c today)
sync-Preserves cap c today db p = IsPopulated-same cap db _ (sync-SameCommitments c today db) p
