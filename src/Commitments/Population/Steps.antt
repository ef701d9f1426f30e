-- ===== src/Commitments/Population/Steps.antt =====
-- Each write keeps the population within its bounds, under the condition that its guard checks.
use oublie_pas_backend.Repositories.Commitments.{
  create, soft_delete, delete_commitments, restore_rows, count_commitments, in_trash,
}
use oublie_pas_backend.Models.Commitments.{Commitment, is_counted}
use oublie_pas_backend.Base.Sql.{count, update, is_in}
use oublie_pas_backend.Base.{
  Bool, ℕ, ◌≡◌, List, ◌<◌, ◌≤◌, false, arith, ◌∷◌, ap, refl, ◌==◌, ◌+◌, Bool-cases, ◌&&◌, ◌≟◌, inl,
  true, inr, none, ==_iff,
}
use oublie_pas_backend.Commitments.Service.Trash.{over_ceiling, entrants, ceiling}
use oublie_pas_backend.Session.{Db}
use oublie_pas_backend.Commitments.Population.{IsPopulated, tracked, is_tracked, has_id, Cap}
use oublie_pas_backend.Models.Columns.{CommitmentType, type_eq}
use native.Mathlib.Nat.{le_trans}
use oublie_pas_backend.Base.Sql.Laws.{
  count-update_le, count-delete, count-append, count-update_eq, All-of, count-update,
}
use mathlib.Core.List.{[]}

pub tracked_only :
    (u : ℕ) (t : CommitmentType) (c : Commitment)
    → is_tracked u t c ≡ true
    → (c.user_id ≡ u) × (c.type ≡ t)
tracked_only u t c h = ground arith

-- A type that is not over the ceiling has room for its entrants.
entrants_fit :
    (u : ℕ) (ids : List ℕ) (db : Db) (t : CommitmentType) (k : ℕ)
    → over_ceiling u ids db t ≡ false
    → ceiling ≤ k
    → tracked u t db ≤ k
    → tracked u t db + entrants u ids t db ≤ k
unfolding over_ceiling count_commitments
entrants_fit u ids db t k h most capped = ground arith

module _ {cap : Cap} where
  -- The new row is in one population at most, which has room for it.
  room_for :
      (row : ℕ → Commitment) (db : Db)
      → IsPopulated cap db
      → tracked (row db.next_id).user_id (row db.next_id).type db
        < cap (row db.next_id).user_id (row db.next_id).type
      → (u : ℕ) (t : CommitmentType)
      → tracked u t db + count (is_tracked u t) (row db.next_id ∷ []) ≤ cap u t
  unfolding count
  room_for row db p room u t =
      let c = row db.next_id in
      elim (Bool-cases (is_tracked u t c)) [
        | inl e ↦
            let (who, what) = tracked_only u t c e in rw e (omega (arith, rw (who, what) at room))
        | inr e ↦ rw e (omega (arith, p.capped u t))
      ]

  -- A row in place of no row: the identifier is fresh, and the account has room for it.
  pub create-IsPopulated :
      (row : ℕ → Commitment) (db : Db)
      → ((i : ℕ) → (row i).id ≡ i)
      → IsPopulated cap db
      → tracked (row db.next_id).user_id (row db.next_id).type db
        < cap (row db.next_id).user_id (row db.next_id).type
      → IsPopulated cap (create row db).1
  unfolding create count
  create-IsPopulated row db named p room = record {
    keyed = λ i.
        rw (count-append (has_id i) db.commitments (row db.next_id ∷ []))
          (ground (arith, p.keyed i, p.fresh i, named db.next_id));
    fresh = λ i le.
        rw (count-append (has_id i) db.commitments (row db.next_id ∷ []))
          (ground (arith, p.fresh i, named db.next_id));
    capped = λ u t.
        rw (count-append (is_tracked u t) db.commitments (row db.next_id ∷ []))
          (room_for row db p room u t);
  }

  -- Changes that leave the identifiers, and that bring no row into a population beyond the ceiling.
  pub update-IsPopulated :
      (p : Commitment → Bool) (f : Commitment → Commitment) (db : Db)
      → ((c : Commitment) → (f c).id ≡ c.id)
      → ((u : ℕ) (t : CommitmentType)
          → tracked u t (record db { commitments = update p f db.commitments }) ≤ cap u t)
      → IsPopulated cap db
      → IsPopulated cap (record db { commitments = update p f db.commitments })
  update-IsPopulated p f db keeps room h = record {
    keyed = λ i.
        rw (count-update_eq p (has_id i) f db.commitments (λ c. ap (λ j. j == i) (keeps c)))
          (h.keyed i);
    fresh = λ i le.
        rw (count-update_eq p (has_id i) f db.commitments (λ c. ap (λ j. j == i) (keeps c)))
          (h.fresh i le);
    capped = room;
  }

  -- A deletion stamps rows, and none of them is tracked afterwards.
  pub soft_delete-IsPopulated :
      (p : Commitment → Bool) (stamp : ℕ) (db : Db)
      → IsPopulated cap db
      → IsPopulated cap (soft_delete p stamp db).1
  unfolding soft_delete
  soft_delete-IsPopulated p stamp db h =
      update-IsPopulated p _ db (λ c. refl)
        (λ u t.
          le_trans
            (count-update_le p (is_tracked u t) _ db.commitments
              (All-of (λ c a b. ground arith) db.commitments))
            (h.capped u t))
        h

  pub delete_commitments-IsPopulated :
      (p : Commitment → Bool) (db : Db)
      → IsPopulated cap db
      → IsPopulated cap (delete_commitments p db).1
  unfolding delete_commitments
  delete_commitments-IsPopulated p db h = record {
    keyed = λ i. le_trans (count-delete p (has_id i) db.commitments) (h.keyed i);
    fresh = λ i le. omega (arith, count-delete p (has_id i) db.commitments, h.fresh i le);
    capped = λ u t. le_trans (count-delete p (is_tracked u t) db.commitments) (h.capped u t);
  }

  -- The rows that a restore brings into a population are its entrants.
  restored_rows :
      (u : ℕ) (ids : List ℕ) (db : Db) (v : ℕ) (t : CommitmentType)
      → IsPopulated cap db
      → ceiling ≤ cap v t
      → over_ceiling u ids db t ≡ false
      → tracked v t (record db {
        commitments =
            update
              (λ c. in_trash u c && is_in c.id ids)
              (λ c. record c { deleted_at = none })
              db.commitments;
      })
        ≤ cap v t
  unfolding entrants
  restored_rows u ids db v t h most fits = elim (Bool-cases (v == u)) [
    | inl e ↦
        let same = (==_iff v u).0 e in
        le_trans
          (count-update _ (is_tracked v t)
            (λ c. in_trash u c && (is_in c.id ids && (is_counted c.status && c.type ≟ t))) _
            db.commitments (All-of (λ c a b. inr (ground arith)) db.commitments))
          (rw same (entrants_fit u ids db t _ fits (rw same at most) (h.capped u t)))
    | inr e ↦
        le_trans
          (count-update_le _ (is_tracked v t) _ db.commitments
            (All-of (λ c a b. absurd (ground (arith, e))) db.commitments))
          (h.capped v t)
  ]

  -- The guard of a restore leaves room for what comes back.
  pub restore_rows-IsPopulated :
      (u : ℕ) (ids : List ℕ) (db : Db)
      → IsPopulated cap db
      → ((v : ℕ) (t : CommitmentType) → ceiling ≤ cap v t)
      → ((t : CommitmentType) → over_ceiling u ids db t ≡ false)
      → IsPopulated cap (restore_rows u ids db).1
  unfolding restore_rows
  restore_rows-IsPopulated u [] db h most fits = h
  restore_rows-IsPopulated u (i ∷ ids) db h most fits =
      update-IsPopulated _ _ db (λ c. refl)
        (λ v t. restored_rows u (i ∷ ids) db v t h (most v t) (fits t)) h
