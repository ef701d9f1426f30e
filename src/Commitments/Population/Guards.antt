-- ===== src/Commitments/Population/Guards.antt =====
-- The guards of create, update and restore leave room for what these write.
use oublie_pas_backend.Base.{
  ℕ, ◌≤◌, ◌≡◌, true, false, ◌⊎◌, ◌<◌, Bool-cases, leb, not, inl, inr, ◌||◌, ◌&&◌, ◌≟◌, arith, sym,
  leb→gt, refl, ◌∙◌, ap, some, List, Option-cases, Bool,
}
use oublie_pas_backend.Commitments.Service.Update.{
  guard_entry, apply_changes, new_or, update_service, has_changes, dates_in_order, after_update,
  write_update, update_owned,
}
use oublie_pas_backend.Commitments.Population.{Cap, is_tracked, tracked, IsPopulated}
use oublie_pas_backend.Models.Commitments.{Commitment, max_commitments_per_type, is_counted}
use oublie_pas_backend.Commitments.Service.{guard_limit, create_commitment, row_of, respond, owned}
use oublie_pas_backend.Models.Columns.{CommitmentType, type_eq, subscription, invoice}
use oublie_pas_backend.Schemas.Commitments.{CommitmentUpdate, CommitmentCreate}
use oublie_pas_backend.Repositories.Commitments.{
  count_commitments, is_live, create, get_by_id, update_commitment, restore_rows,
}
use oublie_pas_backend.Session.{Db, Action, ◌>>◌, modify, ◌>>=◌, raise_if}
use oublie_pas_backend.Errors.{
  ok, Error, err, app, commitment_limit_reached, commitment_not_found, restore_limit_reached,
  Result, AppException, invalid_date_range, no_fields_to_update,
}
use oublie_pas_backend.Calendar.{Date}
use oublie_pas_backend.Commitments.Sync.{sync}
use oublie_pas_backend.Commitments.Population.Steps.{
  create-IsPopulated, tracked_only, restore_rows-IsPopulated,
}
use native.Mathlib.Nat.{le_trans}
use oublie_pas_backend.Commitments.Service.Trash.{restore, guard_restore, ceiling, over_ceiling}
use oublie_pas_backend.Base.Sql.Laws.{find-holds}
use oublie_pas_backend.Commitments.Population.Frame.{IsPopulated-same, after_update-SameCommitments}
use oublie_pas_backend.Commitments.Requests.Calls.{>>=-after, Preserves, >>=-Preserves}
use oublie_pas_backend.Commitments.Population.Calls.{sync-Preserves, update_commitment-IsPopulated}

abbrev LeavesRoom : ℕ → Commitment → CommitmentUpdate → Db → Type 0
LeavesRoom u c p db =
    (t : CommitmentType)
    → is_tracked u t (apply_changes p c) ≡ true
    → is_tracked u t c ≡ false
    → tracked u t db < max_commitments_per_type

-- A guard raises, or it returns from the database as it was.
abbrev Guards : {A : Type 0} → Action A → (A → Type 0) → Db → Type 0
Guards {A} m P db = ((a : A) × ((m db ≡ (ok a, db)) × P a)) ⊎ ((e : Error) × (m db ≡ (err e, db)))

raise_if-Guards :
    (b : Bool) (e : AppException) (db : Db) → Guards (raise_if b e) (λ _. b ≡ false) db
raise_if-Guards true e db = inr (app e, refl)
raise_if-Guards false e db = inl (tt, (refl, refl))

owned-Guards : (u id : ℕ) (db : Db) → Guards (owned u id) (λ c. get_by_id id u db ≡ some c) db
unfolding owned
owned-Guards u id db = elim (Option-cases (get_by_id id u db)) [
  | inl missing ↦ inr (app commitment_not_found, rw missing refl)
  | inr (c, found) ↦ inl (c, (rw found refl, found))
]

guard_limit-Guards :
    (u : ℕ) (t : CommitmentType) (db : Db)
    → Guards (guard_limit u t) (λ _. tracked u t db < max_commitments_per_type) db
unfolding guard_limit count_commitments
guard_limit-Guards u t db = elim (Bool-cases (leb max_commitments_per_type (tracked u t db))) [
  | inl full ↦ inr (app (commitment_limit_reached max_commitments_per_type), rw full refl)
  | inr room ↦ inl (tt, (rw room refl, leb→gt _ _ room))
]

-- The guard of an update passes where the row enters no population that is full.
guard_entry-Guards :
    (u : ℕ) (c : Commitment) (p : CommitmentUpdate) (db : Db)
    → is_live u c ≡ true
    → Guards (guard_entry u c p) (λ _. LeavesRoom u c p db) db
unfolding guard_entry apply_changes
guard_entry-Guards u c p db live =
    let new_type = new_or p.type c.type in
    elim (Bool-cases
      (not (is_counted (new_or p.status c.status)) || (is_counted c.status && c.type ≟ new_type))) [
        | inl e ↦ inl (
          tt,
          (
            rw e refl,
            λ t enters new.
                let e' = rw (tracked_only u t (apply_changes p c) enters).1 at e in
                absurd (ground (arith, live, e')),
          ),
        )
        | inr e ↦ elim (guard_limit-Guards u new_type db) [
          | inr (x, full) ↦ inr (x, rw (e, full) refl)
          | inl (_, (passes, room)) ↦ inl (
            tt,
            (
              rw (e, passes) refl,
              λ t enters new. rw (sym (tracked_only u t (apply_changes p c) enters).1) room,
            ),
          )
        ]
      ]

guard_restore-Guards :
    (u : ℕ) (ids : List ℕ) (db : Db)
    → Guards (guard_restore u ids) (λ _. (t : CommitmentType) → over_ceiling u ids db t ≡ false) db
unfolding guard_restore
guard_restore-Guards u ids db =
    elim (Bool-cases (over_ceiling u ids db subscription || over_ceiling u ids db invoice)) [
      | inl e ↦ inr (app (restore_limit_reached ceiling), rw e refl)
      | inr e ↦ inl (tt, (rw e refl, λ t. ground (arith, e)))
    ]

found_live : (u id : ℕ) (c : Commitment) (db : Db) → get_by_id id u db ≡ some c → is_live u c ≡ true
unfolding get_by_id
found_live u id c db e = ground (arith, find-holds _ db.commitments c e)

same_return :
    {A : Type 0} {a b : A} {x y : Db} → Path (Result A × Db) (ok a, x) (ok b, y) → (a ≡ b) × (x ≡ y)
same_return e = (cc, cc)

module _ {cap : Cap} where
  -- What follows a guard.
  guarded :
      {A B : Type 0} (m : Action A) (P : A → Type 0) (k : A → Action B) (db : Db)
      → Guards m P db
      → IsPopulated cap db
      → ((a : A) → P a → IsPopulated cap (k a db).1)
      → IsPopulated cap ((m >>= k) db).1
  guarded m P k db (inl (a, (passes, h))) q next =
      >>=-after (IsPopulated cap) m k db (rw passes q)
        (λ b after e. let (x, y) = same_return (sym passes ∙ e) in rw (sym x, sym y) (next a h))
  guarded m P k db (inr (x, stops)) q next =
      >>=-after (IsPopulated cap) m k db (rw stops q)
        (λ a after e. absurd (let clash = ap (λ r. r.0) (sym stops ∙ e) in cc))

  pub create_commitment-Preserves :
      (u : ℕ) (p : CommitmentCreate) (default_days : ℕ) (today : Date) (now : ℕ)
      → max_commitments_per_type ≤ cap u p.type
      → Preserves (IsPopulated cap) (create_commitment u p default_days today now)
  unfolding create_commitment row_of respond create
  create_commitment-Preserves u p default_days today now least db h =
      let row = row_of u p default_days now in
      guarded (guard_limit u p.type) _
        (λ _. modify (create row) >>= λ c. sync c today >>= λ _. respond u today c) db
        (guard_limit-Guards u p.type db) h
        (λ _ room.
          >>=-Preserves (sync (row db.next_id) today) (λ _. respond u today (row db.next_id))
            (sync-Preserves cap (row db.next_id) today) (λ _ db' q. q) (create row db).1
            (create-IsPopulated row db (λ i. refl) h (le_trans room least)))

  -- The write of an update, once its guard has passed, and what follows it.
  write_update-IsPopulated :
      (u id : ℕ) (p : CommitmentUpdate) (today : Date) (c : Commitment) (db : Db)
      → ((t : CommitmentType) → max_commitments_per_type ≤ cap u t)
      → IsPopulated cap db
      → get_by_id id u db ≡ some c
      → LeavesRoom u c p db
      → IsPopulated cap (write_update u id p today c db).1
  unfolding write_update apply_changes respond update_commitment
  write_update-IsPopulated u id p today c db least h found room =
      >>=-Preserves (after_update (apply_changes p c) p today)
        (λ _. respond u today (apply_changes p c))
        (λ db' q. IsPopulated-same cap db' _ (after_update-SameCommitments _ p today db') q)
        (λ _ db' q. q) (update_commitment id u (apply_changes p) db).1
        (update_commitment-IsPopulated cap id u (apply_changes p) c db (λ x. (refl, refl)) h found
          (λ t enters new. le_trans (room t enters new) (least t)))

  update_owned-IsPopulated :
      (u id : ℕ) (p : CommitmentUpdate) (today : Date) (c : Commitment) (db : Db)
      → ((t : CommitmentType) → max_commitments_per_type ≤ cap u t)
      → IsPopulated cap db
      → get_by_id id u db ≡ some c
      → IsPopulated cap (update_owned u id p today c db).1
  unfolding update_owned
  update_owned-IsPopulated u id p today c db least h found =
      guarded (raise_if (not (dates_in_order p c)) invalid_date_range) _
        (λ _. guard_entry u c p >> write_update u id p today c) db (raise_if-Guards _ _ db) h
        (λ _ _.
          guarded (guard_entry u c p) _ (λ _. write_update u id p today c) db
            (guard_entry-Guards u c p db (found_live u id c db found)) h
            (λ _. write_update-IsPopulated u id p today c db least h found))

  pub update_service-Preserves :
      (u id : ℕ) (p : CommitmentUpdate) (today : Date)
      → ((t : CommitmentType) → max_commitments_per_type ≤ cap u t)
      → Preserves (IsPopulated cap) (update_service u id p today)
  unfolding update_service
  update_service-Preserves u id p today least db h =
      guarded (raise_if (not (has_changes p)) no_fields_to_update) _
        (λ _. owned u id >>= update_owned u id p today) db (raise_if-Guards _ _ db) h
        (λ _ _.
          guarded (owned u id) _ (update_owned u id p today) db (owned-Guards u id db) h
            (λ c. update_owned-IsPopulated u id p today c db least h))

  pub restore-Preserves :
      (u : ℕ) (ids : List ℕ)
      → ((v : ℕ) (t : CommitmentType) → ceiling ≤ cap v t)
      → Preserves (IsPopulated cap) (restore u ids)
  unfolding restore restore_rows
  restore-Preserves u ids least db h =
      guarded (guard_restore u ids) _ (λ _. modify (restore_rows u ids)) db
        (guard_restore-Guards u ids db) h (λ _ fits. restore_rows-IsPopulated u ids db h least fits)
