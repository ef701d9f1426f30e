-- ===== src/Commitments/Requests/Unguarded.antt =====
-- The handlers of an invariant that needs no guard: their writes are enough.
use oublie_pas_backend.Session.{Db, modify, ◌>>=◌, raise_if}
use oublie_pas_backend.Commitments.Service.{guard_limit, create_commitment, respond, row_of, owned}
use oublie_pas_backend.Commitments.Service.Update.{
  guard_entry, apply_changes, after_update, new_or, write_update, update_owned, update_service,
  dates_in_order, has_changes, reschedules, changes_actions,
}
use oublie_pas_backend.Base.{
  ℕ, List, Bool-cases, leb, not, some, ◌||◌, Option, ◌&&◌, ◌∷◌, ◌≟◌, ◌+◌, inl, inr,
}
use oublie_pas_backend.Commitments.Service.Trash.{restore, guard_restore, over_ceiling}
use oublie_pas_backend.Models.Columns.{
  CommitmentType, subscription, invoice, ReminderKind, active, type_eq, status_eq, action_required,
}
use oublie_pas_backend.Models.Commitments.{Commitment, max_commitments_per_type, is_counted}
use oublie_pas_backend.Schemas.Commitments.{CommitmentUpdate, CommitmentCreate}
use oublie_pas_backend.Repositories.Occurrences.{
  NewOccurrence, add_occurrences, delete_pending_occurrences_from,
}
use oublie_pas_backend.Commitments.Requests.Calls.{Preserves, raise_if-Preserves, >>=-Preserves}
use oublie_pas_backend.Calendar.{Date}
use oublie_pas_backend.Repositories.Commitments.{
  create, update_commitment, restore_rows, count_commitments, active_with_timezone,
}
use oublie_pas_backend.Commitments.Sync.{
  sync, sync_each, sync_all_active, add_rows, resync, floor_of,
}
use Prim.Native.String.{String}
use oublie_pas_backend.Errors.{Result, ok, invalid_date_range, no_fields_to_update, err}
use oublie_pas_backend.Repositories.Reminders.{clear_reminders}
use oublie_pas_backend.Commitments.Requests.Handlers.{owned-Preserves}
use oublie_pas_backend.Commitments.Rows.{rows}
use mathlib.Core.List.{[]}

module _ (P : Db → Type 0) where
  guard_limit-Preserves : (u : ℕ) (t : CommitmentType) → Preserves P (guard_limit u t)
  unfolding guard_limit
  guard_limit-Preserves u t db p =
      raise_if-Preserves P
        (leb max_commitments_per_type (count_commitments u is_counted (some t) db)) _ db p

  guard_entry-Preserves :
      (u : ℕ) (c : Commitment) (p : CommitmentUpdate) → Preserves P (guard_entry u c p)
  unfolding guard_entry
  guard_entry-Preserves u c p db h =
      elim (Bool-cases (
        not (is_counted (new_or p.status c.status))
        || (is_counted c.status && c.type ≟ new_or p.type c.type))) [
          | inl e ↦ rw e h
          | inr e ↦ rw e (guard_limit-Preserves u (new_or p.type c.type) db h)
        ]

  pub create_commitment-writes :
      (u : ℕ) (p : CommitmentCreate) (days : ℕ) (today : Date) (now : ℕ)
      → Preserves P (modify (create (row_of u p days now)))
      → ((c : Commitment) → Preserves P (sync c today))
      → Preserves P (create_commitment u p days today now)
  unfolding create_commitment respond
  create_commitment-writes u p days today now h k =
      >>=-Preserves (guard_limit u p.type)
        (λ _.
          modify (create (row_of u p days now)) >>= λ c. sync c today >>= λ _. respond u today c)
        (guard_limit-Preserves u p.type)
        (λ _.
          >>=-Preserves (modify (create (row_of u p days now)))
            (λ c. sync c today >>= λ _. respond u today c) h
            (λ c. >>=-Preserves (sync c today) (λ _. respond u today c) (k c) (λ _ db q. q)))

  module _ (u id : ℕ) (p : CommitmentUpdate) (today : Date)
      (h : Preserves P (modify (update_commitment id u (apply_changes p))))
      (k : (c : Commitment) → Preserves P (after_update c p today)) where
    write_update-writes : (c : Commitment) → Preserves P (write_update u id p today c)
    unfolding write_update respond
    write_update-writes c =
        >>=-Preserves (modify (update_commitment id u (apply_changes p)))
          (λ _.
            after_update (apply_changes p c) p today >>= λ _. respond u today (apply_changes p c))
          h
          (λ _.
            >>=-Preserves (after_update (apply_changes p c) p today)
              (λ _. respond u today (apply_changes p c)) (k (apply_changes p c)) (λ _ db q. q))

    update_owned-writes : (c : Commitment) → Preserves P (update_owned u id p today c)
    unfolding update_owned
    update_owned-writes c =
        >>=-Preserves (raise_if (not (dates_in_order p c)) invalid_date_range)
          (λ _. guard_entry u c p >>= λ _. write_update u id p today c) (raise_if-Preserves P _ _)
          (λ _.
            >>=-Preserves (guard_entry u c p) (λ _. write_update u id p today c)
              (guard_entry-Preserves u c p) (λ _. write_update-writes c))

    pub update_service-writes : Preserves P (update_service u id p today)
    unfolding update_service
    update_service-writes =
        >>=-Preserves (raise_if (not (has_changes p)) no_fields_to_update)
          (λ _. owned u id >>= update_owned u id p today) (raise_if-Preserves P _ _)
          (λ _.
            >>=-Preserves (owned u id) (update_owned u id p today) (owned-Preserves P u id)
              update_owned-writes)

  pub restore-writes :
      (u : ℕ) (ids : List ℕ)
      → Preserves P (modify (restore_rows u ids))
      → Preserves P (restore u ids)
  unfolding restore guard_restore
  restore-writes u ids h =
      >>=-Preserves (guard_restore u ids) (λ _. modify (restore_rows u ids))
        (λ db.
          raise_if-Preserves P (over_ceiling u ids db subscription || over_ceiling u ids db invoice)
            _ db)
        (λ _. h)

  -- The generator writes by two queries only.
  module _ (adds : (new : List NewOccurrence) → Preserves P (modify (add_occurrences new))) where
    pub sync-writes : (c : Commitment) (today : Date) → Preserves P (sync c today)
    unfolding sync add_rows
    sync-writes c today db p = elim (Bool-cases (c.status ≟ active)) [
      | inl e ↦ rw e (go (rows c today))
      | inr e ↦ rw e p
    ]
      where
        go : (new : Result (List NewOccurrence)) → P (add_rows new db).1
        go (ok new) = adds new db p
        go (err e) = p

    sync_each-writes :
        (today_in : String → Date) (today : Option Date) (cs : List (Commitment × String)) (n : ℕ)
        → Preserves P (sync_each today_in today cs n)
    unfolding sync_each
    sync_each-writes today_in today [] n = λ db p. p
    sync_each-writes today_in today ((c, zone) ∷ cs) n =
        >>=-Preserves (sync c (floor_of today (today_in zone)))
          (λ m. sync_each today_in today cs (n + m)) (sync-writes c _)
          (λ m. sync_each-writes today_in today cs (n + m))

    pub sync_all_active-writes :
        (today_in : String → Date) (today : Option Date)
        → Preserves P (sync_all_active today_in today)
    unfolding sync_all_active
    sync_all_active-writes today_in today db =
        sync_each-writes today_in today (active_with_timezone db) 0 db

    pub after_update-writes :
        (c : Commitment) (p : CommitmentUpdate) (today : Date)
        → ((id floor : ℕ) → Preserves P (modify (delete_pending_occurrences_from id floor)))
        → ((id : ℕ) (k : ReminderKind) → Preserves P (modify (clear_reminders id k)))
        → Preserves P (after_update c p today)
    unfolding after_update resync
    after_update-writes c p today h k db q = elim (Bool-cases (reschedules p)) [
      | inl e ↦ rw e (sync-writes c today _ (h c.id today db q))
      | inr e ↦ elim (Bool-cases (changes_actions p)) [
        | inl f ↦ rw (e, f) (k c.id action_required db q)
        | inr f ↦ rw (e, f) q
      ]
    ]
