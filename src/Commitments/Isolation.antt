-- ===== src/Commitments/Isolation.antt =====
-- The commitments of the other accounts, under the requests of one account.
use oublie_pas_backend.Base.{
  ℕ, List, Bool, ◌≡◌, not, true, ap, ◌==◌, ◌&&◌, false, ◌∙◌, arith, ◌∷◌, refl, some, ==_refl, sym,
}
use oublie_pas_backend.Models.Commitments.{Commitment}
use oublie_pas_backend.Session.{Db, modify}
use oublie_pas_backend.Base.Sql.{select, update}
use oublie_pas_backend.Repositories.Commitments.{
  delete_commitments, create, delete_many, restore_rows, is_live, in_trash, soft_delete,
  update_commitment, delete_one, delete_all, purge_now,
}
use oublie_pas_backend.Commitments.Population.Frame.{
  SameCommitments, after_update-SameCommitments, sync-SameCommitments,
  write_occurrence-SameCommitments,
}
use oublie_pas_backend.Schemas.Commitments.{CommitmentCreate, CommitmentUpdate}
use oublie_pas_backend.Commitments.Service.{row_of, create_commitment}
use oublie_pas_backend.Commitments.Requests.Calls.{Preserves}
use oublie_pas_backend.Calendar.{Date}
use oublie_pas_backend.Base.Sql.Laws.{select-delete, select-append, select-update}
use mathlib.Core.List.{[], append-nil}
use oublie_pas_backend.Commitments.Requests.{Request, actor, run}
use oublie_pas_backend.Commitments.Service.Update.{apply_changes, update_service, status_only}
use oublie_pas_backend.Commitments.Requests.Handlers.{run-Preserves, Handles}
use mathlib.Core.Path.{subst}
use oublie_pas_backend.Commitments.Requests.Unguarded.{
  update_service-writes, create_commitment-writes, restore-writes,
}
use oublie_pas_backend.Commitments.Service.Trash.{restore}

abbrev pub is_foreign : ℕ → Commitment → Bool
is_foreign u c = not (c.user_id == u)

abbrev pub foreign : ℕ → Db → List Commitment
foreign u db = select (is_foreign u) db.commitments

live_not_foreign :
    (u : ℕ) (c : Commitment) (b : Bool) → (is_live u c && b) ≡ true → is_foreign u c ≡ false
live_not_foreign u c b h = ground arith

trash_not_foreign :
    (u : ℕ) (c : Commitment) (b : Bool) → (in_trash u c && b) ≡ true → is_foreign u c ≡ false
trash_not_foreign u c b h = ground arith

is_actor : (u v : ℕ) → some v ≡ some u → u ≡ v
is_actor u v e = cc

module _ (u : ℕ) (xs : List Commitment) where
  IsKept : Db → Type 0
  IsKept db = foreign u db ≡ xs

  -- An update of rows of the account itself, which stay with it.
  updates_own :
      (p : Commitment → Bool) (f : Commitment → Commitment) (db : Db)
      → ((c : Commitment) → p c ≡ true → is_foreign u c ≡ false)
      → ((c : Commitment) → (f c).user_id ≡ c.user_id)
      → IsKept db
      → select (is_foreign u) (update p f db.commitments) ≡ xs
  unfolding IsKept
  updates_own p f db own keeps h =
      select-update p (is_foreign u) f db.commitments
        (λ c e. (own c e, ap (λ v. not (v == u)) (keeps c) ∙ own c e))
      ∙ h

  deletes_own :
      (p : Commitment → Bool) (db : Db)
      → ((c : Commitment) → p c ≡ true → is_foreign u c ≡ false)
      → IsKept db
      → IsKept (delete_commitments p db).1
  unfolding IsKept delete_commitments
  deletes_own p db own h = select-delete p (is_foreign u) db.commitments own ∙ h

  same_commitments : (a b : Db) → SameCommitments a b → IsKept a → IsKept b
  unfolding IsKept
  same_commitments a b s h = ap (select (is_foreign u)) s.commitments ∙ h

  creates_own :
      (p : CommitmentCreate) (days now : ℕ)
      → Preserves IsKept (modify (create (row_of u p days now)))
  unfolding IsKept create row_of select
  creates_own p days now db h =
      let own : is_foreign u (row_of u p days now db.next_id) ≡ false = rw (==_refl u) refl in
      select-append (is_foreign u) db.commitments (row_of u p days now db.next_id ∷ [])
      ∙ rw own (append-nil (foreign u db))
      ∙ h

  delete_many-IsKept : (ids : List ℕ) (now : ℕ) → Preserves IsKept (modify (delete_many u ids now))
  unfolding delete_many IsKept soft_delete
  delete_many-IsKept [] now db h = h
  delete_many-IsKept (i ∷ ids) now db h =
      updates_own _ _ db (λ c e. live_not_foreign u c _ e) (λ c. refl) h

  restore_rows-IsKept : (ids : List ℕ) → Preserves IsKept (modify (restore_rows u ids))
  unfolding restore_rows IsKept
  restore_rows-IsKept [] db h = h
  restore_rows-IsKept (i ∷ ids) db h =
      updates_own _ _ db (λ c e. trash_not_foreign u c _ e) (λ c. refl) h

  updates_own_service :
      (v id : ℕ) (p : CommitmentUpdate) (today : Date)
      → u ≡ v
      → Preserves IsKept (update_service v id p today)
  unfolding update_commitment IsKept apply_changes
  updates_own_service v id p today e =
      subst (λ w. Preserves IsKept (update_service w id p today)) e
        (update_service-writes IsKept u id p today
          (λ db h.
            updates_own _ (apply_changes p) db (λ c e. live_not_foreign u c _ e) (λ c. refl) h)
          (λ c db. same_commitments db _ (after_update-SameCommitments c p today db)))

  isolation_handlers : Handles IsKept (λ r. actor r ≡ some u)
  unfolding delete_one delete_all purge_now soft_delete actor IsKept
  isolation_handlers = record {
    creates = λ v p days today now a.
        subst (λ w. Preserves IsKept (create_commitment w p days today now)) (is_actor u v a)
          (create_commitment-writes IsKept u p days today now (creates_own p days now)
            (λ c db. same_commitments db _ (sync-SameCommitments c today db)));
    updates = λ v id p today a. updates_own_service v id p today (is_actor u v a);
    updates_many = λ v ids status today a id.
        updates_own_service v id (status_only status) today (is_actor u v a);
    deletes = λ v id now a db.
        updates_own _ _ db (λ c e. live_not_foreign u c _ (rw (sym (is_actor u v a)) at e))
          (λ c. refl);
    deletes_many = λ v ids now a.
        subst (λ w. Preserves IsKept (modify (delete_many w ids now))) (is_actor u v a)
          (delete_many-IsKept ids now);
    deletes_all = λ v t status now a db.
        updates_own _ _ db (λ c e. live_not_foreign u c _ (rw (sym (is_actor u v a)) at e))
          (λ c. refl);
    restores = λ v ids a.
        subst (λ w. Preserves IsKept (restore w ids)) (is_actor u v a)
          (restore-writes IsKept u ids (restore_rows-IsKept ids));
    purges = λ v t a db.
        deletes_own _ db (λ c e. trash_not_foreign u c _ (rw (sym (is_actor u v a)) at e));
    settles = λ v id p today now a o db.
        same_commitments db _ (write_occurrence-SameCommitments v id p today now o db);
    expires = λ before a. absurd (let clash = a in cc);
    syncs = λ today_in today a. absurd (let clash = a in cc);
  }

-- A request of one account leaves the commitments of every other account as they are: the same
-- rows, in the same order.
pub run-foreign :
    (r : Request) (db : Db) (u : ℕ) → actor r ≡ some u → foreign u (run r db) ≡ foreign u db
unfolding IsKept
run-foreign r db u a =
    run-Preserves (IsKept u (foreign u db)) _ (isolation_handlers u (foreign u db)) r db a refl
