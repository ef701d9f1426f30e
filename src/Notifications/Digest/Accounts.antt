-- ===== src/Notifications/Digest/Accounts.antt =====
-- How often an account stands in the batches of a digest.
use oublie_pas_backend.Base.{
  ℕ, ◌≤◌, ◌≡◌, ◌==◌, List, ◌∷◌, [], refl, arith, inl, inr, Bool-cases, Bool, false, map,
}
use oublie_pas_backend.Base.Sql.{count, is_in, exists, select}
use oublie_pas_backend.Notifications.Run.{Entry}
use oublie_pas_backend.Notifications.Dispatch.{add_entry, group_by_user}
use oublie_pas_backend.Repositories.Digests.{sent_for_week, is_digest, is_week}
use oublie_pas_backend.Calendar.{Date}
use oublie_pas_backend.Session.{Db}
use oublie_pas_backend.Models.Commitments.{WeeklyDigest}

abbrev pub is_batch : ℕ → ℕ × List Entry → Bool
is_batch u g = g.0 == u

other-account :
    (u : ℕ) (e : Entry) (groups : List (ℕ × List Entry))
    → (e.occurrence.user_id == u) ≡ false
    → count (is_batch u) (add_entry e groups) ≡ count (is_batch u) groups
unfolding count add_entry
other-account u e [] h = ground (arith, h)
other-account u e ((v, rows) ∷ groups) h = elim (Bool-cases (v == e.occurrence.user_id)) [
  | inl t ↦ rw t (ground (arith, h))
  | inr f ↦ rw f (ground (arith, other-account u e groups h))
]

add_entry-count :
    (u : ℕ) (e : Entry) (groups : List (ℕ × List Entry))
    → count (is_batch u) groups ≤ 1
    → count (is_batch u) (add_entry e groups) ≤ 1
unfolding count add_entry
add_entry-count u e [] h = ground arith
add_entry-count u e ((v, rows) ∷ groups) h = elim (Bool-cases (v == e.occurrence.user_id)) [
  | inl t ↦ rw t (ground (arith, h))
  | inr f ↦ rw f (ground (arith, h, f, other-account u e groups, add_entry-count u e groups))
]

-- An account has one batch.
pub group_by_user-count :
    (u : ℕ) (es : List Entry) (groups : List (ℕ × List Entry))
    → count (is_batch u) groups ≤ 1
    → count (is_batch u) (group_by_user es groups) ≤ 1
unfolding group_by_user
group_by_user-count u [] groups h = h
group_by_user-count u (e ∷ es) groups h =
    group_by_user-count u es (add_entry e groups) (add_entry-count u e groups h)

-- The accounts that `sent_for_week` returns are those with a digest of the week.
pub sent_for_week-is_in :
    (u : ℕ) (start : Date) (db : Db)
    → is_in u (sent_for_week start db) ≡ exists (is_digest u start) db.digests
unfolding sent_for_week is_in select exists
sent_for_week-is_in u start db = listed db.digests
  where
    listed :
        (ds : List WeeklyDigest)
        → exists (λ y. y == u) (map (λ d. d.user_id) (select (is_week start) ds))
          ≡ exists (is_digest u start) ds
    listed [] = refl
    listed (d ∷ ds) = ground (arith, listed ds)
