-- ===== src/Jobs/Daily/Purges.antt =====
-- What the purges and the generation of a day leave of the journal.
use oublie_pas_backend.Base.{
  ℕ, Bool, List, ◌≤◌, ◌&&◌, ◌≡◌, true, false, ◌∷◌, Bool-cases, arith, inl, refl, inr, ◌+◌, ltb,
  ◌==◌, leb, sym, ==_iff,
}
use oublie_pas_backend.Session.{Db}
use oublie_pas_backend.Models.Columns.{email, ReminderKind}
use oublie_pas_backend.Base.Sql.{count, exists, delete}
use mathlib.Core.List.{[]}
use oublie_pas_backend.Base.Sql.Laws.{count_mono, count-delete, count-append}
use oublie_pas_backend.Repositories.Occurrences.{insert_occurrence, NewOccurrence, occurrence_of}
use oublie_pas_backend.Calendar.{Date}
use oublie_pas_backend.Notifications.Run.{Mail}
use oublie_pas_backend.Repositories.Reminders.{purge_reminders, was_sent, is_reminder}
use oublie_pas_backend.Repositories.Commitments.{purge_deleted, delete_commitments, deleted_before}
use oublie_pas_backend.Jobs.Daily.Calm.{AllCalm, Calm, retired, steady}
use oublie_pas_backend.Models.Commitments.{
  purge_reminders_after_days, CommitmentOccurrence, overdue_reminder_window_days,
}
use oublie_pas_backend.Notifications.Dispatch.Passes.{has_id, flag-le-one, is_lively}
use native.Mathlib.Nat.{le_trans}
use oublie_pas_backend.Notifications.ReminderWindow.{timezone_spread_days}
use oublie_pas_backend.Notifications.Dispatch.Once.{was_sent-reminders}
use mathlib.Core.Path.{subst}

module _ {ℓ} {A : Type ℓ} where
  exists_count :
      (p q : A → Bool) (xs : List A) → exists (λ x. q x && p x) xs ≡ true → 1 ≤ count p xs
  unfolding count exists
  exists_count p q [] e = cc
  exists_count p q (x ∷ xs) e = ground (arith, exists_count p q xs)

  -- The only row of a key, where it has a further property.
  single :
      (p q r : A → Bool) (xs : List A)
      → count p xs ≤ 1
      → exists (λ x. q x && p x) xs ≡ true
      → ((x : A) → q x ≡ true → r x ≡ false)
      → count (λ x. p x && r x) xs ≡ 0
  unfolding count exists
  single p q r [] h e f = refl
  single p q r (x ∷ xs) h e f = elim (Bool-cases (q x && p x)) [
    | inl t ↦
        let none_left : count p xs ≡ 0 = ground arith in
        ground (arith, f x, none_left, count_mono (λ x. p x && r x) p xs (λ y u. ground arith))
    | inr n ↦
        let later : exists (λ x. q x && p x) xs ≡ true = rw n at e in
        ground (arith, single p q r xs (ground arith) later f, exists_count p q xs later)
  ]

  single-delete :
      (p q : A → Bool) (xs : List A)
      → count p xs ≤ 1
      → exists (λ x. q x && p x) xs ≡ true
      → count p (delete q xs) ≡ 0
  unfolding count exists delete
  single-delete p q [] h e = refl
  single-delete p q (x ∷ xs) h e = elim (Bool-cases (q x && p x)) [
    | inl t ↦ ground (arith, count-delete q p xs, t)
    | inr n ↦
        let later : exists (λ x. q x && p x) xs ≡ true = rw n at e in
        ground (arith, n, single-delete p q xs (ground arith) later, exists_count p q xs later)
  ]

  exists-delete :
      (p q : A → Bool) (xs : List A)
      → ((x : A) → p x ≡ true → q x ≡ false)
      → exists p (delete q xs) ≡ exists p xs
  unfolding exists delete
  exists-delete p q [] h = refl
  exists-delete p q (x ∷ xs) h = ground (arith, h x, exists-delete p q xs h)

module _ (k : ReminderKind) (id slack : ℕ) (d : Date) (mails : List Mail) where
  -- The journal of occurrences that no reminder can be about any more.
  pub purge_reminders-Calm :
      (before : Date) (db : Db)
      → before + purge_reminders_after_days ≤ d
      → Calm k id slack d mails db
      → (slack' : ℕ) × Calm k id slack' d mails (purge_reminders before db).1
  unfolding purge_reminders was_sent
  purge_reminders-Calm before db h c =
      elim (Bool-cases (exists (λ o. ltb o.due_date before && has_id id o) db.occurrences)) [
        | inl t ↦ (
          1,
          retired k id slack d mails db _ c refl (omega arith) (
              single (has_id id) (λ o. ltb o.due_date before)
                (λ o. leb d (o.due_date + (overdue_reminder_window_days + timezone_spread_days)))
                db.occurrences (le_trans c.unique (flag-le-one (ltb id db.next_id))) t
                (λ o u. ground arith)),
        )
        | inr f ↦ (
          slack,
          steady k id slack d mails db _ c refl (omega arith) (omega arith) (
              exists-delete (is_reminder id k email) _ db.reminders (λ r u.
                subst (λ i. exists (λ o. ltb o.due_date before && o.id == i) db.occurrences ≡ false)
                  (sym ((==_iff r.occurrence_id id).0 (ground (arith, u)))) f)),
        )
      ]

  pub purge_deleted-Calm :
      (before : ℕ) (db : Db)
      → Calm k id slack d mails db
      → (slack' : ℕ) × Calm k id slack' d mails (purge_deleted before db).1
  unfolding purge_deleted delete_commitments was_sent
  purge_deleted-Calm before db c =
      let orphan = λ (o : CommitmentOccurrence).
        exists (λ x. deleted_before before x.deleted_at && x.id == o.commitment_id)
          db.commitments in
      elim (Bool-cases (exists (λ o. orphan o && has_id id o) db.occurrences)) [
        | inl t ↦
            let gone =
              single-delete (has_id id) orphan db.occurrences
                (le_trans c.unique (flag-le-one (ltb id db.next_id))) t in
            (
              1,
              retired k id slack d mails db _ c refl
                  (count-delete orphan (has_id id) db.occurrences)
                  (omega (
                    arith,
                    gone,
                    count_mono (is_lively id d) (has_id id) (delete orphan db.occurrences)
                        (λ o u. ground arith),
                  )),
            )
        | inr f ↦ (
          slack,
          steady k id slack d mails db _ c refl (count-delete orphan (has_id id) db.occurrences)
              (count-delete orphan (is_lively id d) db.occurrences)
              (exists-delete (is_reminder id k email) _ db.reminders (λ r u.
                subst (λ i. exists (λ o. orphan o && o.id == i) db.occurrences ≡ false)
                  (sym ((==_iff r.occurrence_id id).0 (ground (arith, u)))) f)),
        )
      ]

pub insert_occurrence-AllCalm :
    (d : Date) (mails : List Mail) (row : NewOccurrence) (db : Db)
    → AllCalm d mails db
    → AllCalm d mails (insert_occurrence row db)
unfolding insert_occurrence count
insert_occurrence-AllCalm d mails row db all k id =
    let (slack, c) = all k id in
    let more = count-append (has_id id) db.occurrences (occurrence_of db.next_id row ∷ []) in
    elim (Bool-cases (db.next_id == id)) [
      | inl t ↦ (
        0,
        record {
          marked = ground (arith, c.once, t);
          once = ground (arith, c.once);
          unique = ground (arith, more, c.unique, t);
          past = inl refl;
        },
      )
      | inr f ↦ (
        slack,
        record {
          marked = rw (was_sent-reminders k email (insert_occurrence row db) db id refl) c.marked;
          once = ground (arith, c.once);
          unique = ground (arith, more, c.unique, f);
          past = elim c.past [
            | inl z ↦ inl z
            | inr z ↦ inr (
                ground (
                  arith,
                  z,
                  f,
                  count-append (is_lively id d) db.occurrences (occurrence_of db.next_id row ∷ []),
                ))
          ];
        },
      )
    ]
