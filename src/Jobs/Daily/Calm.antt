-- ===== src/Jobs/Daily/Calm.antt =====
-- The tables between two runs, against the mails that have left.
use oublie_pas_backend.Base.{ℕ, List, ◌≤◌, ◌≡◌, inl, inr, ◌+◌, arith, ltb, ◌⊎◌}
use oublie_pas_backend.Session.{Db}
use oublie_pas_backend.Models.Columns.{email, ReminderKind}
use oublie_pas_backend.Calendar.{Date}
use oublie_pas_backend.Notifications.Run.{Mail}
use oublie_pas_backend.Notifications.Dispatch.Batches.{told}
use oublie_pas_backend.Notifications.Dispatch.Once.{flag}
use oublie_pas_backend.Base.Sql.{count}
use oublie_pas_backend.Repositories.Reminders.{was_sent}
use oublie_pas_backend.Notifications.Dispatch.Passes.{has_id, is_lively}
use oublie_pas_backend.Base.Sql.Laws.{count_mono}
use native.Mathlib.Nat.{le_trans}

-- One occurrence and one kind: at most one mail, with its mark or past every reminder from the day on.
pub record Calm (k : ReminderKind) (id slack : ℕ) (on_date : Date) (mails : List Mail) (db : Db)
    : Type 0 where
  pub marked : told k id mails ≤ flag (was_sent k email db id) + slack
  pub once : told k id mails ≤ flag (ltb id db.next_id)
  pub unique : count (has_id id) db.occurrences ≤ flag (ltb id db.next_id)
  pub past : (slack ≡ 0) ⊎ (count (is_lively id on_date) db.occurrences ≡ 0)

abbrev pub AllCalm : Date → List Mail → Db → Type 0
AllCalm on_date mails db =
    (k : ReminderKind) (id : ℕ) → (slack : ℕ) × Calm k id slack on_date mails db

-- A later day.
pub later-AllCalm :
    (d d' : Date) (mails : List Mail) (db : Db) → d ≤ d' → AllCalm d mails db → AllCalm d' mails db
later-AllCalm d d' mails db h all k id =
    let (slack, c) = all k id in
    (
      slack,
      record {
        marked = c.marked;
        once = c.once;
        unique = c.unique;
        past = elim c.past [
          | inl z ↦ inl z
          | inr z ↦ inr (
              omega (
                arith,
                z,
                count_mono (is_lively id d') (is_lively id d) db.occurrences (λ o t. ground arith),
              ))
        ];
      },
    )

-- An occurrence whose marks are gone is past every reminder.
pub retired :
    (k : ReminderKind) (id slack : ℕ) (d : Date) (mails : List Mail) (before after : Db)
    → Calm k id slack d mails before
    → after.next_id ≡ before.next_id
    → count (has_id id) after.occurrences ≤ count (has_id id) before.occurrences
    → count (is_lively id d) after.occurrences ≡ 0
    → Calm k id 1 d mails after
retired k id slack d mails before after c next fewer z = record {
  marked = ground (arith, c.once);
  once = rw next c.once;
  unique = rw next (le_trans fewer c.unique);
  past = inr z;
}

-- A change of the tables that keeps the marks of an occurrence.
pub steady :
    (k : ReminderKind) (id slack : ℕ) (d : Date) (mails : List Mail) (before after : Db)
    → Calm k id slack d mails before
    → after.next_id ≡ before.next_id
    → count (has_id id) after.occurrences ≤ count (has_id id) before.occurrences
    → count (is_lively id d) after.occurrences ≤ count (is_lively id d) before.occurrences
    → was_sent k email after id ≡ was_sent k email before id
    → Calm k id slack d mails after
steady k id slack d mails before after c next fewer live sent = record {
  marked = rw sent c.marked;
  once = rw next c.once;
  unique = rw next (le_trans fewer c.unique);
  past = elim c.past [ inl z ↦ inl z | inr z ↦ inr (omega (arith, live, z)) ];
}
