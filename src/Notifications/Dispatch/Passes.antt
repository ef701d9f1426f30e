-- ===== src/Notifications/Dispatch/Passes.antt =====
-- A whole pass over the reminders, for one kind and one occurrence.
use oublie_pas_backend.Base.{
  ℕ, Bool, ◌==◌, ◌≤◌, ◌&&◌, ◌+◌, ◌≡◌, leb, true, arith, false, if◌then◌else◌, inl, ◌⊎◌, inr,
  Bool-cases, ◌≟◌, List, sym, ◌∷◌, refl, ltb,
}
use oublie_pas_backend.Models.Columns.{
  email, push, ReminderKind, Channel, notice, overdue, action_required, kind_beq_iff, kind_eq,
}
use oublie_pas_backend.Errors.{ok, err, Result}
use oublie_pas_backend.Notifications.ReminderWindow.{query_bounds, bounds, timezone_spread_days}
use oublie_pas_backend.Calendar.{Date, sub_days, add_days, date_of}
use oublie_pas_backend.Models.Commitments.{CommitmentOccurrence, overdue_reminder_window_days}
use oublie_pas_backend.Notifications.Run.{Run, and_then, Job, World, Entry}
use oublie_pas_backend.Repositories.Reminders.{was_sent}
use oublie_pas_backend.Base.Sql.{count, sum_by}
use oublie_pas_backend.Notifications.Dispatch.Queries.{is_takable, entries_of-count}
use oublie_pas_backend.Notifications.Dispatch.Batches.{told, mentions-group_by_user, mentions}
use oublie_pas_backend.Base.Sql.Laws.{count-when_none, All-of, count_mono}
use oublie_pas_backend.Notifications.Dispatch.Once.{load, Told, Advances, flag}
use oublie_pas_backend.Notifications.Dispatch.{
  send_kind, send_kinds, send_due, dispatch, fresh, calls, entries_of, count_users, counter_of,
  group_by_user,
}
use mathlib.Core.Path.{subst}
use mathlib.Core.List.{[]}
use oublie_pas_backend.Notifications.Dispatch.Steps.{dispatch_groups-Advances}
use native.Mathlib.Nat.{le_trans}

query_bounds-le :
    (kind : ReminderKind) (on_date : Date) (b : Date × Date)
    → query_bounds kind on_date ≡ ok b
    → on_date ≤ b.0 + (overdue_reminder_window_days + timezone_spread_days)
unfolding query_bounds bounds sub_days add_days
query_bounds-le notice on_date b h = ground (arith, h)
query_bounds-le overdue on_date b h = ground (arith, h)
query_bounds-le action_required on_date b h = ground (arith, h)

-- An occurrence that a reminder of some kind may still be about on a day.
abbrev pub is_lively : ℕ → Date → CommitmentOccurrence → Bool
is_lively id on_date o =
    o.id == id && leb on_date (o.due_date + (overdue_reminder_window_days + timezone_spread_days))

abbrev pub has_id : ℕ → CommitmentOccurrence → Bool
has_id id o = o.id == id

pub flag-le-one : (b : Bool) → flag b ≤ 1
flag-le-one true = omega arith
flag-le-one false = omega arith

-- The tables before a pass on a day: the mails told of the occurrence at most once, and it is in
-- the journal if they did, or it is past every reminder. Only identifiers below `limit` are in use.
pub record IsTold (k : ReminderKind) (id slack : ℕ) (start : Run) (on_date : Date) (r : Run)
    : Type 0 where
  pub told_r : Told k id slack start r
  pub once : told k id r.mails ≤ flag (ltb id start.db.next_id)
  pub unique : count (has_id id) r.db.occurrences ≤ flag (ltb id start.db.next_id)
  pub past : (slack ≡ 0) ⊎ (count (is_lively id on_date) r.db.occurrences ≡ 0)

module _ (k : ReminderKind) (id slack : ℕ) (start : Run) (on_date : Date) where
  takable-count :
      (kind : ReminderKind) (channel : Channel) (earliest : Date) (r : Run)
      → on_date ≤ earliest + (overdue_reminder_window_days + timezone_spread_days)
      → IsTold k id slack start on_date r
      → was_sent kind channel r.db id ≡ false
      → count (is_takable kind channel id earliest r.db) r.db.occurrences
        ≤ (if slack == 0 then flag (ltb id start.db.next_id) else 0)
  takable-count kind channel earliest r h i n = elim i.past [
    | inl z ↦ ground (
      arith,
      z,
      i.unique,
      count_mono (is_takable kind channel id earliest r.db) (has_id id) r.db.occurrences
          (λ o t. ground arith),
    )
    | inr z ↦ ground (
      arith,
      z,
      count_mono (is_takable kind channel id earliest r.db) (is_lively id on_date) r.db.occurrences
          (λ o t. ground arith),
    )
  ]

  takable-sent :
      (kind : ReminderKind) (channel : Channel) (earliest : Date) (r : Run)
      → was_sent kind channel r.db id ≡ true
      → count (is_takable kind channel id earliest r.db) r.db.occurrences ≡ 0
  takable-sent kind channel earliest r t =
      count-when_none _ r.db.occurrences (All-of (λ o. ground (arith, t)) r.db.occurrences)

  same_kind :
      (earliest : Date) (r : Run)
      → on_date ≤ earliest + (overdue_reminder_window_days + timezone_spread_days)
      → IsTold k id slack start on_date r
      → told k id r.mails + count (is_takable k email id earliest r.db) r.db.occurrences
        ≤ flag (ltb id start.db.next_id)
  same_kind earliest r h i = elim (Bool-cases (was_sent k email r.db id)) [
    | inl t ↦ omega (arith, takable-sent k email earliest r t, i.once)
    | inr f ↦ ground (arith, takable-count k email earliest r h i f, i.once, i.told_r, f)
  ]

  -- A pass tells of the occurrence only if no mail did.
  budget :
      (kind : ReminderKind) (channel : Channel) (earliest : Date) (r : Run)
      → on_date ≤ earliest + (overdue_reminder_window_days + timezone_spread_days)
      → IsTold k id slack start on_date r
      → told k id r.mails
          + load kind channel k (count (is_takable kind channel id earliest r.db) r.db.occurrences)
        ≤ flag (ltb id start.db.next_id)
  budget kind push earliest r h i = ground (arith, i.once)
  budget kind email earliest r h i = elim (Bool-cases (kind ≟ k)) [
    | inl t ↦ rw t (
        subst
          (λ x.
            told k id r.mails + count (is_takable x email id earliest r.db) r.db.occurrences
            ≤ flag (ltb id start.db.next_id))
          (sym ((kind_beq_iff kind k).0 t)) (same_kind earliest r h i))
    | inr f ↦ rw f (omega (arith, i.once))
  ]

  advanced :
      (n : ℕ) (r s : Run)
      → IsTold k id slack start on_date r
      → told k id r.mails + n ≤ flag (ltb id start.db.next_id)
      → Advances k id slack start n r s
      → IsTold k id slack start on_date s
  advanced n r s i fits a = record {
    told_r = a.told_s;
    once = omega (arith, fits, a.told_le);
    unique = rw a.occurrences i.unique;
    past = rw a.occurrences i.past;
  }

  send_kind-IsTold :
      (w : World) (saved : (x : Run) → w.saves x ≡ true) (at : ℕ) (channel : Channel)
      (kind : ReminderKind) (r : Run)
      → date_of at ≡ on_date
      → IsTold k id slack start on_date r
      → IsTold k id slack start on_date (send_kind w at channel kind r).1
  unfolding send_kind dispatch mentions sum_by
  send_kind-IsTold w saved at channel kind r day i =
      handed (entries_of kind (date_of at) channel r.db) refl
    where
      handed :
          (entries : Result (List Entry))
          → entries_of kind (date_of at) channel r.db ≡ entries
          → IsTold k id slack start on_date
              (dispatch w kind channel (counter_of kind) at entries r).1
      handed (err e) q = i
      handed (ok es) q =
          let (b, bounded, few) = entries_of-count kind channel id (date_of at) r.db es q in
          let early = query_bounds-le kind (date_of at) b bounded in
          let fits = budget kind channel b.0 r (omega (arith, early, day)) i in
          let all = mentions-group_by_user id es [] in
          let n = mentions id (group_by_user es []) in
          let room : told k id r.mails + load kind channel k n ≤ flag (ltb id start.db.next_id) =
            ground (arith, few, all, fits) in
          advanced (load kind channel k n) r _ i room (
            dispatch_groups-Advances k id slack start w saved kind (counter_of kind) at channel
              (group_by_user es []) r i.told_r
              (le_trans room (flag-le-one (ltb id start.db.next_id))))

  and_then-IsTold :
      (p : Result (Unit {0}) × Run) (next : Job)
      → IsTold k id slack start on_date p.1
      → ((s : Run) → IsTold k id slack start on_date s → IsTold k id slack start on_date (next s).1)
      → IsTold k id slack start on_date (and_then p next).1
  unfolding and_then
  and_then-IsTold (ok _, s) next i h = h s i
  and_then-IsTold (err e, s) next i h = i

  send_kinds-IsTold :
      (w : World) (saved : (x : Run) → w.saves x ≡ true) (at : ℕ)
      (calls : List (Channel × ReminderKind)) (r : Run)
      → date_of at ≡ on_date
      → IsTold k id slack start on_date r
      → IsTold k id slack start on_date (send_kinds w at calls r).1
  unfolding send_kinds
  send_kinds-IsTold w saved at [] r day i = i
  send_kinds-IsTold w saved at ((channel, kind) ∷ calls) r day i =
      and_then-IsTold (send_kind w at channel kind r) (send_kinds w at calls)
        (send_kind-IsTold w saved at channel kind r day i)
        (λ s. send_kinds-IsTold w saved at calls s day)

  pub send_due-IsTold :
      (w : World) (saved : (x : Run) → w.saves x ≡ true) (at : ℕ) (r : Run)
      → date_of at ≡ on_date
      → IsTold k id slack start on_date r
      → IsTold k id slack start on_date (send_due w at r).1
  unfolding send_due fresh
  send_due-IsTold w saved at r day i =
      and_then-IsTold (send_kinds w at (calls w) (fresh r)) (λ after. (ok tt, count_users after))
        (send_kinds-IsTold w saved at (calls w) (fresh r) day (ground (arith, i)))
        (λ s h. ground (arith, h))
