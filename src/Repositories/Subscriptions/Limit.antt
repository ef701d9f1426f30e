-- ===== src/Repositories/Subscriptions/Limit.antt =====
-- The number of devices of an account.
use oublie_pas_backend.Base.{
  ℕ, Bool, List, ◌==◌, Option, ◌∷◌, ◌≡◌, ◌≤◌, All, ◌<◌, arith, false, refl, Bool-cases, inl, inr,
  sym, ◌∙◌,
}
use oublie_pas_backend.Models.Users.{PushSubscription, max_push_subscriptions_per_user}
use oublie_pas_backend.Session.{Db}
use Prim.Native.String.{String}
use oublie_pas_backend.Base.Sql.{count, is_in, exists, delete}
use oublie_pas_backend.Repositories.Subscriptions.{
  prune, is_of, save, kept_ids, remove, forget, is_pruned, upsert, is_at,
}
use mathlib.Core.List.{[]}
use oublie_pas_backend.Base.Sql.Laws.{All-of, count-delete, All-delete, count-update_le}
use mathlib.Core.Path.{subst}
use oublie_pas_backend.Repositories.Subscriptions.Rows.{
  is_device, fresh_count, appended, All-updated_id, deleted_le, count-left, updated_le, below_added,
  count-is_in, kept_ids-length,
}

-- At most ten devices for each account, with unique identifiers below the next one.
pub record AreDevices (db : Db) : Type 0 where
  pub few : (v : ℕ) → count (is_of v) db.subscriptions ≤ max_push_subscriptions_per_user
  pub unique : (i : ℕ) → count (is_device i) db.subscriptions ≤ 1
  pub below : All (λ s. s.id < db.next_id) db.subscriptions

-- The writes of the repository.
pub data DeviceOp : Type 0 where
  save_op : ℕ → String → String → String → Option String → ℕ → DeviceOp
  remove_op : ℕ → String → DeviceOp
  forget_op : String → DeviceOp

unfoldable pub apply_device : DeviceOp → Db → Db
apply_device (save_op user_id endpoint p256dh auth user_agent now) db =
    (save user_id endpoint p256dh auth user_agent now db).1
apply_device (remove_op user_id endpoint) db = (remove user_id endpoint db).1
apply_device (forget_op endpoint) db = (forget endpoint db).1

unfoldable pub apply_devices : List DeviceOp → Db → Db
apply_devices [] db = db
apply_devices (op ∷ ops) db = apply_devices ops (apply_device op db)

pruned_count :
    (user_id keep : ℕ) (db : Db)
    → ((i : ℕ) → count (is_device i) db.subscriptions ≤ 1)
    → count (is_of user_id) (prune user_id keep db).1.subscriptions ≤ keep
unfolding prune
pruned_count user_id keep db one =
    let ids = kept_ids user_id keep db.subscriptions in
    omega (
      arith,
      count-left (is_pruned user_id ids) (is_of user_id) (λ s. is_in s.id ids) db.subscriptions
          (λ s mine left. ground (arith, mine, left)),
      count-is_in ids db.subscriptions one,
      kept_ids-length user_id keep db.subscriptions,
    )

pruned_other :
    (user_id v : ℕ) (db : Db)
    → count (is_of v) db.subscriptions ≤ max_push_subscriptions_per_user
    → count (is_of v) (prune user_id max_push_subscriptions_per_user db).1.subscriptions
      ≤ max_push_subscriptions_per_user
unfolding prune
pruned_other user_id v db h = omega (
  arith,
  count-delete
      (is_pruned user_id (kept_ids user_id max_push_subscriptions_per_user db.subscriptions))
      (is_of v) db.subscriptions,
  h,
)

-- What the INSERT does, before the pruning.
module _ (user_id : ℕ) (endpoint p256dh auth : String) (user_agent : Option String) (now : ℕ) where
  upsert_few :
      (v : ℕ) (db : Db)
      → (user_id == v) ≡ false
      → count (is_of v) (upsert user_id endpoint p256dh auth user_agent now db).subscriptions
        ≤ count (is_of v) db.subscriptions
  unfolding upsert
  upsert_few v db other = elim (Bool-cases (exists (is_at endpoint) db.subscriptions)) [
    | inl e ↦ rw e (
        count-update_le (is_at endpoint) (is_of v) _ db.subscriptions
          (All-of (λ s _ moved. absurd (let clash = sym other ∙ moved in cc)) db.subscriptions))
    | inr e ↦ rw e (appended (is_of v) db.subscriptions _ other)
  ]

  upsert_unique :
      (i : ℕ) (db : Db)
      → AreDevices db
      → count (is_device i) (upsert user_id endpoint p256dh auth user_agent now db).subscriptions
        ≤ 1
  unfolding upsert
  upsert_unique i db d = elim (Bool-cases (exists (is_at endpoint) db.subscriptions)) [
    | inl e ↦
        rw e
          (updated_le (is_at endpoint) (is_device i) _ db.subscriptions 1 (λ s. refl) (d.unique i))
    | inr e ↦ rw e (fresh_count i db.subscriptions db.next_id _ refl d.below (d.unique i))
  ]

  upsert_below :
      (db : Db)
      → AreDevices db
      → All
          (λ s. s.id < (upsert user_id endpoint p256dh auth user_agent now db).next_id)
          (upsert user_id endpoint p256dh auth user_agent now db).subscriptions
  unfolding upsert
  upsert_below db d = elim (Bool-cases (exists (is_at endpoint) db.subscriptions)) [
    | inl e ↦ rw e (
        All-updated_id (λ n. n < db.next_id) (is_at endpoint) _ db.subscriptions (λ s. refl)
          d.below)
    | inr e ↦ rw e (below_added db.subscriptions db.next_id _ refl d.below)
  ]

save_few :
    (user_id : ℕ) (endpoint p256dh auth : String) (user_agent : Option String) (now v : ℕ) (db : Db)
    → AreDevices db
    → count (is_of v) (save user_id endpoint p256dh auth user_agent now db).1.subscriptions
      ≤ max_push_subscriptions_per_user
unfolding save
save_few user_id endpoint p256dh auth user_agent now v db d =
    let after = upsert user_id endpoint p256dh auth user_agent now db in
    elim (Bool-cases (user_id == v)) [
      | inl e ↦
          let own : user_id ≡ v = ground (arith, e) in
          subst
            (λ u.
              count (is_of u) (prune user_id max_push_subscriptions_per_user after).1.subscriptions
              ≤ max_push_subscriptions_per_user)
            own
            (pruned_count user_id max_push_subscriptions_per_user after
              (λ i. upsert_unique user_id endpoint p256dh auth user_agent now i db d))
      | inr e ↦
          pruned_other user_id v after
            (omega (arith, d.few v, upsert_few user_id endpoint p256dh auth user_agent now v db e))
    ]

save-AreDevices :
    (user_id : ℕ) (endpoint p256dh auth : String) (user_agent : Option String) (now : ℕ) (db : Db)
    → AreDevices db
    → AreDevices (save user_id endpoint p256dh auth user_agent now db).1
unfolding save prune
save-AreDevices user_id endpoint p256dh auth user_agent now db d =
    let after = upsert user_id endpoint p256dh auth user_agent now db in
    let p =
      is_pruned user_id (kept_ids user_id max_push_subscriptions_per_user after.subscriptions) in
    record {
      few = λ v. save_few user_id endpoint p256dh auth user_agent now v db d;
      unique = λ i.
          deleted_le p (is_device i) after.subscriptions 1
            (upsert_unique user_id endpoint p256dh auth user_agent now i db d);
      below =
          All-delete (λ s. s.id < after.next_id) p after.subscriptions
            (upsert_below user_id endpoint p256dh auth user_agent now db d);
    }

less-AreDevices :
    (p : PushSubscription → Bool) (db : Db)
    → AreDevices db
    → AreDevices (record db { subscriptions = delete p db.subscriptions })
less-AreDevices p db d = record {
  few = λ v. omega (arith, count-delete p (is_of v) db.subscriptions, d.few v);
  unique = λ i. omega (arith, count-delete p (is_device i) db.subscriptions, d.unique i);
  below = All-delete (λ s. s.id < db.next_id) p db.subscriptions d.below;
}

apply_device-AreDevices :
    (op : DeviceOp) (db : Db) → AreDevices db → AreDevices (apply_device op db)
unfolding apply_device remove forget
apply_device-AreDevices (save_op user_id endpoint p256dh auth user_agent now) db d =
    save-AreDevices user_id endpoint p256dh auth user_agent now db d
apply_device-AreDevices (remove_op user_id endpoint) db d = less-AreDevices _ db d
apply_device-AreDevices (forget_op endpoint) db d = less-AreDevices _ db d

-- After any list of saves and removals of devices, from a table whose identifiers are unique and below
-- the next one and where each account has at most ten devices, this holds again.
pub apply_devices-AreDevices :
    (ops : List DeviceOp) (db : Db) → AreDevices db → AreDevices (apply_devices ops db)
unfolding apply_devices
apply_devices-AreDevices [] db d = d
apply_devices-AreDevices (op ∷ ops) db d =
    apply_devices-AreDevices ops (apply_device op db) (apply_device-AreDevices op db d)
