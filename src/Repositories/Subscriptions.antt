-- ===== src/Repositories/Subscriptions.antt =====
-- repositories/push_repository.py: the devices that take push messages.
pub mod Rows
pub mod Limit
use oublie_pas_backend.Base.{
  ℕ, Bool, List, Option, some, ◌+◌, ◌++◌, ◌∷◌, [], if◌then◌else◌, ◌==◌, ◌&&◌, ◌||◌, ◌≟◌, ltb, not,
  map, string_eq,
}
use oublie_pas_backend.Base.Sql.{
  select, order_by, limit, find, exists, update, delete, count, is_in,
}
use oublie_pas_backend.Models.Users.{PushSubscription, max_push_subscriptions_per_user}
use oublie_pas_backend.Session.{Db}
use Prim.Native.String.{String}

abbrev seen_ge : PushSubscription → PushSubscription → Bool
seen_ge a b = not (ltb a.last_seen_at b.last_seen_at)

abbrev pub is_of : ℕ → PushSubscription → Bool
is_of user_id s = s.user_id == user_id

abbrev pub is_at : String → PushSubscription → Bool
is_at endpoint s = s.endpoint ≟ endpoint

unfoldable pub list_for_user : ℕ → Db → List PushSubscription
list_for_user user_id db = order_by seen_ge (select (is_of user_id) db.subscriptions)

unfoldable pub find_subscription : ℕ → String → Db → Option PushSubscription
find_subscription user_id endpoint db =
    find (λ s. is_of user_id s && is_at endpoint s) db.subscriptions

-- ORDER BY last_seen_at DESC, id DESC
abbrev pub is_kept_before : PushSubscription → PushSubscription → Bool
is_kept_before a b =
    ltb b.last_seen_at a.last_seen_at || (a.last_seen_at == b.last_seen_at && not (ltb a.id b.id))

unfoldable pub kept_ids : ℕ → ℕ → List PushSubscription → List ℕ
kept_ids user_id keep rows =
    map (λ s. s.id) (limit (some keep) (order_by is_kept_before (select (is_of user_id) rows)))

abbrev pub is_pruned : ℕ → List ℕ → PushSubscription → Bool
is_pruned user_id ids s = is_of user_id s && not (is_in s.id ids)

unfoldable pub prune : ℕ → ℕ → Db → ℕ × Db
unfolding kept_ids
prune user_id keep db =
    let ids = kept_ids user_id keep db.subscriptions in
    (
      count (is_pruned user_id ids) db.subscriptions,
      record db { subscriptions = delete (is_pruned user_id ids) db.subscriptions },
    )

-- INSERT ... ON CONFLICT (endpoint) DO UPDATE, and the pruning.
unfoldable pub upsert : ℕ → String → String → String → Option String → ℕ → Db → Db
upsert user_id endpoint p256dh auth user_agent now db =
    let row : PushSubscription = record {
      id = db.next_id;
      user_id = user_id;
      endpoint = endpoint;
      p256dh = p256dh;
      auth = auth;
      user_agent = user_agent;
      last_seen_at = now;
    } in
    if exists (is_at endpoint) db.subscriptions
    then record db {
      subscriptions =
          update (is_at endpoint)
            (λ s. record s {
              user_id = user_id;
              p256dh = p256dh;
              auth = auth;
              user_agent = user_agent;
              last_seen_at = now;
            })
            db.subscriptions;
    }
    else record db { subscriptions = db.subscriptions ++ (row ∷ []); next_id = db.next_id + 1 }

unfoldable pub save :
    ℕ → String → String → String → Option String → ℕ → Db → Option PushSubscription × Db
unfolding upsert prune
save user_id endpoint p256dh auth user_agent now db =
    let written = upsert user_id endpoint p256dh auth user_agent now db in
    (
      find (is_at endpoint) written.subscriptions,
      (prune user_id max_push_subscriptions_per_user written).1,
    )

unfoldable pub remove : ℕ → String → Db → ℕ × Db
remove user_id endpoint db = (
  count (λ s. is_of user_id s && is_at endpoint s) db.subscriptions,
  record db { subscriptions = delete (λ s. is_of user_id s && is_at endpoint s) db.subscriptions },
)

unfoldable pub forget : String → Db → ℕ × Db
forget endpoint db = (
  count (is_at endpoint) db.subscriptions,
  record db { subscriptions = delete (is_at endpoint) db.subscriptions },
)
