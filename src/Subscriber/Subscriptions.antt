-- ===== src/Subscriber/Subscriptions.antt =====
-- internal/services/subscriber/subscriber.go and management.go: the life of a subscription.
use pub_sub_go.Base.{
  String, Bool, true, false, not, ◌&&◌, ◌||◌, Option, none, some, List, [], ◌∷◌, map, insert,
  lookup, if◌then◌else◌, ◌==◌,
}
use pub_sub_go.Base.Int.{ℤ, pos, eqb_ℤ}
use pub_sub_go.Core.Subscription.{
  Subscription, SubscriptionType, pull, push, new_subscription, deactivate,
}
use pub_sub_go.Result.{
  Result, plain, ok, err, pure, raise, modify, read, ◌>>=◌, ◌>>◌, noting, ignoring,
}
use pub_sub_go.Subscriber.Types.{
  SubscribeRequest, SubscribeResponse, SubscriptionInfo, ActiveSubscription, Env,
  with_subscriptions, with_topics,
}
use pub_sub_go.Subscriber.Pull.{Method, draw}

-- Only the two named types of subscription are modelled, so the second test never fails.
unfoldable pub validate_subscribe_request : SubscribeRequest → Result (Unit {0})
validate_subscribe_request req =
    if req.topic == "" then err (plain ("topic cannot be empty" ∷ [])) else ok tt

unfoldable pub get_type_string : SubscriptionType → String
get_type_string pull = "pull"
get_type_string push = "push"

unfoldable pub subscription_info : Subscription → SubscriptionInfo
subscription_info sub = record {
  id = sub.id;
  topic = sub.topic;
  consumer_group = sub.consumer_group;
  kind = sub.kind;
  active = sub.active;
  ack_deadline = sub.ack_deadline;
  max_retries = sub.max_retries;
  dead_letter_topic = sub.dead_letter_topic;
  created_at = sub.created_at;
  stats = record {
    messages_delivered = sub.messages_delivered;
    messages_acked = sub.messages_acked;
    messages_nacked = sub.messages_nacked;
    messages_dlq = sub.messages_dlq;
    last_ack_time = sub.last_ack_time;
  };
}

abbrev pub unless_zero : ℤ → ℤ → ℤ
unless_zero n d = if eqb_ℤ n (pos 0) then d else n

-- The entry of the map, which an unlisted struct has not.
unfoldable pub listed_entry : Option ActiveSubscription → Option ActiveSubscription
listed_entry none = none
listed_entry (some a) = if a.listed then some a else none

-- A push subscription has a channel and a worker, a pull subscription neither.
unfoldable pub new_active : SubscriptionType → Subscription → ℤ → ActiveSubscription
new_active pull sub now = record {
  subscription = sub;
  message_chan = none;
  closed = false;
  can_cancel = false;
  cancelled = false;
  last_activity = now;
  listed = true;
}
new_active push sub now = record {
  subscription = sub;
  message_chan = some [];
  closed = false;
  can_cancel = true;
  cancelled = false;
  last_activity = now;
  listed = true;
}

abbrev pub is_push : SubscriptionType → Bool
is_push pull = false
is_push push = true

abbrev pub has_channel : ActiveSubscription → Bool
has_channel a = elim a.message_chan [ none ↦ false | some c ↦ true ]

-- Whether closing the channel panics: it has been closed before.
abbrev pub close_panics : ActiveSubscription → Bool
close_panics a = has_channel a && a.closed

-- The worker is cancelled, the channel closed, the subscription deactivated.
unfoldable pub stopped : ℤ → ActiveSubscription → ActiveSubscription
stopped now a = record a {
  listed = false;
  cancelled = if a.can_cancel then true else a.cancelled;
  closed = if has_channel a then true else a.closed;
  subscription = deactivate a.subscription now;
}

module _ {V : Type 0} (env : Env V) where
  open env use {subscription_repo, topic_repo, config}

  unfoldable pub created_subscription : SubscribeRequest → String → ℤ → Subscription
  unfolding new_subscription
  created_subscription req id now =
      record (new_subscription id req.topic req.consumer_group req.kind now) {
        ack_deadline = unless_zero req.ack_deadline config.default_ack_deadline;
        max_retries = unless_zero req.max_retries config.max_retries;
        dead_letter_topic = req.dead_letter_topic;
        filter = req.filter;
        config = req.config;
      }

  unfoldable pub subscribe : SubscribeRequest → ℤ → Method env SubscribeResponse
  unfolding validate_subscribe_request created_subscription new_active get_type_string
  subscribe req now = do
    noting "invalid subscribe request" (λ s. (validate_subscribe_request req, s))
    exists ← noting "failed to check topic existence" (with_topics (topic_repo.exists req.topic))
    if not exists then raise (plain ("topic " ∷ req.topic ∷ " does not exist" ∷ [])) else (do
      id ← draw env
      let sub = created_subscription req id now
      noting "failed to create subscription" (with_subscriptions (subscription_repo.create sub))
      modify
          λ s. record s { subscriptions = insert id (new_active req.kind sub now) s.subscriptions }
      pure (record {
        subscription_id = id;
        topic = req.topic;
        consumer_group = req.consumer_group;
        consumer_id = req.consumer_id;
        kind = get_type_string req.kind;
        has_chan = is_push req.kind;
      }))

  unfoldable pub unsubscribe : String → ℤ → Method env (Unit {0})
  unfolding listed_entry stopped deactivate
  unsubscribe id now = do
    found ← read λ s. listed_entry (lookup id s.subscriptions)
    elim found [
      | none ↦ raise (plain ("subscription " ∷ id ∷ " not found" ∷ []))
      | some a ↦
          (modify λ s. record s {
            subscriptions = insert id (stopped now a) s.subscriptions;
            panicked = s.panicked || close_panics a;
          })
          >> ignoring
              (with_subscriptions (subscription_repo.update (deactivate a.subscription now)))
    ]

  unfoldable pub get_subscription : String → Method env SubscriptionInfo
  unfolding listed_entry subscription_info
  get_subscription id = do
    found ← read λ s. listed_entry (lookup id s.subscriptions)
    elim found [
      | some a ↦ pure (subscription_info a.subscription)
      | none ↦ do
        sub ← noting "subscription not found" (with_subscriptions (subscription_repo.get id))
        pure (subscription_info sub)
    ]

  unfoldable pub list_subscriptions : String → Method env (List SubscriptionInfo)
  unfolding subscription_info
  list_subscriptions topic = do
    subs ←
        noting "failed to get subscriptions for topic"
          (with_subscriptions (subscription_repo.get_by_topic topic))
    pure (map subscription_info subs)
