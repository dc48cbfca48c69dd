-- ===== src/Redis/Subscriptions.antt =====
-- internal/adapters/storage/redis/subscription_repository.go
use Prim.Native.String.{◌++◌}
use pub_sub_go.Base.{
  String, Bool, not, Option, none, some, List, [], ◌∷◌, length, take, drop, ◌-◌, ◌==◌,
  if◌then◌else◌,
}
use pub_sub_go.Base.Int.{ℤ, pos, pos_part, ◌+ℤ◌, ltb_ℤ}
use pub_sub_go.Base.Words.{int64}
use pub_sub_go.Core.Subscription.{Subscription}
use pub_sub_go.Result.{
  Result, plain, wrapped, ok, err, Action, annotate, pure, raise, ◌>>=◌, ◌>>◌, noting, attempt,
}
use pub_sub_go.Ports.{SubscriptionRepository}
use pub_sub_go.Redis.Client.{Client, Json}

module _ (client : Client) (json : Json Subscription) where
  open client use {State}

  abbrev pub Method : Type 0 → Type 0
  Method A = Action State A

  abbrev pub subscription_key : String → String
  subscription_key id = "subscription:" ++ id

  abbrev pub topic_set : String → String
  topic_set topic = "topic:" ++ topic ++ ":subscriptions"

  abbrev pub group_set : String → String
  group_set group = "consumergroup:" ++ group ++ ":subscriptions"

  abbrev pub marshalled : Subscription → Method String
  marshalled sub s = (annotate "failed to marshal subscription" (json.marshal sub), s)

  unfoldable pub create : Subscription → Method (Unit {0})
  create sub = do
    text ← marshalled sub
    noting "failed to store subscription" (client.set (subscription_key sub.id) text (pos 0))
    noting "failed to add subscription to topic" (client.s_add (topic_set sub.topic) sub.id)
    if not (sub.consumer_group == "")
        then noting "failed to add subscription to consumer group"
            (client.s_add (group_set sub.consumer_group) sub.id)
        else pure tt

  unfoldable pub parsed : String → Option String → Method Subscription
  parsed id none s = raise (plain ("subscription not found: " ∷ id ∷ [])) s
  parsed id (some text) s = (annotate "failed to unmarshal subscription" (json.unmarshal text), s)

  unfoldable pub get : String → Method Subscription
  unfolding parsed
  get id = noting "failed to get subscription" (client.get (subscription_key id)) >>= parsed id

  unfoldable pub update : Subscription → ℤ → Method (Unit {0})
  update sub now = do
    text ← marshalled (record sub { updated_at = now })
    noting "failed to update subscription" (client.set (subscription_key sub.id) text (pos 0))

  unfoldable pub remove : String → Method (Unit {0})
  unfolding get
  remove id = do
    sub ← get id
    noting "failed to remove subscription from topic" (client.s_rem (topic_set sub.topic) id)
    if not (sub.consumer_group == "")
        then noting "failed to remove subscription from consumer group"
            (client.s_rem (group_set sub.consumer_group) id)
        else pure tt
    noting "failed to delete subscription" (client.del (subscription_key id ∷ []))

  -- The subscriptions of the identifiers; one that cannot be read is left out.
  unfoldable pub get_each : List String → Method (List Subscription)
  unfolding get
  get_each [] = pure []
  get_each (id ∷ ids) = do
    sub ← attempt (get id)
    subs ← get_each ids
    elim sub [ ok sub ↦ pure (sub ∷ subs) | err e ↦ pure subs ]

  unfoldable pub get_by_topic : String → Method (List Subscription)
  unfolding get_each
  get_by_topic topic = do
    ids ← noting "failed to get subscriptions for topic" (client.s_members (topic_set topic))
    get_each ids

  unfoldable pub get_by_consumer_group : String → Method (List Subscription)
  unfolding get_each
  get_by_consumer_group group = do
    ids ←
        noting "failed to get subscriptions for consumer group" (client.s_members (group_set group))
    get_each ids

  -- What a key of the search holds, if it is a subscription.
  abbrev pub subscription_at : String → Method (Option Subscription)
  subscription_at key = do
    found ← attempt (client.get key)
    elim found [
      | err e ↦ pure none
      | ok none ↦ pure none
      | ok (some text) ↦ elim (json.unmarshal text) [ ok sub ↦ pure (some sub) | err e ↦ pure none ]
    ]

  unfoldable pub read_each : List String → Method (List Subscription)
  read_each [] = pure []
  read_each (key ∷ keys) = do
    sub ← subscription_at key
    subs ← read_each keys
    elim sub [ none ↦ pure subs | some sub ↦ pure (sub ∷ subs) ]

  -- The subscriptions under the keys found, unless the search ended with an error.
  abbrev pub scan_all : Method (List Subscription)
  scan_all s =
      let r = client.scan "subscription:*" s in
      let read = read_each r.0.0 r.1 in
      elim r.0.1 [
        | none ↦ read
        | some e ↦ (err (wrapped "failed to iterate subscriptions" e), read.1)
      ]

  unfoldable pub active_ones : List Subscription → List Subscription
  active_ones [] = []
  active_ones (sub ∷ subs) = let rest = active_ones subs in if sub.active then sub ∷ rest else rest

  unfoldable pub get_active : Method (List Subscription)
  unfolding read_each active_ones
  get_active = do subs ← scan_all; pure (active_ones subs)

  -- `subscriptions[start:end]`; bounds out of order or below zero panic.
  unfoldable pub page : (start end : ℤ) → List Subscription → Result (List Subscription)
  page start end subs =
      let n = pos (length subs) in
      let stop = if ltb_ℤ n end then n else end in
      if ltb_ℤ n start
      then ok []
      else if ltb_ℤ start (pos 0)
      then err (plain ("runtime error: slice bounds out of range" ∷ []))
      else if ltb_ℤ stop start
      then err (plain ("runtime error: slice bounds out of range" ∷ []))
      else ok (take (pos_part stop - pos_part start) (drop (pos_part start) subs))

  unfoldable pub list : ℤ → ℤ → Method (List Subscription)
  unfolding read_each page
  list offset limit = do subs ← scan_all; λ s. (page offset (int64 (offset +ℤ limit)) subs, s)

  unfoldable pub exists : String → Method Bool
  exists id = do
    n ← noting "failed to check subscription existence" (client.exists (subscription_key id))
    pure (ltb_ℤ (pos 0) n)

  -- `NewSubscriptionRepository`
  unfoldable pub new_subscription_repository : (now : ℤ) → SubscriptionRepository
  unfolding create get update remove get_by_topic get_by_consumer_group get_active list
  new_subscription_repository now = record {
    State = State;
    create = create;
    get = get;
    update = λ sub. update sub now;
    remove = remove;
    get_by_topic = get_by_topic;
    get_by_consumer_group = get_by_consumer_group;
    get_active = get_active;
    list = list;
  }
