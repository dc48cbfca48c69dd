-- ===== src/Topics/Requests.antt =====
-- internal/services/topic/topic_manager.go: what the calls of the service make of their requests.
use pub_sub_go.Base.{
  String, Bool, true, false, ◌||◌, Option, none, some, [], ◌∷◌, Dict, insert, lookup, if◌then◌else◌,
  ◌==◌,
}
use pub_sub_go.Base.Int.{ℤ, pos, ltb_ℤ, leb_ℤ}
use pub_sub_go.Core.Topic.{Topic}
use pub_sub_go.Result.{Result, plain, ok, err}
use pub_sub_go.Topics.Types.{
  CreateTopicRequest, UpdateTopicRequest, TopicInfo, TopicStats, ActiveTopic,
}

unfoldable pub validate_create_topic_request :
    {V : Type 0} → CreateTopicRequest V → Result (Unit {0})
validate_create_topic_request req =
    if req.name == ""
    then err (plain ("topic name cannot be empty" ∷ []))
    else if ltb_ℤ req.partitions (pos 0)
    then err (plain ("partitions cannot be negative" ∷ []))
    else if ltb_ℤ req.replication (pos 0)
    then err (plain ("replication cannot be negative" ∷ []))
    else if ltb_ℤ req.retention_time (pos 0)
    then err (plain ("retention time cannot be negative" ∷ []))
    else if ltb_ℤ req.max_size (pos 0)
    then err (plain ("max size cannot be negative" ∷ []))
    else ok tt

-- for k, v := range from { to[k] = v }
unfoldable pub merge_config : {V : Type 0} → Dict V → Dict V → Dict V
merge_config [] to = to
merge_config ((k, v) ∷ from) to = insert k v (merge_config from to)

-- The fields of the request that are there; `none` when there are none.
abbrev pub value_or : {A : Type 0} → A → Option A → A
value_or d none = d
value_or d (some a) = a

abbrev pub is_given : {A : Type 0} → Option A → Bool
is_given none = false
is_given (some a) = true

abbrev pub merged : {V : Type 0} → Dict V → Option (Dict V) → Dict V
merged config none = config
merged config (some from) = merge_config from config

unfoldable pub updated_topic : {V : Type 0} → UpdateTopicRequest V → ℤ → Topic V → Option (Topic V)
unfolding merge_config
updated_topic req now t =
    if is_given req.retention_time || is_given req.max_size || is_given req.config
    then some (record t {
      retention_time = value_or t.retention_time req.retention_time;
      max_size = value_or t.max_size req.max_size;
      config = merged t.config req.config;
      updated_at = now;
    })
    else none

abbrev pub topic_status : String
topic_status = "active"

unfoldable pub topic_info :
    {V F : Type 0} → Topic V → String → Option (TopicStats F) → TopicInfo V F
topic_info t health stats = record {
  name = t.name;
  partitions = t.partitions;
  replication = t.replication;
  retention_time = t.retention_time;
  max_size = t.max_size;
  config = t.config;
  created_at = t.created_at;
  updated_at = t.updated_at;
  status = topic_status;
  health = health;
  stats = stats;
}

unfoldable pub page_limit : ℤ → ℤ
page_limit limit =
    if leb_ℤ limit (pos 0) then pos 50 else if ltb_ℤ (pos 1000) limit then pos 1000 else limit

unfoldable pub page_offset : ℤ → ℤ
page_offset offset = if ltb_ℤ offset (pos 0) then pos 0 else offset

-- The active topics, with a topic that was made or changed.
unfoldable pub refreshed : {V : Type 0} → Topic V → ℤ → Dict (ActiveTopic V) → Dict (ActiveTopic V)
refreshed t now active = elim (lookup t.name active) [
  | none ↦ active
  | some a ↦ insert t.name (record { topic = t; last_access = now }) active
]
