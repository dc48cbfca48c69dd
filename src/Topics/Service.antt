-- ===== src/Topics/Service.antt =====
-- internal/services/topic/topic_manager.go: the calls of the service. A panic ends a call, as an error
-- does.
use pub_sub_go.Base.{
  ◌*◌, ◌^◌, String, not, Option, none, some, List, [], ◌∷◌, map, insert, delete, length, take, ltb,
  if◌then◌else◌, ◌==◌,
}
use pub_sub_go.Base.Int.{ℤ, pos, pos_part, leb_ℤ, eqb_ℤ, ◌+ℤ◌}
use pub_sub_go.Core.Topic.{Topic, new_topic, hour}
use pub_sub_go.Result.{
  Result, plain, ok, err, Action, pure, raise, modify, ◌>>=◌, ◌>>◌, noting, attempt,
}
use pub_sub_go.Partitions.Manager.{initialize_partitions, cleanup_partitions}
use pub_sub_go.Partitions.Rebalance.{RebalanceResult, rebalance_partitions}
use pub_sub_go.Topics.Types.{
  CreateTopicRequest, CreateTopicResponse, UpdateTopicRequest, TopicInfo, TopicStats, TopicHealth,
  ListTopicsRequest, ListTopicsResponse, PartitionInfo, StatsCollector, Env, Service, with_topics,
}
use pub_sub_go.Topics.Balance.{get_partition_info}
use pub_sub_go.Topics.Requests.{
  validate_create_topic_request, value_or, updated_topic, topic_info, page_limit, page_offset,
  refreshed,
}
use pub_sub_go.Topics.Stats.{
  get_cached_stats, get_cached_health, collect_topic_stats, collect_topic_health, filter_topics,
}

module _ {V : Type 0} (env : Env V) where
  open env use {topic_repo, floats, config, to_lower, contains}
  open floats use {Float}

  abbrev pub State : Type 0
  State = Service V Float topic_repo.State

  abbrev pub Method : Type 0 → Type 0
  Method A = Action State A

  -- The entity that `CreateTopic` stores.
  unfoldable pub new_entity : CreateTopicRequest V → ℤ → Topic V
  unfolding new_topic
  new_entity req now =
      let partitions =
        if leb_ℤ req.partitions (pos 0) then config.default_partitions else req.partitions in
      let t = new_topic req.name partitions now in
      record t {
        replication =
            if leb_ℤ req.replication (pos 0) then config.default_replication else req.replication;
        retention_time =
            if eqb_ℤ req.retention_time (pos 0) then pos (24 * hour) else req.retention_time;
        max_size = if leb_ℤ req.max_size (pos 0) then pos (2 ^ 30) else req.max_size;
        config = value_or t.config req.config;
      }

  unfoldable pub initialise : Topic V → ℤ → Method (Unit {0})
  unfolding initialize_partitions
  initialise t now s = elim (initialize_partitions t.name t.partitions now s.partition_manager) [
    | none ↦ (err (plain ("runtime error: makeslice: len out of range" ∷ [])), s)
    | some pm ↦ (ok tt, record s { partition_manager = pm })
  ]

  unfoldable pub create_topic : CreateTopicRequest V → ℤ → Method CreateTopicResponse
  unfolding validate_create_topic_request new_entity initialise
  create_topic req now = do
    noting "invalid create topic request" (λ s. (validate_create_topic_request req, s))
    exists ← noting "failed to check topic existence" (with_topics (topic_repo.exists req.name))
    let t = new_entity req now
    if exists then raise (plain ("topic " ∷ req.name ∷ " already exists" ∷ [])) else (do
      noting "failed to create topic" (with_topics (topic_repo.create t))
      initialise t now
      modify λ s. record s {
        active_topics = insert t.name (record { topic = t; last_access = now }) s.active_topics;
      }
      pure (record {
        name = t.name;
        partitions = t.partitions;
        replication = t.replication;
        retention_time = t.retention_time;
        max_size = t.max_size;
        created_at = t.created_at;
      }))

  -- A value that the collector computes and caches.
  abbrev pub collecting :
      {A : Type 0} → (StatsCollector Float → A × StatsCollector Float) → Method A
  collecting f s = let r = f s.stats_collector in (ok r.0, record s { stats_collector = r.1 })

  unfoldable pub stats_or_collect :
      String → ℤ → Option (TopicStats Float) → Method (TopicStats Float)
  unfolding collect_topic_stats
  stats_or_collect name now (some stats) s = (ok stats, s)
  stats_or_collect name now none s =
      (noting "failed to get topic" (with_topics (topic_repo.get name)) >>= λ t.
      collecting (collect_topic_stats env t now))
        s

  unfoldable pub get_topic_stats : String → ℤ → Method (TopicStats Float)
  unfolding get_cached_stats stats_or_collect
  get_topic_stats name now s =
      stats_or_collect name now (get_cached_stats name now s.stats_collector) s

  abbrev pub ok_part : {A : Type 0} → Result A → Option A
  ok_part (ok a) = some a
  ok_part (err e) = none

  unfoldable pub get_topic_health : String → ℤ → Method TopicHealth
  unfolding get_cached_health collect_topic_health get_partition_info
  get_topic_health name now s = elim (get_cached_health name now s.stats_collector) [
    | some health ↦ (ok health, s)
    | none ↦
        (noting "failed to get topic" (with_topics (topic_repo.get name)) >>= λ t. collecting (
            collect_topic_health env t
              (ok_part (get_partition_info floats name s.partition_manager)) now))
          s
  ]

  abbrev pub health_or_unknown : Result TopicHealth → String
  health_or_unknown (ok h) = h.health
  health_or_unknown (err e) = "unknown"

  unfoldable pub get_topic : String → ℤ → Method (TopicInfo V Float)
  unfolding get_topic_health get_topic_stats topic_info
  get_topic name now = do
    t ← noting "failed to get topic" (with_topics (topic_repo.get name))
    health ← attempt (get_topic_health name now)
    stats ← attempt (get_topic_stats name now)
    pure (topic_info t (health_or_unknown health) (ok_part stats))

  unfoldable pub update_topic : String → UpdateTopicRequest V → ℤ → Method (TopicInfo V Float)
  unfolding updated_topic refreshed get_topic
  update_topic name req now = do
    t ← noting "failed to get topic" (with_topics (topic_repo.get name))
    elim (updated_topic req now t) [
      | none ↦ raise (plain ("no updates provided" ∷ []))
      | some u ↦ do
        noting "failed to update topic" (with_topics (topic_repo.update u))
        modify λ s. record s { active_topics = refreshed u now s.active_topics }
        get_topic name now
    ]

  unfoldable pub delete_topic : String → Method (Unit {0})
  unfolding cleanup_partitions
  delete_topic name = do
    exists ← noting "failed to check topic existence" (with_topics (topic_repo.exists name))
    if not exists then raise (plain ("topic " ∷ name ∷ " does not exist" ∷ [])) else (do
      noting "failed to delete topic" (with_topics (topic_repo.remove name))
      modify λ s. record s {
        partition_manager = cleanup_partitions name s.partition_manager;
        active_topics = delete name s.active_topics;
      })

  -- The page of the topics found: one more than the limit was asked for.
  unfoldable pub page_of : ListTopicsRequest → List (Topic V) → ListTopicsResponse V Float
  unfolding page_limit page_offset filter_topics topic_info
  page_of req found =
      let limit = pos_part (page_limit req.limit) in
      let topics = if req.filter == "" then found else filter_topics env found req.filter in
      let more = ltb limit (length topics) in
      let shown = if more then take limit topics else topics in
      record {
        topics = map (λ t. topic_info t "unknown" none) shown;
        total = pos (length shown);
        offset = page_offset req.offset;
        limit = page_limit req.limit;
        has_more = more;
      }

  unfoldable pub list_topics : ListTopicsRequest → Method (ListTopicsResponse V Float)
  unfolding page_of page_limit page_offset
  list_topics req = do
    found ←
        noting "failed to list topics"
          (with_topics (topic_repo.list (page_offset req.offset) (page_limit req.limit +ℤ pos 1)))
    pure (page_of req found)

  unfoldable pub get_partitions : String → State → Result (PartitionInfo Float)
  unfolding get_partition_info
  get_partitions name s = get_partition_info floats name s.partition_manager

  unfoldable pub rebalance : String → ℤ → ℤ → Method RebalanceResult
  unfolding rebalance_partitions
  rebalance name started completed s =
      elim (rebalance_partitions name started completed s.partition_manager) [
        | none ↦ (err (plain ("runtime error: index out of range" ∷ [])), s)
        | some r ↦ (r.0, record s { partition_manager = r.1 })
      ]
