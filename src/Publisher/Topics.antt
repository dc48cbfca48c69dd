-- ===== src/Publisher/Topics.antt =====
-- internal/services/publisher/publisher.go: topics.
use pub_sub_go.Base.{◌*◌, String, not, none, some, List, [], ◌∷◌, map, if◌then◌else◌}
use pub_sub_go.Base.Int.{ℤ, pos, ltb_ℤ, leb_ℤ}
use pub_sub_go.Core.Topic.{Topic, new_topic, get_stats, hour}
use pub_sub_go.Result.{plain, ok, err, Action, pure, raise, ◌>>=◌, ◌>>◌, noting, ok_or, attempt}
use pub_sub_go.Publisher.Types.{
  CreateTopicRequest, TopicStats, TopicInfo, Env, Stores, with_messages, with_topics,
}

abbrev pub positive_or : ℤ → ℤ → ℤ
positive_or n d = if leb_ℤ n (pos 0) then d else n

module _ {V : Type 0} (env : Env V) where
  open env use {message_repo, topic_repo, config}

  abbrev pub Method : Type 0 → Type 0
  Method A = Action (Stores message_repo.State topic_repo.State) A

  -- The entity that `CreateTopic` stores.
  unfoldable pub created_topic : CreateTopicRequest V → ℤ → Topic V
  unfolding new_topic
  created_topic req now =
      let partitions = positive_or req.partitions config.default_partitions in
      let t = new_topic req.name partitions now in
      record t {
        replication = positive_or req.replication config.default_replication;
        retention_time = positive_or req.retention_time (pos (24 * hour));
        max_size = if ltb_ℤ (pos 0) req.max_size then req.max_size else t.max_size;
        config = elim req.config [ none ↦ t.config | some c ↦ c ];
      }

  unfoldable pub create_topic : CreateTopicRequest V → ℤ → Method (Unit {0})
  unfolding created_topic
  create_topic req now = do
    exists ← noting "failed to check topic existence" (with_topics (topic_repo.exists req.name))
    if exists
        then raise (plain ("topic " ∷ req.name ∷ " already exists" ∷ []))
        else noting "failed to create topic"
            (with_topics (topic_repo.create (created_topic req now)))

  unfoldable pub delete_topic : String → Method (Unit {0})
  delete_topic name = do
    exists ← noting "failed to check topic existence" (with_topics (topic_repo.exists name))
    if not exists
        then raise (plain ("topic " ∷ name ∷ " does not exist" ∷ []))
        else noting "failed to delete topic" (with_topics (topic_repo.remove name))

  unfoldable pub get_topic_stats : String → Method TopicStats
  unfolding get_stats
  get_topic_stats name = do
    t ← noting "failed to get topic" (with_topics (topic_repo.get name))
    count ← attempt (with_messages (message_repo.count_by_topic name))
    let stats = get_stats t
    pure (record {
      topic = t.name;
      partitions = t.partitions;
      messages = ok_or t.message_count count;
      bytes_in = stats.1;
      bytes_out = stats.2;
      created_at = t.created_at;
      updated_at = t.updated_at;
    })

  unfoldable pub list_topics : Method (List (TopicInfo V))
  list_topics = do
    topics ← noting "failed to list topics" (with_topics (topic_repo.list (pos 0) (pos 1000)))
    pure (
        map
          (λ t. record {
            name = t.name;
            partitions = t.partitions;
            message_count = t.message_count;
            retention_time = t.retention_time;
            created_at = t.created_at;
            config = t.config;
          })
          topics)

  -- `ensureTopicExists`: any error of the query counts as a missing topic.
  unfoldable pub ensure_topic_exists : String → ℤ → Method (Topic V)
  unfolding create_topic
  ensure_topic_exists name now = do
    found ← attempt (with_topics (topic_repo.get name))
    elim found [
      | ok t ↦ pure t
      | err e ↦ do
        create_topic
            (record {
              name = name;
              partitions = config.default_partitions;
              replication = pos 0;
              retention_time = pos 0;
              max_size = pos 0;
              config = none;
            })
            now
        with_topics (topic_repo.get name)
    ]
