-- ===== src/Topics/Stats.antt =====
-- internal/services/topic/stats.go: the collector of statistics and of health, with its two caches.
use pub_sub_go.Base.{
  ◌*◌, ◌^◌, String, Option, none, some, List, [], ◌∷◌, Dict, insert, lookup, if◌then◌else◌, ◌==◌,
}
use pub_sub_go.Base.Int.{ℤ, pos, ◌-ℤ◌, ltb_ℤ}
use pub_sub_go.Base.Words.{int64, add64}
use pub_sub_go.Core.Topic.{Topic, get_stats}
use pub_sub_go.Topics.Types.{TopicStats, TopicHealth, PartitionInfo, StatsCollector, Env}
use pub_sub_go.Topics.Health.{topic_health}

abbrev pub second : ℤ
second = pos (10 ^ 9)

-- What the cache of statistics answers, and the cache of health: not when older than a minute, or
-- five minutes.
unfoldable pub fresh_stats : {F : Type 0} → ℤ → Option (TopicStats F) → Option (TopicStats F)
fresh_stats now none = none
fresh_stats now (some t) =
    if ltb_ℤ (pos (60 * 10 ^ 9)) (now -ℤ t.collected_at) then none else some t

unfoldable pub fresh_health : ℤ → Option TopicHealth → Option TopicHealth
fresh_health now none = none
fresh_health now (some h) =
    if ltb_ℤ (pos (5 * 60 * 10 ^ 9)) (now -ℤ h.last_checked) then none else some h

unfoldable pub get_cached_stats :
    {F : Type 0} → String → ℤ → StatsCollector F → Option (TopicStats F)
unfolding fresh_stats
get_cached_stats name now sc = fresh_stats now (lookup name sc.stats_cache)

unfoldable pub get_cached_health : {F : Type 0} → String → ℤ → StatsCollector F → Option TopicHealth
unfolding fresh_health
get_cached_health name now sc = fresh_health now (lookup name sc.health_cache)

unfoldable pub new_stats_collector : {F : Type 0} → StatsCollector F
new_stats_collector = record { stats_cache = []; health_cache = [] }

unfoldable pub clear_cache : {F : Type 0} → StatsCollector F → StatsCollector F
clear_cache sc = record { stats_cache = []; health_cache = [] }

unfoldable pub get_all_cached_stats : {F : Type 0} → StatsCollector F → Dict (TopicStats F)
get_all_cached_stats sc = sc.stats_cache

module _ {V : Type 0} (env : Env V) where
  open env use {floats, to_lower, contains}
  open floats use {Float, of_int, div, gt}

  -- The topics whose names have the filter, in any case of letters.
  unfoldable pub matching : String → List (Topic V) → List (Topic V)
  matching filter [] = []
  matching filter (t ∷ ts) =
      let rest = matching filter ts in if contains (to_lower t.name) filter then t ∷ rest else rest

  unfoldable pub filter_topics : List (Topic V) → String → List (Topic V)
  unfolding matching
  filter_topics topics filter = if filter == "" then topics else matching (to_lower filter) topics

  -- A change over the seconds since the last statistics; nothing is known without them.
  unfoldable pub rate : ℤ → (TopicStats Float → ℤ) → Option (TopicStats Float) → ℤ → Float
  rate now field none count = of_int (pos 0)
  rate now field (some prev) count =
      let seconds = div (of_int (now -ℤ prev.collected_at)) (of_int second) in
      if gt seconds (of_int (pos 0))
      then div (of_int (int64 (count -ℤ field prev))) seconds
      else of_int (pos 0)

  unfoldable pub topic_stats : Topic V → Option (TopicStats Float) → ℤ → TopicStats Float
  unfolding get_stats rate
  topic_stats t prev now =
      let counts = get_stats t in
      let count = counts.0 in
      let bytes_in = counts.1 in
      let bytes_out = counts.2 in
      record {
        name = t.name;
        message_count = count;
        bytes_in = bytes_in;
        bytes_out = bytes_out;
        messages_per_second = rate now (λ p. p.message_count) prev count;
        bytes_per_second =
            rate now (λ p. add64 p.bytes_in p.bytes_out) prev (add64 bytes_in bytes_out);
        avg_message_size =
            if ltb_ℤ (pos 0) count then div (of_int bytes_in) (of_int count) else of_int (pos 0);
        partitions = t.partitions;
        collected_at = now;
      }

  -- The statistics, and the collector with them in its cache; there is no error. The same of health.
  unfoldable pub collect_topic_stats :
      Topic V → ℤ → StatsCollector Float → TopicStats Float × StatsCollector Float
  unfolding topic_stats
  collect_topic_stats t now sc =
      let stats = topic_stats t (lookup t.name sc.stats_cache) now in
      (stats, record sc { stats_cache = insert t.name stats sc.stats_cache })

  unfoldable pub collect_topic_health :
      Topic V
      → Option (PartitionInfo Float)
      → ℤ
      → StatsCollector Float
      → TopicHealth × StatsCollector Float
  unfolding topic_health
  collect_topic_health t info now sc =
      let health = topic_health floats t info now in
      (health, record sc { health_cache = insert t.name health sc.health_cache })
