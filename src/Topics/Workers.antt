-- ===== src/Topics/Workers.antt =====
-- internal/services/topic/topic_manager.go: the workers of the service, one tick of each, and their
-- start and stop.
use pub_sub_go.Base.{◌*◌, String, Bool, true, false, List, [], ◌∷◌, Dict, if◌then◌else◌, ◌==◌}
use pub_sub_go.Base.Int.{ℤ, pos, ◌-ℤ◌, ltb_ℤ, eqb_ℤ}
use pub_sub_go.Core.Topic.{Topic, hour}
use pub_sub_go.Partitions.Manager.{new_partition_manager}
use pub_sub_go.Topics.Types.{ActiveTopic, StatsCollector, Env, Service}
use pub_sub_go.Topics.Balance.{get_partition_info}
use pub_sub_go.Topics.Stats.{
  collect_topic_stats, collect_topic_health, clear_cache, new_stats_collector,
}
use pub_sub_go.Topics.Service.{State, ok_part}

abbrev pub mem_name : String → List String → Bool
mem_name name [] = false
mem_name name (n ∷ ns) = let rest = mem_name name ns in if n == name then true else rest

-- A worker that does not run is started.
abbrev pub started : String → List String → List String
started name workers = if mem_name name workers then workers else name ∷ workers

abbrev pub active_entities : {V : Type 0} → Dict (ActiveTopic V) → List (Topic V)
active_entities [] = []
active_entities ((name, a) ∷ rest) = a.topic ∷ active_entities rest

-- The topics that were used in the last 24 hours.
unfoldable pub keep_used : {V : Type 0} → ℤ → Dict (ActiveTopic V) → Dict (ActiveTopic V)
keep_used now [] = []
keep_used now ((name, a) ∷ rest) =
    let more = keep_used now rest in
    if ltb_ℤ (pos (24 * hour)) (now -ℤ a.last_access) then more else (name, a) ∷ more

unfoldable pub new_service : {V F T : Type 0} → T → Service V F T
unfolding new_partition_manager new_stats_collector
new_service topics = record {
  topics = topics;
  active_topics = [];
  partition_manager = new_partition_manager;
  workers = [];
  stats_collector = new_stats_collector;
}

module _ {V : Type 0} (env : Env V) where
  open env use {floats, hour_of}
  open floats use {Float}

  unfoldable pub start_topic_workers : State env → State env
  start_topic_workers s = record s {
    workers = started "cleanup" (started "health_monitor" (started "stats_collector" s.workers));
  }

  unfoldable pub stop_topic_workers : State env → State env
  stop_topic_workers s = record s { workers = [] }

  unfoldable pub collect_stats : ℤ → List (Topic V) → StatsCollector Float → StatsCollector Float
  unfolding collect_topic_stats
  collect_stats now [] sc = sc
  collect_stats now (t ∷ ts) sc = collect_stats now ts (collect_topic_stats env t now sc).1

  unfoldable pub collect_stats_for_active_topics : ℤ → State env → State env
  unfolding collect_stats
  collect_stats_for_active_topics now s = record s {
    stats_collector = collect_stats now (active_entities s.active_topics) s.stats_collector;
  }

  unfoldable pub check_health :
      ℤ → List (Topic V) → State env → StatsCollector Float → StatsCollector Float
  unfolding collect_topic_health get_partition_info
  check_health now [] s sc = sc
  check_health now (t ∷ ts) s sc =
      let info = ok_part env (get_partition_info floats t.name s.partition_manager) in
      check_health now ts s (collect_topic_health env t info now sc).1

  unfoldable pub check_health_for_active_topics : ℤ → State env → State env
  unfolding check_health
  check_health_for_active_topics now s = record s {
    stats_collector = check_health now (active_entities s.active_topics) s s.stats_collector;
  }

  -- The caches are cleared in the hour after midnight.
  unfoldable pub perform_cleanup_tasks : ℤ → State env → State env
  unfolding keep_used clear_cache
  perform_cleanup_tasks now s = record s {
    active_topics = keep_used now s.active_topics;
    stats_collector =
        if eqb_ℤ (hour_of now) (pos 0) then clear_cache s.stats_collector else s.stats_collector;
  }
