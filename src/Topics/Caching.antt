-- ===== src/Topics/Caching.antt =====
-- What the caches of statistics and health answer after a collection.
use pub_sub_go.Base.{◌*◌, ◌^◌, ◌≡◌, refl, ap, String, Option, none, some, lookup-insert_self, arith}
use pub_sub_go.Base.Int.{ℤ, pos, ◌-ℤ◌, ◌≤ℤ◌}
use pub_sub_go.Core.Topic.{Topic}
use pub_sub_go.Result.{ok}
use pub_sub_go.Topics.Types.{TopicStats, Env}
use pub_sub_go.Topics.Stats.{get_cached_stats, fresh_stats, collect_topic_stats}
use pub_sub_go.Topics.Service.{State, stats_or_collect, get_topic_stats}

module _ {V : Type 0} (env : Env V) where
  open env use {floats, topic_repo}
  open floats use {Float}

  -- The repository answers a name with a topic of that name.
  abbrev pub IsNamed : Type 0
  IsNamed =
      (name : String) (s : topic_repo.State) (t : Topic V)
      → (topic_repo.get name s).0 ≡ ok t
      → t.name ≡ name

  cached_after :
      (name : String) (now later : ℤ) (s : State env) (stats : TopicStats Float)
      (o : Option (TopicStats Float))
      → get_cached_stats name now s.stats_collector ≡ o
      → IsNamed
      → (stats_or_collect env name now o s).0 ≡ ok stats
      → later -ℤ stats.collected_at ≤ℤ pos (60 * 10 ^ 9)
      → get_cached_stats name later (stats_or_collect env name now o s).1.stats_collector
        ≡ some stats
  unfolding get_cached_stats fresh_stats stats_or_collect collect_topic_stats
  cached_after name now later s stats none e named h soon = grind (arith, lookup-insert_self)
  cached_after name now later s stats (some c) e named h soon = ground (arith, e, h, soon)

  -- When the repository answers every name with a topic of that name, and statistics of a topic were
  -- given, the same are given again up to a minute after they were collected, without a call of the
  -- repository or any other change.
  pub get_topic_stats_again :
      (name : String) (now later : ℤ) (s : State env) (stats : TopicStats Float)
      → IsNamed
      → (get_topic_stats env name now s).0 ≡ ok stats
      → later -ℤ stats.collected_at ≤ℤ pos (60 * 10 ^ 9)
      → get_topic_stats env name later (get_topic_stats env name now s).1
        ≡ (ok stats, (get_topic_stats env name now s).1)
  unfolding get_topic_stats stats_or_collect
  get_topic_stats_again name now later s stats named h soon =
      ap (λ o. stats_or_collect env name later o (get_topic_stats env name now s).1)
        (cached_after name now later s stats (get_cached_stats name now s.stats_collector) refl
          named h soon)
