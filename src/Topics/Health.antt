-- ===== src/Topics/Health.antt =====
-- internal/services/topic/stats.go: the checks of a topic's health. A check starts from the full score
-- of 100, and its tests take points away. The scores are whole numbers far below 2^53, which
-- `float64` has exactly.
use pub_sub_go.Base.{
  ℕ, ◌*◌, String, not, ◌&&◌, Option, none, some, List, [], ◌∷◌, length, eqb, if◌then◌else◌, ◌==◌,
}
use pub_sub_go.Base.Int.{ℤ, pos, ◌+ℤ◌, ◌-ℤ◌, ltb_ℤ, leb_ℤ, eqb_ℤ, pos_part, quot_ℤ}
use pub_sub_go.Base.Words.{int64}
use pub_sub_go.Core.Topic.{Topic, hour}
use pub_sub_go.Topics.Types.{Floats, PartitionInfo, HealthCheck, TopicHealth}

-- A test that fails: the points it costs, the status and the message.
abbrev pub cost : ℕ → String → String → HealthCheck → HealthCheck
cost points status message c = record c {
  score = c.score -ℤ pos points;
  status = status;
  message = message;
}

-- A test that fails: the status and the message change only if all was well.
abbrev pub cost_if_healthy : ℕ → String → HealthCheck → HealthCheck
cost_if_healthy points message c =
    if c.status == "healthy"
    then cost points "degraded" message c
    else record c { score = c.score -ℤ pos points }

abbrev pub healthy : String → String → HealthCheck
healthy name message = record {
  name = name;
  status = "healthy";
  score = pos 100;
  message = message;
}

module _ {V : Type 0} where
  unfoldable pub partition_test : Topic V → HealthCheck → HealthCheck
  partition_test t c =
      if leb_ℤ t.partitions (pos 0)
      then cost 50 "unhealthy" "Invalid partition count" c
      else if ltb_ℤ (pos 100) t.partitions
      then cost 20 "degraded" "High partition count may impact performance" c
      else c

  unfoldable pub retention_test : Topic V → HealthCheck → HealthCheck
  retention_test t c =
      if leb_ℤ t.retention_time (pos 0)
      then cost 30 "unhealthy" "Invalid retention time" c
      else if ltb_ℤ t.retention_time (pos hour)
      then cost_if_healthy 10 "Short retention time" c
      else c

  unfoldable pub size_test : Topic V → HealthCheck → HealthCheck
  size_test t c = if leb_ℤ t.max_size (pos 0) then cost 20 "unhealthy" "Invalid max size" c else c

  unfoldable pub check_topic_configuration : Topic V → HealthCheck
  unfolding partition_test retention_test size_test
  check_topic_configuration t =
      let start = healthy "Configuration" "Topic configuration is optimal" in
      let c = size_test t (retention_test t (partition_test t start)) in
      if ltb_ℤ c.score (pos 0) then record c { score = pos 0 } else c

  -- The tests of the last update in the order of the source.
  unfoldable pub update_test : ℤ → Topic V → HealthCheck → HealthCheck
  update_test now t c =
      let since = now -ℤ t.updated_at in
      if ltb_ℤ (pos (24 * hour)) since
      then cost 30 "degraded" "No recent activity detected" c
      else if ltb_ℤ (pos (7 * 24 * hour)) since
      then cost 50 "unhealthy" "Topic appears inactive" c
      else c

  unfoldable pub check_topic_activity : ℤ → Topic V → HealthCheck
  unfolding update_test
  check_topic_activity now t =
      let c = update_test now t (healthy "Activity Level" "Topic activity is normal") in
      if eqb_ℤ t.message_count (pos 0) then cost_if_healthy 10 "No messages in topic" c else c

module _ (floats : Floats) where
  open floats use {Float, of_int, tenths, div, gt}

  unfoldable pub check_partition_balance : PartitionInfo Float → HealthCheck
  check_partition_balance info =
      let b = info.load_balance in
      let start = healthy "Partition Balance" "Partitions are well balanced" in
      let c =
        if not b.is_balanced
        then (if b.recommend_rebalance
            then cost 40 "unhealthy" "Severe partition imbalance detected" start
            else cost 20 "degraded" "Moderate partition imbalance" start)
        else start in
      if not (b.reason == "") then record c { message = b.reason } else c

  module _ {V : Type 0} where
    abbrev pub current_size : Topic V → ℤ
    current_size t =
        let size = int64 (t.bytes_in -ℤ t.bytes_out) in
        if ltb_ℤ size (pos 0) then t.bytes_in else size

    unfoldable pub usage_test : Topic V → HealthCheck → HealthCheck
    usage_test t c =
        let ratio = div (of_int (current_size t)) (of_int t.max_size) in
        if ltb_ℤ (pos 0) t.max_size
        then (if gt ratio (tenths (pos 9))
            then cost 40 "unhealthy" "Topic size approaching limit" c
            else if gt ratio (tenths (pos 7))
            then cost 20 "degraded" "Topic size usage is high" c
            else c)
        else c

    unfoldable pub check_resource_usage : Topic V → HealthCheck
    unfolding usage_test
    check_resource_usage t =
        let c = usage_test t (healthy "Resource Usage" "Resource usage is within limits") in
        if ltb_ℤ (pos 0) t.partitions
          && ltb_ℤ (pos 1000000) (quot_ℤ t.message_count (pos_part t.partitions))
        then cost_if_healthy 15 "High message density per partition" c
        else c

-- The sum of the scores is compared with a multiple of the number of the checks, which is what the
-- comparison of the rounded quotient of two small whole numbers comes to.
unfoldable pub calculate_overall_health : (total : ℤ) (checks issues : ℕ) → String × String
calculate_overall_health total checks issues =
    if leb_ℤ (pos (80 * checks)) total && eqb issues 0
    then ("green", "healthy")
    else if leb_ℤ (pos (60 * checks)) total
    then ("yellow", "degraded")
    else ("red", "unhealthy")

abbrev pub total_of : List HealthCheck → ℤ
total_of [] = pos 0
total_of (c ∷ cs) = c.score +ℤ total_of cs

-- The messages of the unhealthy checks.
unfoldable pub issues_of : List HealthCheck → List String
issues_of [] = []
issues_of (c ∷ cs) =
    let rest = issues_of cs in if c.status == "unhealthy" then c.message ∷ rest else rest

module _ {V : Type 0} (floats : Floats) where
  open floats use {Float}

  -- The check of the balance is made when the information is there.
  unfoldable pub checks_of : Topic V → Option (PartitionInfo Float) → ℤ → List HealthCheck
  checks_of t info now =
      let rest = check_topic_activity now t ∷ check_resource_usage floats t ∷ [] in
      check_topic_configuration t
      ∷ elim info [ none ↦ rest | some i ↦ check_partition_balance floats i ∷ rest ]

  -- The health that `CollectTopicHealth` caches and returns.
  unfoldable pub topic_health : Topic V → Option (PartitionInfo Float) → ℤ → TopicHealth
  unfolding checks_of issues_of calculate_overall_health
  topic_health t info now =
      let checks = checks_of t info now in
      let issues = issues_of checks in
      let total = total_of checks in
      let overall = calculate_overall_health total (length checks) (length issues) in
      record {
        name = t.name;
        status = overall.1;
        health = overall.0;
        issues = issues;
        checks = checks;
        total_score = total;
        last_checked = now;
      }
