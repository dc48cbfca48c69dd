-- ===== src/Topics/Types.antt =====
-- internal/services/topic/topic_manager.go: the requests, the responses and the service's state. `V`
-- is `interface{}`, the values of a topic's configuration.
use pub_sub_go.Base.{ℕ, String, Bool, Option, List, Dict}
use pub_sub_go.Base.Int.{ℤ}
use pub_sub_go.Config.{BrokerConfig}
use pub_sub_go.Core.Topic.{Topic}
use pub_sub_go.Result.{Action}
use pub_sub_go.Ports.{TopicRepository}
use pub_sub_go.Partitions.Manager.{PartitionManager}

-- `float64` and what the code does with it; `percent` is the text of a hundredfold with one digit.
pub record Floats : Type 1 where
  pub Float : Type 0
  pub of_int : ℤ → Float
  pub tenths : ℤ → Float
  pub add : Float → Float → Float
  pub sub : Float → Float → Float
  pub mul : Float → Float → Float
  pub div : Float → Float → Float
  pub sqrt : Float → Float
  pub gt : Float → Float → Bool
  pub ge : Float → Float → Bool
  pub le : Float → Float → Bool
  pub eq : Float → Float → Bool
  pub percent : Float → String

-- A nil `Config` is `none`.
pub record CreateTopicRequest (V : Type 0) : Type 0 where
  pub name : String
  pub partitions : ℤ
  pub replication : ℤ
  pub retention_time : ℤ
  pub max_size : ℤ
  pub config : Option (Dict V)

pub record CreateTopicResponse : Type 0 where
  pub name : String
  pub partitions : ℤ
  pub replication : ℤ
  pub retention_time : ℤ
  pub max_size : ℤ
  pub created_at : ℤ

pub record UpdateTopicRequest (V : Type 0) : Type 0 where
  pub retention_time : Option ℤ
  pub max_size : Option ℤ
  pub config : Option (Dict V)

-- Three counts that are always 0 are left out, and `LastActivity`, which is `CollectedAt`.
pub record TopicStats (F : Type 0) : Type 0 where
  pub name : String
  pub message_count : ℤ
  pub bytes_in : ℤ
  pub bytes_out : ℤ
  pub messages_per_second : F
  pub bytes_per_second : F
  pub avg_message_size : F
  pub partitions : ℤ
  pub collected_at : ℤ

pub record TopicInfo (V F : Type 0) : Type 0 where
  pub name : String
  pub partitions : ℤ
  pub replication : ℤ
  pub retention_time : ℤ
  pub max_size : ℤ
  pub config : Dict V
  pub created_at : ℤ
  pub updated_at : ℤ
  pub status : String
  pub health : String
  pub stats : Option (TopicStats F)

pub record ListTopicsRequest : Type 0 where
  pub offset : ℤ
  pub limit : ℤ
  pub filter : String

pub record ListTopicsResponse (V F : Type 0) : Type 0 where
  pub topics : List (TopicInfo V F)
  pub total : ℤ
  pub offset : ℤ
  pub limit : ℤ
  pub has_more : Bool

pub record PartitionStats : Type 0 where
  pub id : ℤ
  pub message_count : ℤ
  pub size : ℤ
  pub start_offset : ℤ
  pub end_offset : ℤ
  pub active_consumers : ℕ
  pub last_activity : ℤ

pub record LoadBalanceInfo (F : Type 0) : Type 0 where
  pub is_balanced : Bool
  pub imbalance_ratio : F
  pub recommend_rebalance : Bool
  pub reason : String

pub record PartitionInfo (F : Type 0) : Type 0 where
  pub topic_name : String
  pub total_partitions : ℤ
  pub partitions : List PartitionStats
  pub load_balance : LoadBalanceInfo F

-- Without the details. The scores of the checks are whole numbers.
pub record HealthCheck : Type 0 where
  pub name : String
  pub status : String
  pub score : ℤ
  pub message : String

-- The score of a topic is the quotient of `total_score` by the number of the checks.
pub record TopicHealth : Type 0 where
  pub name : String
  pub status : String
  pub health : String
  pub issues : List String
  pub checks : List HealthCheck
  pub total_score : ℤ
  pub last_checked : ℤ

-- Without two counts that nothing changes or reads.
pub record ActiveTopic (V : Type 0) : Type 0 where
  pub topic : Topic V
  pub last_access : ℤ

pub record StatsCollector (F : Type 0) : Type 0 where
  pub stats_cache : Dict (TopicStats F)
  pub health_cache : Dict TopicHealth

-- What the service is built with, and the functions of Go's library on texts and instants.
pub record Env (V : Type 0) : Type 1 where
  pub topic_repo : TopicRepository V
  pub floats : Floats
  pub config : BrokerConfig
  pub to_lower : String → String
  pub contains : String → String → Bool
  pub hour_of : ℤ → ℤ

-- The `service` struct and what lies behind the repository of topics; the one of messages is never
-- called. `workers` holds the names of the workers that run.
pub record Service (V F T : Type 0) : Type 0 where
  pub topics : T
  pub active_topics : Dict (ActiveTopic V)
  pub partition_manager : PartitionManager
  pub workers : List String
  pub stats_collector : StatsCollector F

abbrev pub with_topics : {V F T A : Type 0} → Action T A → Action (Service V F T) A
with_topics m s = let r = m s.topics in (r.0, record s { topics = r.1 })
