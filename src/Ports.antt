-- ===== src/Ports.antt =====
-- internal/ports/repository: the interfaces through which the services reach the storage, and what
-- the services use of Go's library for texts and instants.
use pub_sub_go.Base.{String, Bool, List, Option}
use pub_sub_go.Base.Int.{ℤ}
use pub_sub_go.Result.{Action}
use pub_sub_go.Core.Message.{Message, Acknowledgment}
use pub_sub_go.Core.Topic.{Topic}
use pub_sub_go.Core.Subscription.{Subscription}
use pub_sub_go.Core.Consumer.{Consumer, ConsumerGroup}

-- `MessageRepository`. The state is whatever lies behind the interface; a call may change it.
pub record MessageRepository : Type 1 where
  pub State : Type 0
  pub store : Message → Action State (Unit {0})
  pub get : String → Action State Message
  pub remove : String → Action State (Unit {0})
  pub store_batch : List Message → Action State (Unit {0})
  pub get_batch : List String → Action State (List Message)
  pub get_by_topic : String → ℤ → ℤ → Action State (List Message)
  pub get_by_topic_partition : String → ℤ → ℤ → ℤ → Action State (List Message)
  pub count_by_topic : String → Action State ℤ
  pub get_for_consumer_group : String → String → ℤ → Action State (List Message)
  pub mark_delivered : String → String → Action State (Unit {0})
  pub acknowledge : Acknowledgment → Action State (Unit {0})
  pub get_unacknowledged : String → ℤ → Action State (List Message)
  pub get_failed_messages : String → ℤ → Action State (List Message)
  pub move_to_dlq : String → String → Action State (Unit {0})
  pub delete_expired : Action State ℤ
  pub delete_older_than : String → ℤ → Action State ℤ

-- `Time.Format(time.RFC3339)`, `time.Parse(time.RFC3339, s)` and `fmt.Sprintf("%d", n)`.
pub record Formats : Type 0 where
  pub format_time : ℤ → String
  pub parse_time : String → Option ℤ
  pub format_int : ℤ → String

-- `TopicRepository`; `V` is `interface{}`.
pub record TopicRepository (V : Type 0) : Type 1 where
  pub State : Type 0
  pub create : Topic V → Action State (Unit {0})
  pub get : String → Action State (Topic V)
  pub update : Topic V → Action State (Unit {0})
  pub remove : String → Action State (Unit {0})
  pub list : ℤ → ℤ → Action State (List (Topic V))
  pub exists : String → Action State Bool

pub record SubscriptionRepository : Type 1 where
  pub State : Type 0
  pub create : Subscription → Action State (Unit {0})
  pub get : String → Action State Subscription
  pub update : Subscription → Action State (Unit {0})
  pub remove : String → Action State (Unit {0})
  pub get_by_topic : String → Action State (List Subscription)
  pub get_by_consumer_group : String → Action State (List Subscription)
  pub get_active : Action State (List Subscription)
  pub list : ℤ → ℤ → Action State (List Subscription)

pub record ConsumerGroupRepository : Type 1 where
  pub State : Type 0
  pub create_group : ConsumerGroup → Action State (Unit {0})
  pub get_group : String → Action State ConsumerGroup
  pub update_group : ConsumerGroup → Action State (Unit {0})
  pub delete_group : String → Action State (Unit {0})
  pub list_groups : String → Action State (List ConsumerGroup)
  pub add_consumer : String → Consumer → Action State (Unit {0})
  pub remove_consumer : String → String → Action State (Unit {0})
  pub update_consumer_heartbeat : String → String → Action State (Unit {0})
  pub get_active_consumers : String → Action State (List Consumer)
