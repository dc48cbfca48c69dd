-- ===== src/Subscriber/Types.antt =====
-- internal/services/subscriber/subscriber.go: the requests, the responses and the service's state.
-- `V` is `interface{}`, the values of a topic's configuration.
use pub_sub_go.Base.{ℕ, String, Bool, Option, List, Dict}
use pub_sub_go.Base.Int.{ℤ}
use pub_sub_go.Config.{BrokerConfig}
use pub_sub_go.Core.Message.{Message}
use pub_sub_go.Core.Subscription.{Subscription, SubscriptionType}
use pub_sub_go.Core.Consumer.{Consumer, ConsumerGroup, ConsumerStatus}
use pub_sub_go.Result.{Action}
use pub_sub_go.Ports.{
  MessageRepository, SubscriptionRepository, ConsumerGroupRepository, TopicRepository,
}

pub record SubscribeRequest : Type 0 where
  pub topic : String
  pub consumer_group : String
  pub consumer_id : String
  pub kind : SubscriptionType
  pub ack_deadline : ℤ
  pub max_retries : ℤ
  pub dead_letter_topic : String
  pub filter : String
  pub config : Dict String

-- `has_chan` tells whether the channel of the response is there; it is the subscription's.
pub record SubscribeResponse : Type 0 where
  pub subscription_id : String
  pub topic : String
  pub consumer_group : String
  pub consumer_id : String
  pub kind : String
  pub has_chan : Bool

pub record PullRequest : Type 0 where
  pub topic : String
  pub partition : Option ℤ
  pub offset : Option ℤ
  pub limit : ℤ
  pub ack_deadline : ℤ

pub record ConsumerGroupPullRequest : Type 0 where
  pub topic : String
  pub consumer_group : String
  pub consumer_id : String
  pub limit : ℤ

pub record PullResponse : Type 0 where
  pub messages : List Message
  pub next_offset : Option ℤ
  pub has_more : Bool
  pub consumer_id : String

pub record AcknowledgeRequest : Type 0 where
  pub message_id : String
  pub consumer_id : String
  pub consumer_group : String

pub record NackRequest : Type 0 where
  pub message_id : String
  pub consumer_id : String
  pub consumer_group : String
  pub reason : String
  pub retry : Bool

pub record JoinGroupRequest : Type 0 where
  pub topic : String
  pub consumer_group : String
  pub consumer_id : String
  pub metadata : Dict String

pub record JoinGroupResponse : Type 0 where
  pub consumer_id : String
  pub consumer_group : String
  pub partitions : List ℤ

pub record SubscriptionStats : Type 0 where
  pub messages_delivered : ℤ
  pub messages_acked : ℤ
  pub messages_nacked : ℤ
  pub messages_dlq : ℤ
  pub last_ack_time : Option ℤ

pub record SubscriptionInfo : Type 0 where
  pub id : String
  pub topic : String
  pub consumer_group : String
  pub kind : SubscriptionType
  pub active : Bool
  pub ack_deadline : ℤ
  pub max_retries : ℤ
  pub dead_letter_topic : String
  pub created_at : ℤ
  pub stats : SubscriptionStats

pub record ConsumerInfo : Type 0 where
  pub id : String
  pub status : ConsumerStatus
  pub partitions : List ℤ
  pub last_heartbeat : ℤ
  pub metadata : Dict String

pub record ConsumerGroupInfo : Type 0 where
  pub name : String
  pub topic : String
  pub consumers : List ConsumerInfo
  pub max_consumers : ℤ
  pub created_at : ℤ
  pub updated_at : ℤ

-- The struct that both the map `subscriptions` and the subscription's worker point to; `listed` is
-- whether the map still has it. The channel of a pull subscription is nil, which is `none`.
-- `can_cancel` is whether `cancelFunc` is set, `cancelled` whether it was called.
pub record ActiveSubscription : Type 0 where
  pub subscription : Subscription
  pub message_chan : Option (List Message)
  pub closed : Bool
  pub can_cancel : Bool
  pub cancelled : Bool
  pub last_activity : ℤ
  pub listed : Bool

-- Nothing is ever sent on the consumer's channel; `closed` is whether it is closed.
pub record ActiveConsumer : Type 0 where
  pub consumer : Consumer
  pub last_pull : ℤ
  pub closed : Bool

-- The zero instant of `lastRebalance` is `none`.
pub record ActiveConsumerGroup : Type 0 where
  pub group : ConsumerGroup
  pub consumers : Dict ActiveConsumer
  pub rebalancing : Bool
  pub last_rebalance : Option ℤ

-- A call of the storage that a method leaves to a goroutine of its own.
pub data Task : Type 0 where
  store : Message → Task
  mark_delivered : String → String → Task

-- What the service is built with. `text_bytes` is `[]byte(s)`.
pub record Env (V : Type 0) : Type 1 where
  pub message_repo : MessageRepository
  pub subscription_repo : SubscriptionRepository
  pub consumer_repo : ConsumerGroupRepository
  pub topic_repo : TopicRepository V
  pub uuid : ℕ → String
  pub text_bytes : String → List ℕ
  pub config : BrokerConfig

-- The `service` struct, what lies behind the four interfaces, and the tasks that wait. A struct of a
-- subscription stays in `subscriptions` under its ID when it is not listed any more. `panicked` is whether
-- a call has closed a channel that was closed, which ends the program.
pub record Service (M S C T : Type 0) : Type 0 where
  pub messages : M
  pub subscription_store : S
  pub consumer_store : C
  pub topics : T
  pub drawn : ℕ
  pub tasks : List Task
  pub subscriptions : Dict ActiveSubscription
  pub consumer_groups : Dict ActiveConsumerGroup
  pub panicked : Bool

module _ {M S C T : Type 0} where
  abbrev pub with_messages : {A : Type 0} → Action M A → Action (Service M S C T) A
  with_messages m s = let r = m s.messages in (r.0, record s { messages = r.1 })

  abbrev pub with_subscriptions : {A : Type 0} → Action S A → Action (Service M S C T) A
  with_subscriptions m s =
      let r = m s.subscription_store in (r.0, record s { subscription_store = r.1 })

  abbrev pub with_consumers : {A : Type 0} → Action C A → Action (Service M S C T) A
  with_consumers m s = let r = m s.consumer_store in (r.0, record s { consumer_store = r.1 })

  abbrev pub with_topics : {A : Type 0} → Action T A → Action (Service M S C T) A
  with_topics m s = let r = m s.topics in (r.0, record s { topics = r.1 })
