-- ===== src/Publisher/Types.antt =====
-- internal/services/publisher/publisher.go: the requests, the responses and the service. `V` is
-- `interface{}`, the values of a topic's configuration.
use pub_sub_go.Base.{ℕ, String, Bool, Option, List, Dict}
use pub_sub_go.Base.Int.{ℤ}
use pub_sub_go.Config.{BrokerConfig}
use pub_sub_go.Core.Message.{Priority, DeliveryMode}
use pub_sub_go.Result.{Error, Action}
use pub_sub_go.Ports.{MessageRepository, TopicRepository}
use pub_sub_go.Publisher.Compression.{Codecs}

pub record PublishRequest : Type 0 where
  pub topic : String
  pub key : List ℕ
  pub payload : List ℕ
  pub headers : Dict String
  pub priority : Priority
  pub delivery_mode : DeliveryMode
  pub ttl : Option ℤ
  pub partition : Option ℤ

pub record PublishResponse : Type 0 where
  pub message_id : String
  pub topic : String
  pub partition : ℤ
  pub offset : ℤ
  pub timestamp : ℤ
  pub compressed : Bool

pub record MessageBatch : Type 0 where
  pub key : List ℕ
  pub payload : List ℕ
  pub headers : Dict String
  pub priority : Priority
  pub delivery_mode : DeliveryMode
  pub ttl : Option ℤ

pub record BatchPublishRequest : Type 0 where
  pub topic : String
  pub messages : List MessageBatch

-- An entry of `errors` is the index and the error that its text is made of.
pub record BatchPublishResponse : Type 0 where
  pub published : ℤ
  pub failed : ℤ
  pub message_ids : List String
  pub responses : List PublishResponse
  pub errors : List (ℕ × Error)

-- A nil `Config` is `none`.
pub record CreateTopicRequest (V : Type 0) : Type 0 where
  pub name : String
  pub partitions : ℤ
  pub replication : ℤ
  pub retention_time : ℤ
  pub max_size : ℤ
  pub config : Option (Dict V)

-- Without the two constants and the formatted size.
pub record TopicStats : Type 0 where
  pub topic : String
  pub partitions : ℤ
  pub messages : ℤ
  pub bytes_in : ℤ
  pub bytes_out : ℤ
  pub created_at : ℤ
  pub updated_at : ℤ

pub record TopicInfo (V : Type 0) : Type 0 where
  pub name : String
  pub partitions : ℤ
  pub message_count : ℤ
  pub retention_time : ℤ
  pub created_at : ℤ
  pub config : Dict V

-- What the service is built with. `text_bytes` is `[]byte(s)`.
pub record Env (V : Type 0) : Type 1 where
  pub message_repo : MessageRepository
  pub topic_repo : TopicRepository V
  pub uuid : ℕ → String
  pub text_bytes : String → List ℕ
  pub codecs : Codecs
  pub config : BrokerConfig

-- What lies behind the two interfaces, and the number of identifiers drawn.
pub record Stores (M T : Type 0) : Type 0 where
  pub messages : M
  pub topics : T
  pub drawn : ℕ

module _ {M T : Type 0} where
  abbrev pub with_messages : {A : Type 0} → Action M A → Action (Stores M T) A
  with_messages m s = let r = m s.messages in (r.0, record s { messages = r.1 })

  abbrev pub with_topics : {A : Type 0} → Action T A → Action (Stores M T) A
  with_topics m s = let r = m s.topics in (r.0, record s { topics = r.1 })
