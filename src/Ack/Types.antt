-- ===== src/Ack/Types.antt =====
-- The requests, responses and state of internal/services/acknowledgment.
use pub_sub_go.Base.{ℕ, String, Bool, Option, List, Dict}
use pub_sub_go.Base.Int.{ℤ}
use pub_sub_go.Config.{BrokerConfig}
use pub_sub_go.Ports.{MessageRepository, Formats}
use pub_sub_go.Ack.Backoff.{RetryStrategy}
use pub_sub_go.Ack.DeadLetter.{DlqStrategy}

pub record AcknowledgmentRequest : Type 0 where
  pub message_id : String
  pub consumer_id : String
  pub consumer_group : String
  pub success : Bool
  pub processing_time : ℤ
  pub metadata : Dict String

pub record NegativeAcknowledgmentRequest : Type 0 where
  pub message_id : String
  pub consumer_id : String
  pub consumer_group : String
  pub reason : String
  pub retry : Bool
  pub retry_delay : ℤ
  pub metadata : Dict String

pub record AcknowledgmentResponse : Type 0 where
  pub message_id : String
  pub status : String
  pub retry_count : ℤ
  pub next_retry_at : Option ℤ
  pub dlq_topic : String
  pub processed_at : ℤ

pub record RequeueRequest : Type 0 where
  pub message_id : String
  pub reason : String
  pub retry_delay : ℤ
  pub max_retries : ℤ

pub record DlqRequest : Type 0 where
  pub message_id : String
  pub reason : String
  pub original_topic : String
  pub dlq_topic : String

pub record ExpiredMessageInfo : Type 0 where
  pub message_id : String
  pub topic : String
  pub consumer_id : String
  pub delivered_at : ℤ
  pub ack_deadline : ℤ
  pub action : String

pub record ExpirationReport : Type 0 where
  pub expired_count : ℤ
  pub requeued_count : ℤ
  pub dlq_count : ℤ
  pub processed_at : ℤ
  pub expired_messages : List ExpiredMessageInfo

pub record PendingAcknowledgment : Type 0 where
  pub message_id : String
  pub consumer_id : String
  pub consumer_group : String
  pub delivered_at : ℤ
  pub ack_deadline : ℤ
  pub retry_count : ℤ
  pub topic : String

pub record ServiceStats : Type 0 where
  pub acknowledged : ℤ
  pub nacked : ℤ
  pub requeued : ℤ
  pub dlq : ℤ
  pub expired : ℤ
  pub processing_times : List ℤ
  pub last_reset : ℤ

-- What the service is built with, beside the storage: `uuid n` is the n-th identifier drawn.
pub record Env : Type 1 where
  pub messages : MessageRepository
  pub formats : Formats
  pub uuid : ℕ → String
  pub config : BrokerConfig
  pub retry_strategy : RetryStrategy
  pub dlq_strategy : DlqStrategy

-- The `service` struct and the storage behind it. `drawn` counts the identifiers drawn.
pub record Service (R : Type 0) : Type 0 where
  pub repo : R
  pub pending_acks : Dict PendingAcknowledgment
  pub stats : ServiceStats
  pub drawn : ℕ
