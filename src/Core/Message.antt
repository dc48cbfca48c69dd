-- ===== src/Core/Message.antt =====
-- internal/core/message/message.go. Instants and durations are numbers of nanoseconds; a pointer to
-- an instant that may be nil is an `Option`. A nil map reads as the empty one.
use pub_sub_go.Base.{ℕ, String, Bool, false, ◌&&◌, Option, none, some, List, Dict}
use pub_sub_go.Base.Int.{ℤ, ltb_ℤ}

-- Only the named values of these `int` types are modelled. The first of each is the zero value.
pub data Priority : Type 0 where
  low normal high critical : Priority

pub data DeliveryMode : Type 0 where
  at_most_once at_least_once exactly_once : DeliveryMode

pub data Status : Type 0 where
  pending delivered acknowledged failed expired dlq : Status

abbrev pub is_failed : Status → Bool
is_failed failed = Bool.true
is_failed _ = false

abbrev pub is_dlq : Status → Bool
is_dlq dlq = Bool.true
is_dlq _ = false

abbrev pub is_delivered : Status → Bool
is_delivered delivered = Bool.true
is_delivered _ = false

pub record Message : Type 0 where
  pub id : String
  pub topic : String
  pub partition : ℤ
  pub offset : ℤ
  pub key : List ℕ
  pub payload : List ℕ
  pub headers : Dict String
  pub priority : Priority
  pub delivery_mode : DeliveryMode
  pub status : Status
  pub retry_count : ℤ
  pub max_retries : ℤ
  pub consumer_group : String
  pub consumer_id : String
  pub created_at : ℤ
  pub expires_at : Option ℤ
  pub delivered_at : Option ℤ
  pub acked_at : Option ℤ
  pub compressed : Bool
  pub compression_type : String

unfoldable pub is_expired : Message → ℤ → Bool
is_expired m now = elim m.expires_at [ none ↦ false | some t ↦ ltb_ℤ t now ]

unfoldable pub should_retry : Message → Bool
should_retry m = is_failed m.status && ltb_ℤ m.retry_count m.max_retries

pub record Acknowledgment : Type 0 where
  pub message_id : String
  pub consumer_id : String
  pub consumer_group : String
  pub success : Bool
  pub reason : String
  pub timestamp : ℤ
