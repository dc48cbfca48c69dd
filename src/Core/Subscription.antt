-- ===== src/Core/Subscription.antt =====
-- internal/core/subscription/subscription.go
use pub_sub_go.Base.{◌*◌, ◌^◌, String, Bool, true, false, Option, none, some, [], Dict}
use pub_sub_go.Base.Int.{ℤ, pos}
use pub_sub_go.Base.Words.{inc64}

pub data SubscriptionType : Type 0 where
  pull push : SubscriptionType

pub record Subscription : Type 0 where
  pub id : String
  pub topic : String
  pub consumer_group : String
  pub kind : SubscriptionType
  pub ack_deadline : ℤ
  pub max_retries : ℤ
  pub dead_letter_topic : String
  pub filter : String
  pub config : Dict String
  pub created_at : ℤ
  pub updated_at : ℤ
  pub active : Bool
  pub last_message_id : String
  pub last_ack_time : Option ℤ
  pub messages_delivered : ℤ
  pub messages_acked : ℤ
  pub messages_nacked : ℤ
  pub messages_dlq : ℤ

unfoldable pub new_subscription : String → String → String → SubscriptionType → ℤ → Subscription
new_subscription id topic consumer_group kind now = record {
  id = id;
  topic = topic;
  consumer_group = consumer_group;
  kind = kind;
  ack_deadline = pos (30 * 10 ^ 9);
  max_retries = pos 3;
  dead_letter_topic = "";
  filter = "";
  config = [];
  created_at = now;
  updated_at = now;
  active = true;
  last_message_id = "";
  last_ack_time = none;
  messages_delivered = pos 0;
  messages_acked = pos 0;
  messages_nacked = pos 0;
  messages_dlq = pos 0;
}

unfoldable pub increment_delivered : Subscription → ℤ → Subscription
increment_delivered s now = record s {
  messages_delivered = inc64 s.messages_delivered;
  updated_at = now;
}

unfoldable pub increment_acked : Subscription → ℤ → Subscription
increment_acked s now = record s {
  messages_acked = inc64 s.messages_acked;
  last_ack_time = some now;
  updated_at = now;
}

unfoldable pub increment_nacked : Subscription → ℤ → Subscription
increment_nacked s now = record s { messages_nacked = inc64 s.messages_nacked; updated_at = now }

unfoldable pub increment_dlq : Subscription → ℤ → Subscription
increment_dlq s now = record s { messages_dlq = inc64 s.messages_dlq; updated_at = now }

unfoldable pub is_active : Subscription → Bool
is_active s = s.active

unfoldable pub deactivate : Subscription → ℤ → Subscription
deactivate s now = record s { active = false; updated_at = now }
