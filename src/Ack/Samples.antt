-- ===== src/Ack/Samples.antt =====
-- A storage in memory, a service and requests, for the tests of acknowledgments.
use pub_sub_go.Base.{true, none, some, List, [], ◌∷◌, Dict, lookup, insert}
use pub_sub_go.Base.Int.{ℤ, pos, ◌+ℤ◌, ◌-ℤ◌, ◌*ℤ◌, ltb_ℤ}
use pub_sub_go.Config.{BrokerConfig}
use pub_sub_go.Core.Message.{Message, normal, at_least_once, delivered}
use pub_sub_go.Result.{plain, ok, err}
use pub_sub_go.Ports.{MessageRepository, Formats}
use pub_sub_go.Ack.Backoff.{Float64}
use pub_sub_go.Ack.Types.{AcknowledgmentRequest, NegativeAcknowledgmentRequest, Env, Service}
use pub_sub_go.Ack.Setup.{new_env, new_service}
use pub_sub_go.Ack.Serve.{Call, acknowledges, refuses, retry_ticks}

abbrev pub memory : MessageRepository
memory = record {
  State = Dict Message;
  store = λ m s. (ok tt, insert m.id m s);
  get = λ id s. (elim (lookup id s) [ none ↦ err (plain ("not found" ∷ [])) | some m ↦ ok m ], s);
  remove = λ id s. (ok tt, s);
  store_batch = λ ms s. (ok tt, s);
  get_batch = λ ids s. (ok [], s);
  get_by_topic = λ topic limit offset s. (ok [], s);
  get_by_topic_partition = λ topic partition offset limit s. (ok [], s);
  count_by_topic = λ topic s. (ok (pos 0), s);
  get_for_consumer_group = λ topic group limit s. (ok [], s);
  mark_delivered = λ id consumer s. (ok tt, s);
  acknowledge = λ ack s. (ok tt, s);
  get_unacknowledged = λ topic older s. (ok [], s);
  get_failed_messages = λ topic limit s. (ok [], s);
  move_to_dlq = λ id topic s. (ok tt, s);
  delete_expired = λ s. (ok (pos 0), s);
  delete_older_than = λ topic age s. (ok (pos 0), s);
}

abbrev pub whole_numbers : Float64
whole_numbers = record {
  Float = ℤ;
  of_int = λ z. z;
  tenths = λ z. z;
  add = ◌+ℤ◌;
  sub = ◌-ℤ◌;
  mul = ◌*ℤ◌;
  div = λ a b. a;
  pow = λ a b. a;
  gt = λ a b. ltb_ℤ b a;
  to_int = λ z. z;
}

abbrev pub formats : Formats
formats = record {
  format_time = λ t. "12:00";
  parse_time = λ s. some (pos 1500);
  format_int = λ n. "1";
}

abbrev pub config : BrokerConfig
config = record {
  default_partitions = pos 3;
  default_replication = pos 1;
  max_message_batch_size = pos 100;
  compression_type = "none";
  compression_level = pos 0;
  default_ack_deadline = pos 30;
  max_retries = pos 3;
  retry_backoff = pos 1;
  enable_dlq = true;
  dlq_prefix = "dlq-";
}

abbrev pub letter : Message
letter = record {
  id = "m";
  topic = "orders";
  partition = pos 1;
  offset = pos 0;
  key = 1 ∷ [];
  payload = 2 ∷ 3 ∷ [];
  headers = ("colour", "red") ∷ [];
  priority = normal;
  delivery_mode = at_least_once;
  status = delivered;
  retry_count = pos 2;
  max_retries = pos 3;
  consumer_group = "";
  consumer_id = "c";
  created_at = pos 5;
  expires_at = none;
  delivered_at = some (pos 6);
  acked_at = none;
  compressed = true;
  compression_type = "gzip";
}

abbrev pub env : Env
env = new_env whole_numbers memory formats (λ n. "id") config

unfoldable pub service : Service env.messages.State
unfolding new_env new_service
service = new_service (("m", letter) ∷ []) (pos 0)

abbrev pub acked : AcknowledgmentRequest
acked = record {
  message_id = "m";
  consumer_id = "c";
  consumer_group = "";
  success = true;
  processing_time = pos 4;
  metadata = [];
}

abbrev pub refused : NegativeAcknowledgmentRequest
refused = record {
  message_id = "m";
  consumer_id = "d";
  consumer_group = "";
  reason = "busy";
  retry = true;
  retry_delay = pos 0;
  metadata = [];
}

abbrev pub calls : List (Call × ℤ)
calls = (refuses refused, pos 8) ∷ (acknowledges acked, pos 9) ∷ (retry_ticks, pos 10) ∷ []
