-- ===== src/Publisher/Samples.antt =====
-- Stores in memory and requests, for the tests of publishing.
use pub_sub_go.Base.{ℕ, String, true, false, none, List, [], ◌∷◌, length, replicate}
use pub_sub_go.Base.Int.{ℤ, pos}
use pub_sub_go.Config.{BrokerConfig, Config}
use pub_sub_go.Core.Message.{Message, low, normal, at_most_once, at_least_once, pending}
use pub_sub_go.Core.Topic.{Topic}
use pub_sub_go.Result.{Result, plain, ok, err}
use pub_sub_go.Ports.{MessageRepository, TopicRepository}
use pub_sub_go.Publisher.Compression.{Codecs}
use pub_sub_go.Publisher.Types.{Env, Stores, PublishRequest, MessageBatch, BatchPublishRequest}

abbrev pub memory : MessageRepository
memory = record {
  State = List Message;
  store = λ m s. (ok tt, m ∷ s);
  get = λ id s. (err (plain ("not found" ∷ [])), s);
  remove = λ id s. (ok tt, s);
  store_batch = λ ms s. (ok tt, ms);
  get_batch = λ ids s. (ok s, s);
  get_by_topic = λ topic limit offset s. (ok s, s);
  get_by_topic_partition = λ topic partition offset limit s. (ok s, s);
  count_by_topic = λ topic s. (ok (pos (length s)), s);
  get_for_consumer_group = λ topic group limit s. (ok s, s);
  mark_delivered = λ id consumer s. (ok tt, s);
  acknowledge = λ ack s. (ok tt, s);
  get_unacknowledged = λ topic older s. (ok s, s);
  get_failed_messages = λ topic limit s. (ok [], s);
  move_to_dlq = λ id topic s. (ok tt, s);
  delete_expired = λ s. (ok (pos 0), s);
  delete_older_than = λ topic age s. (ok (pos 0), s);
}

abbrev pub topic_at : ℤ → Topic ℕ
topic_at n = record {
  name = "orders";
  partitions = n;
  replication = pos 1;
  retention_time = pos 1;
  max_size = pos 1;
  config = [];
  created_at = pos 0;
  updated_at = pos 0;
  message_count = pos 0;
  bytes_in = pos 0;
  bytes_out = pos 0;
}

abbrev pub one_topic : TopicRepository ℕ
one_topic = record {
  State = Topic ℕ;
  create = λ t s. (ok tt, t);
  get = λ name s. (ok s, s);
  update = λ t s. (ok tt, t);
  remove = λ name s. (ok tt, s);
  list = λ offset limit s. (ok (s ∷ []), s);
  exists = λ name s. (ok true, s);
}

abbrev pub config : BrokerConfig
config = record {
  default_partitions = pos 3;
  default_replication = pos 1;
  max_message_batch_size = pos 100;
  compression_type = "zstd";
  compression_level = pos 0;
  default_ack_deadline = pos 30;
  max_retries = pos 3;
  retry_backoff = pos 1;
  enable_dlq = true;
  dlq_prefix = "dlq-";
}

abbrev pub settings : Config
settings = record {
  server_port = pos 8080;
  storage_type = "redis";
  storage_max_message_size = pos 1000;
  broker = config;
}

-- Codecs that put a mark before the bytes, and take it away.
abbrev pub unmark : List ℕ → Result (List ℕ)
unmark [] = err (plain ("empty" ∷ []))
unmark (b ∷ bytes) = ok bytes

abbrev pub and_unmark : Result (List ℕ) → Result (List ℕ)
and_unmark (ok b) = unmark b
and_unmark (err e) = err e

abbrev pub marks : Codecs
marks = record {
  snappy_encode = λ b. 1 ∷ b;
  snappy_decode = unmark;
  gzip_compress = λ level b. ok (2 ∷ b);
  gzip_decompress = unmark;
  lz4_compress = λ b. ok (3 ∷ b);
  lz4_decompress = unmark;
}

abbrev pub env_with : String → Env ℕ
env_with kind = record {
  message_repo = memory;
  topic_repo = one_topic;
  uuid = λ n. "id";
  text_bytes = λ s. 105 ∷ 100 ∷ [];
  codecs = marks;
  config = record config { compression_type = kind };
}

abbrev pub stores : Stores (List Message) (Topic ℕ)
stores = record { messages = []; topics = topic_at (pos 3); drawn = 0 }

abbrev pub request : PublishRequest
request = record {
  topic = "orders";
  key = 7 ∷ [];
  payload = 1 ∷ 2 ∷ [];
  headers = [];
  priority = low;
  delivery_mode = at_most_once;
  ttl = none;
  partition = none;
}

abbrev pub item : List ℕ → MessageBatch
item payload = record {
  key = 7 ∷ [];
  payload = payload;
  headers = [];
  priority = low;
  delivery_mode = at_most_once;
  ttl = none;
}

abbrev pub batch : BatchPublishRequest
batch = record { topic = "orders"; messages = item (1 ∷ []) ∷ item [] ∷ [] }

abbrev pub sent : List ℕ → Message
sent payload = record {
  id = "id";
  topic = "orders";
  partition = pos 1;
  offset = pos 0;
  key = 7 ∷ [];
  payload = payload;
  headers = [];
  priority = normal;
  delivery_mode = at_least_once;
  status = pending;
  retry_count = pos 0;
  max_retries = pos 3;
  consumer_group = "";
  consumer_id = "";
  created_at = pos 5;
  expires_at = none;
  delivered_at = none;
  acked_at = none;
  compressed = false;
  compression_type = "";
}

abbrev pub long : List ℕ
long = replicate 1025 0
