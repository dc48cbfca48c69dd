-- ===== src/Core/Topic.antt =====
-- internal/core/topic/topic.go. `V` is `interface{}`, the values of a topic's configuration.
use pub_sub_go.Base.{ℕ, ◌*◌, ◌^◌, String, [], Dict}
use pub_sub_go.Base.Int.{ℤ, pos}
use pub_sub_go.Base.Words.{add64}

pub record Topic (V : Type 0) : Type 0 where
  pub name : String
  pub partitions : ℤ
  pub replication : ℤ
  pub retention_time : ℤ
  pub max_size : ℤ
  pub config : Dict V
  pub created_at : ℤ
  pub updated_at : ℤ
  pub message_count : ℤ
  pub bytes_in : ℤ
  pub bytes_out : ℤ

abbrev pub hour : ℕ
hour = 3600 * 10 ^ 9

module _ {V : Type 0} where
  unfoldable pub new_topic : String → ℤ → ℤ → Topic V
  new_topic name partitions now = record {
    name = name;
    partitions = partitions;
    replication = pos 1;
    retention_time = pos (24 * hour);
    max_size = pos (2 ^ 30);
    config = [];
    created_at = now;
    updated_at = now;
    message_count = pos 0;
    bytes_in = pos 0;
    bytes_out = pos 0;
  }

  unfoldable pub increment_messages : Topic V → ℤ → ℤ → Topic V
  increment_messages t count now = record t {
    message_count = add64 t.message_count count;
    updated_at = now;
  }

  unfoldable pub add_bytes_in : Topic V → ℤ → Topic V
  add_bytes_in t bytes = record t { bytes_in = add64 t.bytes_in bytes }

  unfoldable pub add_bytes_out : Topic V → ℤ → Topic V
  add_bytes_out t bytes = record t { bytes_out = add64 t.bytes_out bytes }

  unfoldable pub get_stats : Topic V → ℤ × ℤ × ℤ
  get_stats t = (t.message_count, t.bytes_in, t.bytes_out)
