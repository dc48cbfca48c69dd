-- ===== src/Config.antt =====
-- internal/config/config.go: the settings that the services read, and `Validate`. Loading them with
-- viper is not modelled.
use pub_sub_go.Base.{String, Bool, not, ◌&&◌, ◌||◌, ◌==◌, if◌then◌else◌, [], ◌∷◌}
use pub_sub_go.Base.Int.{ℤ, pos, ltb_ℤ, leb_ℤ}
use pub_sub_go.Result.{Result, ok, err, plain}

pub record BrokerConfig : Type 0 where
  pub default_partitions : ℤ
  pub default_replication : ℤ
  pub max_message_batch_size : ℤ
  pub compression_type : String
  pub compression_level : ℤ
  pub default_ack_deadline : ℤ
  pub max_retries : ℤ
  pub retry_backoff : ℤ
  pub enable_dlq : Bool
  pub dlq_prefix : String

-- The fields that `Validate` reads beside the broker's.
pub record Config : Type 0 where
  pub server_port : ℤ
  pub storage_type : String
  pub storage_max_message_size : ℤ
  pub broker : BrokerConfig

unfoldable pub validate : Config → (format_int : ℤ → String) → Result (Unit {0})
validate c format_int =
    if ltb_ℤ c.server_port (pos 1) || ltb_ℤ (pos 65535) c.server_port
    then err (plain ("invalid server port: " ∷ format_int c.server_port ∷ []))
    else if not (c.storage_type == "memory")
        && not (c.storage_type == "redis")
        && not (c.storage_type == "postgres")
    then err (plain ("unsupported storage type: " ∷ c.storage_type ∷ []))
    else if leb_ℤ c.storage_max_message_size (pos 0)
    then err (plain ("max message size must be positive" ∷ []))
    else if leb_ℤ c.broker.default_partitions (pos 0)
    then err (plain ("default partitions must be positive" ∷ []))
    else ok tt
