-- ===== src/Publisher/Outcome.antt =====
-- What the service makes of a message before it is stored: its partition, defaults and payload.
use pub_sub_go.Base.{
  ℕ, ◌<◌, ◌≡◌, ap, ◌⊎◌, inl, inr, String, true, false, List, length, arith, ◌==◌, if◌then◌else◌,
  Bool-cases, lt→ltb,
}
use pub_sub_go.Base.Int.{ℤ, pos, ◌≤ℤ◌}
use pub_sub_go.Core.Message.{Message, low, normal, at_most_once, at_least_once}
use pub_sub_go.Core.Topic.{Topic, new_topic}
use pub_sub_go.Config.{Config, validate}
use pub_sub_go.Result.{Result, Result-cases, is_ok, ok}
use pub_sub_go.Publisher.Compression.{Codecs, new_compressor, should_compress, noop_compressor}
use pub_sub_go.Publisher.Hash.{hash_partition}
use pub_sub_go.Publisher.Types.{Env, Stores, PublishRequest, CreateTopicRequest}
use pub_sub_go.Publisher.Service.{
  partition_of, message_at, create_message, compress_message, default_priority,
  default_delivery_mode,
}
use pub_sub_go.Publisher.Topics.{created_topic}

-- The libraries of the three formats undo what they do.
abbrev pub IsInverse : Codecs → Type 0
IsInverse c =
    ((b : List ℕ) → c.snappy_decode (c.snappy_encode b) ≡ ok b)
    × ((l : ℤ) (b z : List ℕ) → c.gzip_compress l b ≡ ok z → c.gzip_decompress z ≡ ok b)
    × ((b z : List ℕ) → c.lz4_compress b ≡ ok z → c.lz4_decompress z ≡ ok b)

-- A compressor takes its own output back.
compressor-inverse :
    (c : Codecs) (kind : String) (level : ℤ) (b z : List ℕ)
    → IsInverse c
    → (new_compressor c kind level).compress b ≡ ok z
    → (new_compressor c kind level).decompress z ≡ ok b
unfolding new_compressor noop_compressor
compressor-inverse c kind level b z inv e = ground (arith, e, inv.0 b, inv.1 level b z, inv.2 b z)

-- A topic that is created under a configuration that `Validate` accepts has a partition or more.
created_topic-partitions :
    {V : Type 0} (env : Env V) (c : Config) (format_int : ℤ → String) (req : CreateTopicRequest V)
    (now : ℤ)
    → c.broker ≡ env.config
    → is_ok (validate c format_int) ≡ true
    → pos 1 ≤ℤ (created_topic env req now).partitions
unfolding created_topic validate new_topic
created_topic-partitions env c format_int req now same valid =
    ground (arith, valid, ap (λ b. b.default_partitions) same)

-- A message to a topic with partitions is created: the partition is there, and no division panics.
create_message-is_ok :
    {V : Type 0} (env : Env V) (req : PublishRequest) (t : Topic V) (now : ℤ)
    (s : Stores env.message_repo.State env.topic_repo.State)
    → pos 1 ≤ℤ t.partitions
    → is_ok (create_message env req t now s).0 ≡ true
unfolding create_message partition_of hash_partition
create_message-is_ok env req t now s some_partition = ground (arith, some_partition)

-- The payload that a consumer reads: decompressed with the type that the message names.
abbrev pub read_payload : {V : Type 0} → Env V → Message → Result (List ℕ)
read_payload env m =
    if m.compressed
    then (new_compressor env.codecs m.compression_type env.config.compression_level).decompress
        m.payload
    else ok m.payload

-- A published message that is decompressed with the type it names has the payload of its request,
-- whether it was compressed, too short to be, or refused by the compressor.
pub compress_message-read :
    {V : Type 0} (env : Env V) (m : Message)
    → IsInverse env.codecs
    → m.compressed ≡ false
    → read_payload env (compress_message env m m.payload) ≡ ok m.payload
unfolding compress_message
compress_message-read env m inv plain_message =
    let c = new_compressor env.codecs env.config.compression_type env.config.compression_level in
    elim (Bool-cases (should_compress env.config.compression_type m.payload)) [
      | inr short ↦ rw (short, plain_message)
      | inl long ↦ elim (Result-cases (c.compress m.payload)) [
        | inl (z, e) ↦
            rw (long, e)
              (compressor-inverse env.codecs env.config.compression_type
                env.config.compression_level m.payload z inv e)
        | inr (x, e) ↦ rw (long, e, plain_message)
      ]
    ]

-- A compression type that is none of the three and not "none": a payload of more than 1024 bytes is
-- stored as it is, and marked as compressed with that type.
pub unknown_compression :
    {V : Type 0} (env : Env V) (m : Message)
    → (env.config.compression_type == "snappy") ≡ false
    → (env.config.compression_type == "gzip") ≡ false
    → (env.config.compression_type == "lz4") ≡ false
    → (env.config.compression_type == "none") ≡ false
    → 1024 < length m.payload
    → compress_message env m m.payload
      ≡ record m { compressed = true; compression_type = env.config.compression_type }
unfolding compress_message should_compress new_compressor noop_compressor
unknown_compression env m a b c d long = rw (a, b, c, d, lt→ltb 1024 (length m.payload) long)

-- A request for low priority, or for delivery at most once, is stored like one for the default;
-- any other choice is kept.
pub message_at-defaults :
    {V : Type 0} (env : Env V) (req : PublishRequest) (id : String) (p now : ℤ)
    → let m = message_at env req id p now in
      (((req.priority ≡ low) × (m.priority ≡ normal)) ⊎ (m.priority ≡ req.priority))
      × (((req.delivery_mode ≡ at_most_once) × (m.delivery_mode ≡ at_least_once))
          ⊎ (m.delivery_mode ≡ req.delivery_mode))
unfolding message_at default_priority default_delivery_mode
message_at-defaults env req id p now = ground arith
