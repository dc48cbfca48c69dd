-- ===== src/Publisher/Service.antt =====
-- internal/services/publisher/publisher.go: the publishing of one message.
use pub_sub_go.Base.{
  ℕ, suc, String, true, false, Option, none, some, List, [], ◌∷◌, length, if◌then◌else◌, ◌==◌,
}
use pub_sub_go.Base.Int.{ℤ, pos, ◌+ℤ◌, ◌*ℤ◌, ltb_ℤ, leb_ℤ}
use pub_sub_go.Base.Words.{int64}
use pub_sub_go.Core.Message.{
  Message, Priority, low, normal, DeliveryMode, at_most_once, at_least_once, pending,
}
use pub_sub_go.Core.Topic.{Topic, increment_messages, add_bytes_in}
use pub_sub_go.Result.{Result, plain, ok, err, pure, raise, ◌>>=◌, ◌>>◌, noting, ignoring}
use pub_sub_go.Publisher.Hash.{hash_partition}
use pub_sub_go.Publisher.Compression.{new_compressor, should_compress}
use pub_sub_go.Publisher.Types.{
  PublishRequest, PublishResponse, Env, Stores, with_messages, with_topics,
}
use pub_sub_go.Publisher.Topics.{Method, ensure_topic_exists}

-- The zero value of a request stands for the default.
unfoldable pub default_priority : Priority → Priority
default_priority low = normal
default_priority p = p

unfoldable pub default_delivery_mode : DeliveryMode → DeliveryMode
default_delivery_mode at_most_once = at_least_once
default_delivery_mode d = d

unfoldable pub response_to : Message → PublishResponse
response_to m = record {
  message_id = m.id;
  topic = m.topic;
  partition = m.partition;
  offset = m.offset;
  timestamp = m.created_at;
  compressed = m.compressed;
}

module _ {V : Type 0} (env : Env V) where
  open env use {message_repo, topic_repo, uuid, text_bytes, codecs, config}

  -- `validatePublishRequest`
  unfoldable pub validate_publish_request : PublishRequest → Result (Unit {0})
  validate_publish_request req =
      if req.topic == ""
      then err (plain ("topic cannot be empty" ∷ []))
      else if leb_ℤ (pos (length req.payload)) (pos 0)
      then err (plain ("payload cannot be empty" ∷ []))
      else if ltb_ℤ (int64 (config.max_message_batch_size *ℤ pos 1024)) (pos (length req.payload))
      then err (plain ("payload too large" ∷ []))
      else ok tt

  -- The partition that `createMessage` chooses; `none` is the panic of a division by zero.
  unfoldable pub partition_of : PublishRequest → String → Topic V → Option ℤ
  unfolding hash_partition
  partition_of req id t = elim req.partition [
    | some p ↦ some p
    | none ↦
        if ltb_ℤ (pos 0) (pos (length req.key))
        then hash_partition req.key t.partitions
        else hash_partition (text_bytes id) t.partitions
  ]

  unfoldable pub message_at : PublishRequest → String → ℤ → ℤ → Message
  unfolding default_priority default_delivery_mode
  message_at req id partition now = record {
    id = id;
    topic = req.topic;
    partition = partition;
    offset = pos 0;
    key = req.key;
    payload = req.payload;
    headers = req.headers;
    priority = default_priority req.priority;
    delivery_mode = default_delivery_mode req.delivery_mode;
    status = pending;
    retry_count = pos 0;
    max_retries = config.max_retries;
    consumer_group = "";
    consumer_id = "";
    created_at = now;
    expires_at = elim req.ttl [ none ↦ none | some ttl ↦ some (now +ℤ ttl) ];
    delivered_at = none;
    acked_at = none;
    compressed = false;
    compression_type = "";
  }

  -- `createMessage`. A panic ends the call, as an error does.
  unfoldable pub create_message : PublishRequest → Topic V → ℤ → Method env Message
  unfolding partition_of message_at
  create_message req t now s =
      let id = uuid s.drawn in
      let s' : Stores message_repo.State topic_repo.State = record s { drawn = suc s.drawn } in
      elim (partition_of req id t) [
        | none ↦ raise (plain ("runtime error: integer divide by zero" ∷ [])) s'
        | some p ↦ (ok (message_at req id p now), s')
      ]

  -- An error of the compressor is logged, and the payload is left as it is.
  unfoldable pub compress_message : Message → List ℕ → Message
  unfolding new_compressor should_compress
  compress_message m payload =
      let c = new_compressor codecs config.compression_type config.compression_level in
      if should_compress config.compression_type payload
      then elim (c.compress payload) [
        | err e ↦ m
        | ok bytes ↦ record m {
          payload = bytes;
          compressed = true;
          compression_type = config.compression_type;
        }
      ]
      else m

  unfoldable pub publish : PublishRequest → ℤ → Method env PublishResponse
  unfolding validate_publish_request ensure_topic_exists create_message compress_message response_to
      increment_messages add_bytes_in
  publish req now = do
    noting "invalid publish request" (λ s. (validate_publish_request req, s))
    t ← noting "failed to ensure topic exists" (ensure_topic_exists env req.topic now)
    created ← create_message req t now
    let m = compress_message created req.payload
    noting "failed to store message" (with_messages (message_repo.store m))
    ignoring (
        with_topics (
          topic_repo.update
            (add_bytes_in (increment_messages t (pos 1) now) (pos (length req.payload)))))
    pure (response_to m)
