-- ===== src/Publisher/Batch.antt =====
-- internal/services/publisher/publisher.go: `PublishBatch`.
use pub_sub_go.Base.{ℕ, ◌+◌, String, none, List, [], ◌∷◌, ◌++◌, map, length, if◌then◌else◌, ltb}
use pub_sub_go.Base.Int.{ℤ, pos, ltb_ℤ, leb_ℤ}
use pub_sub_go.Base.Words.{inc64, add64}
use pub_sub_go.Core.Message.{Message}
use pub_sub_go.Core.Topic.{Topic, increment_messages, add_bytes_in}
use pub_sub_go.Result.{Result, Error, plain, ok, err, pure, raise, ◌>>=◌, ◌>>◌, noting, ignoring}
use pub_sub_go.Publisher.Types.{
  PublishRequest, PublishResponse, MessageBatch, BatchPublishRequest, BatchPublishResponse, Env,
  with_messages, with_topics,
}
use pub_sub_go.Publisher.Service.{create_message, compress_message, response_to}
use pub_sub_go.Publisher.Topics.{Method, ensure_topic_exists}

-- The variables of the loop.
pub record Batch : Type 0 where
  pub messages : List Message
  pub responses : List PublishResponse
  pub errors : List (ℕ × Error)
  pub published : ℤ
  pub failed : ℤ
  pub total_bytes_in : ℤ

abbrev pub empty_batch : Batch
empty_batch = record {
  messages = [];
  responses = [];
  errors = [];
  published = pos 0;
  failed = pos 0;
  total_bytes_in = pos 0;
}

unfoldable pub validate_batch_message : MessageBatch → Result (Unit {0})
validate_batch_message msg =
    if leb_ℤ (pos (length msg.payload)) (pos 0)
    then err (plain ("payload cannot be empty" ∷ []))
    else ok tt

unfoldable pub request_of : String → MessageBatch → PublishRequest
request_of topic msg = record {
  topic = topic;
  key = msg.key;
  payload = msg.payload;
  headers = msg.headers;
  priority = msg.priority;
  delivery_mode = msg.delivery_mode;
  ttl = msg.ttl;
  partition = none;
}

-- The two ways that a round of the loop ends.
unfoldable pub reject : ℕ → Error → Batch → Batch
reject i e b = record b { errors = b.errors ++ (i, e) ∷ []; failed = inc64 b.failed }

unfoldable pub accept : Message → MessageBatch → Batch → Batch
unfolding response_to
accept m msg b = record b {
  messages = b.messages ++ m ∷ [];
  responses = b.responses ++ response_to m ∷ [];
  total_bytes_in = add64 b.total_bytes_in (pos (length msg.payload));
  published = inc64 b.published;
}

unfoldable pub batch_response : Batch → BatchPublishResponse
batch_response b = record {
  published = b.published;
  failed = b.failed;
  message_ids = map (λ r. r.message_id) b.responses;
  responses = b.responses;
  errors = b.errors;
}

module _ {V : Type 0} (env : Env V) where
  open env use {message_repo, topic_repo, config}

  unfoldable pub add_to_batch : String → Topic V → ℤ → ℕ → MessageBatch → Batch → Method env Batch
  unfolding validate_batch_message create_message compress_message request_of reject accept
  add_to_batch topic t now i msg b = elim (validate_batch_message msg) [
    | err e ↦ pure (reject i e b)
    | ok _ ↦ do
      created ← create_message env (request_of topic msg) t now
      pure (accept (compress_message env created msg.payload) msg b)
  ]

  unfoldable pub add_all : String → Topic V → ℤ → ℕ → List MessageBatch → Batch → Method env Batch
  unfolding add_to_batch
  add_all topic t now i [] b = pure b
  add_all topic t now i (msg ∷ msgs) b = do
    next ← add_to_batch topic t now i msg b
    add_all topic t now (i + 1) msgs next

  -- Storing, when there is a message to store.
  unfoldable pub store_batch : Topic V → ℤ → Batch → Method env (Unit {0})
  unfolding increment_messages add_bytes_in
  store_batch t now b =
      if ltb 0 (length b.messages)
      then (do
        noting "failed to store message batch" (with_messages (message_repo.store_batch b.messages))
        ignoring (
            with_topics (
              topic_repo.update (
                add_bytes_in (increment_messages t (pos (length b.messages)) now)
                  b.total_bytes_in))))
      else pure tt

  -- The numbers in the text of the second error are left out.
  unfoldable pub publish_batch : BatchPublishRequest → ℤ → Method env BatchPublishResponse
  unfolding ensure_topic_exists add_all store_batch batch_response
  publish_batch req now =
      if leb_ℤ (pos (length req.messages)) (pos 0)
      then raise (plain ("batch cannot be empty" ∷ []))
      else if ltb_ℤ config.max_message_batch_size (pos (length req.messages))
      then raise (plain ("batch size exceeds maximum" ∷ []))
      else do
        t ← noting "failed to ensure topic exists" (ensure_topic_exists env req.topic now)
        b ← add_all req.topic t now 0 req.messages empty_batch
        store_batch t now b
        pure (batch_response b)
