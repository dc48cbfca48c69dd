-- ===== src/Ack/Reprocess.antt =====
-- internal/services/acknowledgment/dlq.go: taking a message out of the dead letter queue again.
use text.Mathlib.Text.{starts_with}
use pub_sub_go.Base.{
  String, false, not, ◌&&◌, Option, none, some, List, [], ◌∷◌, Dict, insert, lookup, if◌then◌else◌,
}
use pub_sub_go.Base.Int.{ℤ, pos}
use pub_sub_go.Core.Message.{Message, pending, is_dlq, normal, at_least_once}
use pub_sub_go.Result.{plain, raise, ◌>>=◌, ◌>>◌, noting, ignoring}
use pub_sub_go.Config.{BrokerConfig}
use pub_sub_go.Ports.{Formats}
use pub_sub_go.Ack.Types.{Env}
use pub_sub_go.Ack.Service.{with_repo}
use pub_sub_go.Ack.Steps.{Method, new_id}

-- The headers that a reprocessed message keeps.
unfoldable pub keep_headers : Dict String → Dict String → Dict String
keep_headers [] to = to
keep_headers ((k, v) ∷ from) to =
    let rest = keep_headers from to in
    if not (starts_with k "dlq_") && not (starts_with k "original_") then insert k v rest else rest

unfoldable pub insert_reason : Option String → Dict String → Dict String
insert_reason none h = h
insert_reason (some r) h = insert "original_dlq_reason" r h

unfoldable pub reprocessed_message :
    Formats → BrokerConfig → Message → String → String → String → ℤ → Message
unfolding keep_headers insert_reason
reprocessed_message formats config d original_topic dlq_message_id id now =
    let h0 = keep_headers d.headers [] in
    let h1 = insert "reprocessed_from_dlq" "true" h0 in
    let h2 = insert "reprocessed_at" (formats.format_time now) h1 in
    let h3 = insert "original_dlq_message_id" dlq_message_id h2 in
    record {
      id = id;
      topic = original_topic;
      partition = d.partition;
      offset = pos 0;
      key = d.key;
      payload = d.payload;
      headers = insert_reason (lookup "dlq_reason" d.headers) h3;
      priority = normal;
      delivery_mode = at_least_once;
      status = pending;
      retry_count = pos 0;
      max_retries = config.max_retries;
      consumer_group = "";
      consumer_id = "";
      created_at = now;
      expires_at = none;
      delivered_at = none;
      acked_at = none;
      compressed = false;
      compression_type = "";
    }

-- The marks on the message that was reprocessed.
unfoldable pub reprocessed_headers : Formats → Dict String → String → ℤ → Dict String
reprocessed_headers formats h id now =
    let h1 = insert "reprocessed" "true" h in
    let h2 = insert "reprocessed_at" (formats.format_time now) h1 in
    insert "reprocessed_message_id" id h2

module _ (env : Env) where
  open env use {messages, formats, uuid, config, retry_strategy, dlq_strategy}
  open messages use {State}

  -- `ReprocessDLQMessage`
  unfoldable pub reprocess_dlq_message : String → ℤ → Method env (Unit {0})
  unfolding new_id reprocessed_message reprocessed_headers
  reprocess_dlq_message dlq_message_id now = do
    d ← noting "failed to get DLQ message" (with_repo (messages.get dlq_message_id))
    if not (is_dlq d.status)
        then raise (plain ("message " ∷ dlq_message_id ∷ " is not a DLQ message" ∷ []))
        else elim (lookup "original_topic" d.headers) [
          | none ↦ raise (plain ("DLQ message missing original topic information" ∷ []))
          | some original_topic ↦ do
            id ← new_id env
            noting "failed to store reprocessed message" (
                with_repo (
                  messages.store
                    (reprocessed_message formats config d original_topic dlq_message_id id now)))
            ignoring (
                with_repo (
                  messages.store
                    (record d { headers = reprocessed_headers formats d.headers id now })))
        ]

  -- `GetDLQMessages`
  unfoldable pub get_dlq_messages : String → ℤ → ℤ → Method env (List Message)
  get_dlq_messages dlq_topic limit offset = with_repo (messages.get_by_topic dlq_topic limit offset)
