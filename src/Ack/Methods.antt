-- ===== src/Ack/Methods.antt =====
-- internal/services/acknowledgment/ack_handler.go, retry.go and dlq.go: acknowledging, refusing,
-- requeueing and moving a message on request.
use pub_sub_go.Base.{String, true, not, ◌&&◌, none, some, [], ◌∷◌, lookup, if◌then◌else◌, ◌==◌}
use pub_sub_go.Base.Int.{ℤ, pos}
use pub_sub_go.Base.Words.{inc64}
use pub_sub_go.Core.Message.{Message, acknowledged}
use pub_sub_go.Result.{Result, plain, ok, err, pure, raise, modify, ◌>>=◌, ◌>>◌, noting, ignoring}
use pub_sub_go.Ack.Types.{
  AcknowledgmentRequest, NegativeAcknowledgmentRequest, AcknowledgmentResponse, RequeueRequest,
  DlqRequest, Env,
}
use pub_sub_go.Ack.Service.{with_repo, remove_pending_ack, update_stats}
use pub_sub_go.Ack.Messages.{requeued_message, dlq_original}
use pub_sub_go.Ack.Steps.{Method, new_id, requeue_message_for_retry, give_up}

-- `validateAckRequest` and `validateNackRequest`, which test the same two fields.
unfoldable pub validate_request : String → String → Result (Unit {0})
validate_request message_id consumer_id =
    if message_id == ""
    then err (plain ("message ID cannot be empty" ∷ []))
    else if consumer_id == ""
    then err (plain ("consumer ID cannot be empty" ∷ []))
    else ok tt

unfoldable pub metadata_reason : AcknowledgmentRequest → String
metadata_reason req = elim (lookup "reason" req.metadata) [
  | some r ↦ r
  | none ↦ "processing failed"
]

module _ (env : Env) where
  open env use {messages, formats, uuid, config, retry_strategy, dlq_strategy}
  open messages use {State}

  unfoldable pub process_failed_acknowledgment :
      Message → AcknowledgmentRequest → ℤ → Method env AcknowledgmentResponse
  unfolding remove_pending_ack give_up requeue_message_for_retry metadata_reason
  process_failed_acknowledgment m req now = do
    modify (remove_pending_ack req.message_id)
    if retry_strategy.should_retry m (inc64 m.retry_count)
        then requeue_message_for_retry env m (metadata_reason req) (pos 0) now
        else give_up env m (metadata_reason req) now

  unfoldable pub process_acknowledgment :
      AcknowledgmentRequest → ℤ → Method env AcknowledgmentResponse
  unfolding validate_request remove_pending_ack update_stats process_failed_acknowledgment
  process_acknowledgment req now = do
    noting "invalid acknowledgment request"
        (λ s. (validate_request req.message_id req.consumer_id, s))
    m ← noting "failed to get message" (with_repo (messages.get req.message_id))
    if not (m.consumer_id == req.consumer_id)
        then raise (
            plain (
              "consumer " ∷ req.consumer_id ∷ " cannot acknowledge message assigned to "
              ∷ m.consumer_id ∷ []))
        else if req.success
        then (do
          modify (remove_pending_ack req.message_id)
          modify (update_stats "acknowledged" req.processing_time)
          noting "failed to store acknowledged message"
              (with_repo (messages.store (record m { status = acknowledged; acked_at = some now })))
          ignoring (
              with_repo (
                messages.acknowledge (record {
                  message_id = req.message_id;
                  consumer_id = req.consumer_id;
                  consumer_group = req.consumer_group;
                  success = true;
                  reason = "";
                  timestamp = now;
                })))
          pure (record {
            message_id = req.message_id;
            status = "acknowledged";
            retry_count = pos 0;
            next_retry_at = none;
            dlq_topic = "";
            processed_at = now;
          }))
        else process_failed_acknowledgment m req now

  unfoldable pub process_negative_acknowledgment :
      NegativeAcknowledgmentRequest → ℤ → Method env AcknowledgmentResponse
  unfolding validate_request remove_pending_ack requeue_message_for_retry give_up
  process_negative_acknowledgment req now = do
    noting "invalid negative acknowledgment request"
        (λ s. (validate_request req.message_id req.consumer_id, s))
    m ← noting "failed to get message" (with_repo (messages.get req.message_id))
    if not (m.consumer_id == req.consumer_id)
        then raise (
            plain (
              "consumer " ∷ req.consumer_id ∷ " cannot nack message assigned to " ∷ m.consumer_id
              ∷ []))
        else do
          modify (remove_pending_ack req.message_id)
          if req.retry && retry_strategy.should_retry m (inc64 m.retry_count)
              then requeue_message_for_retry env m req.reason req.retry_delay now
              else give_up env m req.reason now

  -- `RequeueMessage`: the request's `MaxRetries` is not read.
  unfoldable pub requeue_message : RequeueRequest → ℤ → Method env (Unit {0})
  unfolding requeued_message
  requeue_message req now = do
    m ← noting "failed to get message for requeue" (with_repo (messages.get req.message_id))
    noting "failed to store requeued message" (
        with_repo (
          messages.store
            (requeued_message formats retry_strategy m req.reason req.retry_delay now).0))

  unfoldable pub move_to_dlq : DlqRequest → ℤ → Method env (Unit {0})
  unfolding new_id dlq_original
  move_to_dlq req now = do
    m ← noting "failed to get message for DLQ" (with_repo (messages.get req.message_id))
    let dlq_topic =
        if req.dlq_topic == "" then dlq_strategy.get_dlq_topic m.topic else req.dlq_topic
    id ← new_id env
    let enriched = dlq_strategy.enrich_dlq_message m req.reason now id
    noting "failed to store DLQ message"
        (with_repo (messages.store (record enriched { topic = dlq_topic })))
    noting "failed to update original message"
        (with_repo (messages.store (dlq_original formats m dlq_topic enriched.id req.reason now)))
