-- ===== src/Ack/Steps.antt =====
-- internal/services/acknowledgment/retry.go and dlq.go: what the service does to one message: another
-- try, the dead letter queue, or giving it up.
use Prim.Native.String
use pub_sub_go.Base.{suc, String, false, none, some, if◌then◌else◌}
use pub_sub_go.Base.Int.{ℤ, pos}
use pub_sub_go.Core.Message.{Message}
use pub_sub_go.Result.{Action, ok, pure, modify, ◌>>=◌, ◌>>◌, noting, ignoring}
use pub_sub_go.Ack.Types.{AcknowledgmentResponse, Env, Service}
use pub_sub_go.Ack.Service.{with_repo, update_stats}
use pub_sub_go.Ack.Messages.{requeued_message, failed_message, dlq_original}

module _ (env : Env) where
  open env use {messages, formats, uuid, config, retry_strategy, dlq_strategy}
  open messages use {State}

  abbrev pub Method : Type 0 → Type 0
  Method A = Action (Service State) A

  -- `uuid.New()`
  unfoldable pub new_id : Method String
  new_id s = (ok (uuid s.drawn), record s { drawn = suc s.drawn })

  unfoldable pub requeue_message_for_retry :
      Message → String → ℤ → ℤ → Method AcknowledgmentResponse
  unfolding requeued_message update_stats
  requeue_message_for_retry m reason custom_delay now = do
    let q = requeued_message formats retry_strategy m reason custom_delay now
    noting "failed to store requeued message" (with_repo (messages.store q.0))
    modify (update_stats "requeued" (pos 0))
    pure (record {
      message_id = m.id;
      status = "requeued";
      retry_count = q.0.retry_count;
      next_retry_at = some q.1;
      dlq_topic = "";
      processed_at = now;
    })

  -- The acknowledgment record is made after the consumer was cleared.
  unfoldable pub mark_message_failed : Message → String → ℤ → Method AcknowledgmentResponse
  unfolding failed_message
  mark_message_failed m reason now = do
    let f = failed_message formats m reason now
    noting "failed to store failed message" (with_repo (messages.store f))
    ignoring (
        with_repo (
          messages.acknowledge (record {
            message_id = f.id;
            consumer_id = f.consumer_id;
            consumer_group = "";
            success = false;
            reason = String.◌++◌ "permanently failed: " reason;
            timestamp = now;
          })))
    pure (record {
      message_id = m.id;
      status = "failed";
      retry_count = m.retry_count;
      next_retry_at = none;
      dlq_topic = "";
      processed_at = now;
    })

  unfoldable pub move_message_to_dlq : Message → String → ℤ → Method AcknowledgmentResponse
  unfolding new_id dlq_original update_stats
  move_message_to_dlq m reason now = do
    let dlq_topic = dlq_strategy.get_dlq_topic m.topic
    id ← new_id
    let dlq_msg = dlq_strategy.enrich_dlq_message m reason now id
    noting "failed to store DLQ message" (with_repo (messages.store dlq_msg))
    noting "failed to update original message"
        (with_repo (messages.store (dlq_original formats m dlq_topic dlq_msg.id reason now)))
    modify (update_stats "dlq" (pos 0))
    pure (record {
      message_id = m.id;
      status = "dlq";
      retry_count = m.retry_count;
      next_retry_at = none;
      dlq_topic = dlq_topic;
      processed_at = now;
    })

  unfoldable pub give_up : Message → String → ℤ → Method AcknowledgmentResponse
  unfolding move_message_to_dlq mark_message_failed
  give_up m reason now =
      if dlq_strategy.should_move_to_dlq m
      then move_message_to_dlq m reason now
      else mark_message_failed m reason now
