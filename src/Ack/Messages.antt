-- ===== src/Ack/Messages.antt =====
-- What the service makes of a message that is tried again, given up or moved, before it is stored.
use pub_sub_go.Base.{String, none, insert, if◌then◌else◌}
use pub_sub_go.Base.Int.{ℤ, pos, ◌+ℤ◌, eqb_ℤ}
use pub_sub_go.Base.Words.{inc64}
use pub_sub_go.Core.Message.{Message, pending, failed, dlq}
use pub_sub_go.Ports.{Formats}
use pub_sub_go.Ack.Backoff.{RetryStrategy}

-- Tried again: the message, and the instant of the next try.
unfoldable pub requeued_message : Formats → RetryStrategy → Message → String → ℤ → ℤ → Message × ℤ
requeued_message formats strategy m reason custom_delay now =
    let m' : Message = record m {
      retry_count = inc64 m.retry_count;
      status = pending;
      consumer_id = "";
      delivered_at = none;
      acked_at = none;
    } in
    let retry_delay =
      if eqb_ℤ custom_delay (pos 0)
      then strategy.get_retry_delay m' m'.retry_count now
      else custom_delay in
    let next_retry_at = now +ℤ retry_delay in
    let h1 = insert "retry_count" (formats.format_int m'.retry_count) m.headers in
    let h2 = insert "retry_reason" reason h1 in
    let h3 = insert "next_retry_at" (formats.format_time next_retry_at) h2 in
    (record m' { headers = h3 }, next_retry_at)

-- Given up.
unfoldable pub failed_message : Formats → Message → String → ℤ → Message
failed_message formats m reason now =
    let h1 = insert "failure_reason" reason m.headers in
    let h2 = insert "failed_at" (formats.format_time now) h1 in
    let h3 = insert "final_retry_count" (formats.format_int m.retry_count) h2 in
    record m { status = failed; consumer_id = ""; headers = h3 }

-- Moved: the original, beside its copy in the dead letter queue.
unfoldable pub dlq_original : Formats → Message → String → String → String → ℤ → Message
dlq_original formats m dlq_topic dlq_id reason now =
    let h1 = insert "dlq_moved_at" (formats.format_time now) m.headers in
    let h2 = insert "dlq_topic" dlq_topic h1 in
    let h3 = insert "dlq_message_id" dlq_id h2 in
    let h4 = insert "dlq_reason" reason h3 in
    record m { status = dlq; consumer_id = ""; headers = h4 }
