-- ===== src/Ack/Workers.antt =====
-- internal/services/acknowledgment/ack_handler.go: what the background workers do in one tick.
use pub_sub_go.Base.{
  ◌*◌, ◌^◌, String, Bool, false, not, none, some, List, [], ◌∷◌, ◌++◌, Dict, lookup, if◌then◌else◌,
  ◌==◌,
}
use pub_sub_go.Base.Int.{ℤ, pos, ◌+ℤ◌, ◌-ℤ◌, ltb_ℤ}
use pub_sub_go.Base.Words.{inc64}
use pub_sub_go.Core.Message.{Message, pending}
use pub_sub_go.Result.{Result, ok, err, pure, modify, ◌>>=◌, ◌>>◌, noting, ignoring, attempt}
use pub_sub_go.Ports.{Formats}
use pub_sub_go.Ack.Types.{ExpiredMessageInfo, ExpirationReport, PendingAcknowledgment, Env, Service}
use pub_sub_go.Ack.Service.{with_repo, remove_pending_ack, update_stats}
use pub_sub_go.Ack.Steps.{
  Method, requeue_message_for_retry, mark_message_failed, move_message_to_dlq,
}

-- `&ExpirationReport{...}` before the loop.
unfoldable pub empty_report : ℤ → ExpirationReport
empty_report now = record {
  expired_count = pos 0;
  requeued_count = pos 0;
  dlq_count = pos 0;
  processed_at = now;
  expired_messages = [];
}

-- A message's entry in the report, when its action succeeded.
unfoldable pub add_to_report : ℤ → ℤ → ExpirationReport → Message → String → ExpirationReport
add_to_report deadline delivered_at report m action = record report {
  expired_count = inc64 report.expired_count;
  requeued_count =
      if action == "requeued" then inc64 report.requeued_count else report.requeued_count;
  dlq_count = if action == "dlq" then inc64 report.dlq_count else report.dlq_count;
  expired_messages = report.expired_messages ++ entry ∷ [];
}
  where
    entry : ExpiredMessageInfo
    entry = record {
      message_id = m.id;
      topic = m.topic;
      consumer_id = m.consumer_id;
      delivered_at = delivered_at;
      ack_deadline = deadline;
      action = action;
    }

-- The test of `retryWorker`: an instant in the header that can be read and has passed.
unfoldable pub ready_for_retry : Formats → ℤ → Message → Bool
ready_for_retry formats now m = elim (lookup "next_retry_at" m.headers) [
  | none ↦ false
  | some text ↦ elim (formats.parse_time text) [ none ↦ false | some t ↦ ltb_ℤ t now ]
]

-- `cleanupStalePendingAcks`: an entry goes when it is more than 24 hours old.
unfoldable pub fresh_acks : ℤ → Dict PendingAcknowledgment → Dict PendingAcknowledgment
fresh_acks now [] = []
fresh_acks now ((k, p) ∷ rest) =
    let kept = fresh_acks now rest in
    if ltb_ℤ (pos (24 * 3600 * 10 ^ 9)) (now -ℤ p.delivered_at) then kept else (k, p) ∷ kept

module _ (env : Env) where
  open env use {messages, formats, uuid, config, retry_strategy, dlq_strategy}
  open messages use {State}

  -- One message of the loop of `CheckExpiredAcknowledgments`, and what it was done with.
  unfoldable pub expire_action : Message → ℤ → Method env (Result String)
  unfolding requeue_message_for_retry move_message_to_dlq mark_message_failed
  expire_action m now =
      if retry_strategy.should_retry m (inc64 m.retry_count)
      then attempt
          (do _ ← requeue_message_for_retry env m "ack timeout" (pos 0) now; pure "requeued")
      else if dlq_strategy.should_move_to_dlq m
      then attempt (do _ ← move_message_to_dlq env m "ack timeout" now; pure "dlq")
      else attempt (do _ ← mark_message_failed env m "ack timeout" now; pure "failed")

  -- An error of the action is logged, and the message is left out of the report.
  unfoldable pub reported :
      ℤ → ℤ → ExpirationReport → Message → Result String → Method env ExpirationReport
  unfolding add_to_report remove_pending_ack update_stats
  reported deadline delivered_at report m (err e) = pure report
  reported deadline delivered_at report m (ok action) = do
    modify (remove_pending_ack m.id)
    modify (update_stats "expired" (pos 0))
    pure (add_to_report deadline delivered_at report m action)

  unfoldable pub expire_message : ℤ → ℤ → ExpirationReport → Message → Method env ExpirationReport
  unfolding expire_action reported
  expire_message deadline now report m = elim m.delivered_at [
    | none ↦ pure report
    | some delivered_at ↦
        if not (ltb_ℤ (delivered_at +ℤ deadline) now)
        then pure report
        else do result ← expire_action m now; reported deadline delivered_at report m result
  ]

  unfoldable pub check_expired_messages :
      ℤ → ℤ → ExpirationReport → List Message → Method env ExpirationReport
  unfolding expire_message
  check_expired_messages deadline now report [] = pure report
  check_expired_messages deadline now report (m ∷ ms) = do
    next ← expire_message deadline now report m
    check_expired_messages deadline now next ms

  unfoldable pub check_expired_acknowledgments : ℤ → Method env ExpirationReport
  unfolding check_expired_messages
  check_expired_acknowledgments now = do
    unacked ←
        noting "failed to get unacknowledged messages"
          (with_repo (messages.get_unacknowledged "" config.default_ack_deadline))
    check_expired_messages config.default_ack_deadline now (empty_report now) unacked

  -- One message of a tick of `retryWorker`. An error of the store is logged.
  unfoldable pub reset_for_retry : ℤ → Message → Method env (Unit {0})
  unfolding ready_for_retry
  reset_for_retry now m =
      if ready_for_retry formats now m
      then ignoring (
          with_repo
            (messages.store (record m { status = pending; consumer_id = ""; delivered_at = none })))
      else pure tt

  unfoldable pub reset_all : ℤ → List Message → Method env (Unit {0})
  unfolding reset_for_retry
  reset_all now [] = pure tt
  reset_all now (m ∷ ms) = do reset_for_retry now m; reset_all now ms

  -- A tick of `retryWorker`; one whose query fails does nothing more.
  unfoldable pub retry_tick : ℤ → Method env (Unit {0})
  unfolding reset_all
  retry_tick now = ignoring (do
    retry_messages ← with_repo (messages.get_failed_messages "" config.max_retries)
    reset_all now retry_messages)

unfoldable pub cleanup_stale_pending_acks : {R : Type 0} → ℤ → Service R → Service R
unfolding fresh_acks
cleanup_stale_pending_acks now s = record s { pending_acks = fresh_acks now s.pending_acks }
