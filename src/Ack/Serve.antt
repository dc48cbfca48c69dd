-- ===== src/Ack/Serve.antt =====
-- The service under any sequence of requests and of ticks of its workers: the mutexes admit one
-- update of its state at a time, and the errors that a call returns go to its caller.
use pub_sub_go.Base.{String, List, [], ◌∷◌}
use pub_sub_go.Base.Int.{ℤ}
use pub_sub_go.Ack.Types.{
  AcknowledgmentRequest, NegativeAcknowledgmentRequest, RequeueRequest, DlqRequest, Env, Service,
}
use pub_sub_go.Ack.Methods.{
  process_acknowledgment, process_negative_acknowledgment, requeue_message, move_to_dlq,
}
use pub_sub_go.Ack.Workers.{check_expired_acknowledgments, retry_tick, cleanup_stale_pending_acks}
use pub_sub_go.Ack.Reprocess.{reprocess_dlq_message}

pub data Call : Type 0 where
  acknowledges : AcknowledgmentRequest → Call
  refuses : NegativeAcknowledgmentRequest → Call
  requeues : RequeueRequest → Call
  moves : DlqRequest → Call
  reprocesses : String → Call
  expiration_ticks : Call
  retry_ticks : Call
  cleanup_ticks : Call

module _ (env : Env) where
  open env use {messages}
  open messages use {State}

  -- A call at an instant.
  unfoldable pub serve : Service State → Call × ℤ → Service State
  serve s (acknowledges req, now) = (process_acknowledgment env req now s).1
  serve s (refuses req, now) = (process_negative_acknowledgment env req now s).1
  serve s (requeues req, now) = (requeue_message env req now s).1
  serve s (moves req, now) = (move_to_dlq env req now s).1
  serve s (reprocesses id, now) = (reprocess_dlq_message env id now s).1
  serve s (expiration_ticks, now) = (check_expired_acknowledgments env now s).1
  serve s (retry_ticks, now) = (retry_tick env now s).1
  serve s (cleanup_ticks, now) = cleanup_stale_pending_acks now s

  unfoldable pub serve_all : Service State → List (Call × ℤ) → Service State
  unfolding serve
  serve_all s [] = s
  serve_all s (c ∷ cs) = serve_all (serve s c) cs
