-- ===== src/Ack/Counters.antt =====
-- The counters of the service and its record of processing times.
use pub_sub_go.Base.{
  ◌≤◌, ◌≡◌, refl, String, List, [], ◌∷◌, ◌++◌, length, length-append, length-drop, arith,
}
use pub_sub_go.Base.Int.{ℤ}
use pub_sub_go.Core.Message.{Message}
use pub_sub_go.Result.{Result, ok, err, ◌>>=◌}
use pub_sub_go.Ack.Types.{
  AcknowledgmentRequest, NegativeAcknowledgmentRequest, RequeueRequest, DlqRequest,
  ExpirationReport, Env, Service, ServiceStats,
}
use pub_sub_go.Ack.Service.{record_time, count_operation, update_stats, remove_pending_ack}
use pub_sub_go.Ack.Steps.{
  Method, new_id, requeue_message_for_retry, mark_message_failed, move_message_to_dlq, give_up,
}
use pub_sub_go.Ack.Methods.{
  process_failed_acknowledgment, process_acknowledgment, process_negative_acknowledgment,
  requeue_message, move_to_dlq,
}
use pub_sub_go.Ack.Workers.{
  expire_action, reported, expire_message, check_expired_messages, check_expired_acknowledgments,
  reset_for_retry, reset_all, retry_tick, cleanup_stale_pending_acks,
}
use pub_sub_go.Ack.Reprocess.{reprocess_dlq_message}
use pub_sub_go.Ack.Serve.{
  Call, acknowledges, refuses, requeues, moves, reprocesses, expiration_ticks, retry_ticks,
  cleanup_ticks, serve, serve_all,
}

-- The counter of refused messages is `n`, and at most a thousand times are kept.
abbrev pub IsSound : ℤ → ServiceStats → Type 0
IsSound n t = (t.nacked ≡ n) × (length t.processing_times ≤ 1000)

record_time-le : (t : ℤ) (ts : List ℤ) → length ts ≤ 1000 → length (record_time t ts) ≤ 1000
unfolding record_time
record_time-le t ts h = ground (arith, length-append ts (t ∷ []), length-drop 1 (ts ++ t ∷ []))

module _ (env : Env) (n : ℤ) where
  open env use {messages}
  open messages use {State}

  abbrev Keeps : {A : Type 0} → Method env A → Type 0
  Keeps m = (s : Service State) → IsSound n s.stats → IsSound n (m s).1.stats

  -- A chain keeps what its parts keep.
  rest-Keeps :
      {A B : Type 0} (r : Result A) (f : A → Method env B) (t : Service State)
      → IsSound n t.stats
      → ((a : A) → Keeps (f a))
      → IsSound n (((λ _. (r, t)) >>= f) t).1.stats
  rest-Keeps (ok a) f t h hf = hf a t h
  rest-Keeps (err e) f t h hf = h

  then-Keeps :
      {A B : Type 0} (m : Method env A) (f : A → Method env B)
      → Keeps m
      → ((a : A) → Keeps (f a))
      → Keeps (m >>= f)
  then-Keeps m f hm hf s h = rest-Keeps (m s).0 f (m s).1 (hm s h) hf

  counted-IsSound :
      (t : ℤ) (s : Service State)
      → IsSound n s.stats
      → IsSound n (update_stats "acknowledged" t s).stats
  unfolding update_stats count_operation
  counted-IsSound t s h = (h.0, record_time-le t s.stats.processing_times h.1)

  requeue-Keeps :
      (m : Message) (reason : String) (d now : ℤ)
      → Keeps (requeue_message_for_retry env m reason d now)
  unfolding requeue_message_for_retry update_stats count_operation record_time
  requeue-Keeps m reason d now s h = ground arith

  failed-Keeps :
      (m : Message) (reason : String) (now : ℤ) → Keeps (mark_message_failed env m reason now)
  unfolding mark_message_failed
  failed-Keeps m reason now s h = ground arith

  dlq-Keeps :
      (m : Message) (reason : String) (now : ℤ) → Keeps (move_message_to_dlq env m reason now)
  unfolding move_message_to_dlq update_stats count_operation record_time
  dlq-Keeps m reason now s h = ground arith

  give_up-Keeps : (m : Message) (reason : String) (now : ℤ) → Keeps (give_up env m reason now)
  unfolding give_up
  give_up-Keeps m reason now s h =
      ground (arith, dlq-Keeps m reason now s h, failed-Keeps m reason now s h)

  failed_ack-Keeps :
      (m : Message) (req : AcknowledgmentRequest) (now : ℤ)
      → Keeps (process_failed_acknowledgment env m req now)
  unfolding process_failed_acknowledgment remove_pending_ack
  failed_ack-Keeps m req now s h = grind (arith, requeue-Keeps, give_up-Keeps)

  ack-Keeps : (req : AcknowledgmentRequest) (now : ℤ) → Keeps (process_acknowledgment env req now)
  unfolding process_acknowledgment remove_pending_ack
  ack-Keeps req now s h = grind (arith, failed_ack-Keeps, counted-IsSound)

  nack-Keeps :
      (req : NegativeAcknowledgmentRequest) (now : ℤ)
      → Keeps (process_negative_acknowledgment env req now)
  unfolding process_negative_acknowledgment remove_pending_ack
  nack-Keeps req now s h = grind (arith, requeue-Keeps, give_up-Keeps)

  requeue_message-Keeps : (req : RequeueRequest) (now : ℤ) → Keeps (requeue_message env req now)
  unfolding requeue_message
  requeue_message-Keeps req now s h = ground arith

  move-Keeps : (req : DlqRequest) (now : ℤ) → Keeps (move_to_dlq env req now)
  unfolding move_to_dlq new_id
  move-Keeps req now s h = ground arith

  reprocess-Keeps : (id : String) (now : ℤ) → Keeps (reprocess_dlq_message env id now)
  unfolding reprocess_dlq_message new_id
  reprocess-Keeps id now s h = ground arith

  reported-Keeps :
      (d t : ℤ) (r : ExpirationReport) (m : Message) (a : Result String)
      → Keeps (reported env d t r m a)
  unfolding reported remove_pending_ack update_stats count_operation record_time
  reported-Keeps d t r m (ok a) s h = ground arith
  reported-Keeps d t r m (err e) s h = h

  action-Keeps : (m : Message) (now : ℤ) → Keeps (expire_action env m now)
  unfolding expire_action
  action-Keeps m now s h = grind (arith, requeue-Keeps, dlq-Keeps, failed-Keeps)

  expire-Keeps :
      (d now : ℤ) (r : ExpirationReport) (m : Message) → Keeps (expire_message env d now r m)
  unfolding expire_message
  expire-Keeps d now r m s h = grind (arith, action-Keeps, reported-Keeps)

  check_all-Keeps :
      (d now : ℤ) (r : ExpirationReport) (ms : List Message)
      → Keeps (check_expired_messages env d now r ms)
  unfolding check_expired_messages
  check_all-Keeps d now r [] s h = h
  check_all-Keeps d now r (m ∷ ms) s h =
      then-Keeps (expire_message env d now r m) (λ next. check_expired_messages env d now next ms)
        (expire-Keeps d now r m) (λ next. check_all-Keeps d now next ms) s h

  check-Keeps : (now : ℤ) → Keeps (check_expired_acknowledgments env now)
  unfolding check_expired_acknowledgments
  check-Keeps now s h = grind (arith, check_all-Keeps)

  reset-Keeps : (now : ℤ) (m : Message) → Keeps (reset_for_retry env now m)
  unfolding reset_for_retry
  reset-Keeps now m s h = ground arith

  reset_all-Keeps : (now : ℤ) (ms : List Message) → Keeps (reset_all env now ms)
  unfolding reset_all
  reset_all-Keeps now [] s h = h
  reset_all-Keeps now (m ∷ ms) s h =
      then-Keeps (reset_for_retry env now m) (λ _. reset_all env now ms) (reset-Keeps now m)
        (λ _. reset_all-Keeps now ms) s h

  retry-Keeps : (now : ℤ) → Keeps (retry_tick env now)
  unfolding retry_tick
  retry-Keeps now s h = grind (arith, reset_all-Keeps)

  serve-Keeps :
      (c : Call) (now : ℤ) (s : Service State)
      → IsSound n s.stats
      → IsSound n (serve env s (c, now)).stats
  unfolding serve cleanup_stale_pending_acks
  serve-Keeps (acknowledges req) now s h = ack-Keeps req now s h
  serve-Keeps (refuses req) now s h = nack-Keeps req now s h
  serve-Keeps (requeues req) now s h = requeue_message-Keeps req now s h
  serve-Keeps (moves req) now s h = move-Keeps req now s h
  serve-Keeps (reprocesses id) now s h = reprocess-Keeps id now s h
  serve-Keeps expiration_ticks now s h = check-Keeps now s h
  serve-Keeps retry_ticks now s h = retry-Keeps now s h
  serve-Keeps cleanup_ticks now s h = h

  serve_all-Keeps :
      (cs : List (Call × ℤ)) (s : Service State)
      → IsSound n s.stats
      → IsSound n (serve_all env s cs).stats
  unfolding serve_all
  serve_all-Keeps [] s h = h
  serve_all-Keeps (c ∷ cs) s h = serve_all-Keeps cs (serve env s c) (serve-Keeps c.0 c.1 s h)

-- Whatever calls and ticks the service serves, with any storage and strategies, its counter of
-- refused messages keeps its value, and a record of at most a thousand times stays one.
pub serve_all-IsSound :
    (env : Env) (cs : List (Call × ℤ)) (s : Service env.messages.State)
    → length s.stats.processing_times ≤ 1000
    → IsSound s.stats.nacked (serve_all env s cs).stats
serve_all-IsSound env cs s h = serve_all-Keeps env s.stats.nacked cs s (refl, h)
