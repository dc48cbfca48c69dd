-- ===== src/Ack/Fate.antt =====
-- What becomes of a message that is refused again and again, under the strategies of `NewService`.
use text.Mathlib.Text.{starts_with}
use pub_sub_go.Base.{
  ℕ, zero, suc, ◌+◌, ◌<◌, ◌≡◌, ◌↔◌, String, true, false, arith, ◌≤◌, ◌⊎◌, inl, inr, Bool-cases, ltb,
  ltb→lt, leb, le→leb, le→not_ltb, lt→not_leb, ap, ap₂, ◌∙◌,
}
use pub_sub_go.Base.Int.{ℤ, leb_ℤ, pos, ◌+ℤ◌, ◌≤ℤ◌}
use pub_sub_go.Base.Words.{int64, inc64, max_int64}
use pub_sub_go.Config.{BrokerConfig}
use pub_sub_go.Core.Message.{Message}
use pub_sub_go.Ports.{MessageRepository, Formats}
use pub_sub_go.Ack.Backoff.{
  Float64, RetryStrategy, within_retries, max_retries_of, exponential,
  new_exponential_backoff_retry,
}
use pub_sub_go.Ack.DeadLetter.{should_move_to_dlq, default_dlq, new_default_dlq_strategy}
use pub_sub_go.Ack.Messages.{requeued_message}
use pub_sub_go.Ack.Types.{AcknowledgmentRequest, Service}
use pub_sub_go.Ack.Steps.{
  requeue_message_for_retry, move_message_to_dlq, mark_message_failed, give_up,
}
use pub_sub_go.Ack.Service.{remove_pending_ack}
use pub_sub_go.Ack.Methods.{metadata_reason, process_failed_acknowledgment}
use pub_sub_go.Ack.Setup.{new_env}

-- The message after `n` tries more, each requeued for the same reason.
unfoldable pub tried : Formats → RetryStrategy → ℕ → Message → String → ℤ → Message
unfolding requeued_message
tried formats strategy zero m reason now = m
tried formats strategy (suc n) m reason now =
    tried formats strategy n (requeued_message formats strategy m reason (pos 0) now).0 reason now

inc64_pos : (r : ℕ) → pos (suc r) ≤ℤ max_int64 → inc64 (pos r) ≡ pos (suc r)
unfolding int64 ◌+ℤ◌
inc64_pos r h = ground arith

tried_count :
    (f : Formats) (s : RetryStrategy) (n r : ℕ) (m : Message) (reason : String) (now : ℤ)
    → m.retry_count ≡ pos r
    → pos (r + n) ≤ℤ max_int64
    → ((tried f s n m reason now).retry_count ≡ pos (r + n))
      × ((tried f s n m reason now).max_retries ≡ m.max_retries)
unfolding tried requeued_message
tried_count f s zero r m reason now e h = ground (arith, e)
tried_count f s (suc n) r m reason now e h =
    let q = (requeued_message f s m reason (pos 0) now).0 in
    let ih =
      tried_count f s n (suc r) q reason now (ap inc64 e ∙ inc64_pos r (omega arith))
        (omega arith) in
    (ih.0 ∙ ap pos (omega arith), ih.1)

leb_suc : (a b : ℕ) → leb_ℤ (pos (suc a)) (pos b) ≡ ltb a b
leb_suc a b = ground arith

not_ltb→le : (a b : ℕ) → ltb a b ≡ false → b ≤ a
not_ltb→le a b e = ground arith

leb_pos : (a b : ℕ) → leb_ℤ (pos a) (pos b) ≡ leb a b
leb_pos a b = ground arith

max_retries-eq :
    (default : ℤ) (m m' : Message)
    → m'.max_retries ≡ m.max_retries
    → max_retries_of default m' ≡ max_retries_of default m
unfolding max_retries_of
max_retries-eq default m m' e = rw e

own_limit :
    (default : ℤ) (m : Message) (l : ℕ)
    → m.max_retries ≡ pos (suc l)
    → max_retries_of default m ≡ pos (suc l)
unfolding max_retries_of
own_limit default m l e = ground (arith, e)

-- The two tests of a message with `r` tries behind it.
within_lem :
    (default : ℤ) (m : Message) (r l : ℕ)
    → m.retry_count ≡ pos r
    → max_retries_of default m ≡ pos l
    → pos (suc r) ≤ℤ max_int64
    → within_retries default m (inc64 m.retry_count) ≡ ltb r l
unfolding within_retries
within_lem default m r l e el h = let i = ap inc64 e ∙ inc64_pos r h in ap₂ leb_ℤ i el ∙ leb_suc r l

moves_lem :
    (config : BrokerConfig) (m : Message) (r k : ℕ)
    → m.retry_count ≡ pos r
    → config.max_retries ≡ pos k
    → config.enable_dlq ≡ true
    → starts_with m.topic config.dlq_prefix ≡ false
    → should_move_to_dlq (new_default_dlq_strategy config) m ≡ leb k r
unfolding should_move_to_dlq new_default_dlq_strategy
moves_lem config m r k er ek on out = rw (on, out, er, ek, leb_pos k r)

-- A message with `r` tries behind it whose limit is `l`, requeued `n` times more, is tried again
-- just if r + n < l, as long as the count of tries is an `int`.
pub tried-within :
    (f : Formats) (s : RetryStrategy) (default : ℤ) (m : Message) (r l n : ℕ) (reason : String)
    (now : ℤ)
    → m.retry_count ≡ pos r
    → max_retries_of default m ≡ pos l
    → pos (suc (r + n)) ≤ℤ max_int64
    → (within_retries default
          (tried f s n m reason now)
          (inc64 (tried f s n m reason now).retry_count)
        ≡ true)
      ↔ (r + n < l)
unfolding within_retries max_retries_of
tried-within f s default m r l n reason now e el h =
    let c = tried_count f s n r m reason now e (omega arith) in
    let limit = max_retries-eq default m (tried f s n m reason now) c.1 ∙ el in
    let w = within_lem default (tried f s n m reason now) (r + n) l c.0 limit h in ground (arith, w)

-- Under the strategies of `NewService`, with the dead letter queue on, a message outside of it, a
-- limit of the message that is the service's, and a count of tries that an `int` can go on from: a
-- failed message is requeued while tries are left, and after that moved to the dead letter queue.
-- It is not marked as failed.
pub refused_fate :
    (fl : Float64) (repo : MessageRepository) (formats : Formats) (uuid : ℕ → String)
    (config : BrokerConfig) (m : Message) (req : AcknowledgmentRequest) (now : ℤ) (r l : ℕ)
    (s : Service (new_env fl repo formats uuid config).messages.State)
    → m.retry_count ≡ pos r
    → config.max_retries ≡ pos l
    → max_retries_of config.max_retries m ≡ pos l
    → pos (suc r) ≤ℤ max_int64
    → config.enable_dlq ≡ true
    → starts_with m.topic config.dlq_prefix ≡ false
    → let env = new_env fl repo formats uuid config in
      let t = remove_pending_ack req.message_id s in
      ((r < l)
        × (process_failed_acknowledgment env m req now s
            ≡ requeue_message_for_retry env m (metadata_reason req) (pos 0) now t))
      ⊎ ((l ≤ r)
          × (process_failed_acknowledgment env m req now s
              ≡ move_message_to_dlq env m (metadata_reason req) now t))
unfolding new_env exponential new_exponential_backoff_retry default_dlq new_default_dlq_strategy
    process_failed_acknowledgment give_up
refused_fate fl repo formats uuid config m req now r l s er ec el h on out =
    let w = within_lem config.max_retries m r l er el h in
    let v = moves_lem config m r l er ec on out in
    elim (Bool-cases (ltb r l)) [
      | inl e ↦ inl (ltb→lt r l e, rw (w, e))
      | inr e ↦ inr (not_ltb→le r l e, rw (w, e, v, le→leb l r (not_ltb→le r l e)))
    ]

-- With a limit of the message below the service's: a message outside of the dead letter queue that
-- has used its own tries up, but not yet as many as the service's limit, is marked as failed although
-- the dead letter queue is on.
pub lost_fate :
    (fl : Float64) (repo : MessageRepository) (formats : Formats) (uuid : ℕ → String)
    (config : BrokerConfig) (m : Message) (req : AcknowledgmentRequest) (now : ℤ) (r l k : ℕ)
    (s : Service (new_env fl repo formats uuid config).messages.State)
    → m.retry_count ≡ pos r
    → m.max_retries ≡ pos (suc l)
    → config.max_retries ≡ pos k
    → l < r
    → r < k
    → pos (suc r) ≤ℤ max_int64
    → config.enable_dlq ≡ true
    → starts_with m.topic config.dlq_prefix ≡ false
    → process_failed_acknowledgment (new_env fl repo formats uuid config) m req now s
      ≡ mark_message_failed
          (new_env fl repo formats uuid config)
          m
          (metadata_reason req)
          now
          (remove_pending_ack req.message_id s)
unfolding new_env exponential new_exponential_backoff_retry default_dlq new_default_dlq_strategy
    process_failed_acknowledgment give_up
lost_fate fl repo formats uuid config m req now r l k s er em ek used left h on out =
    let w = within_lem config.max_retries m r (suc l) er (own_limit config.max_retries m l em) h in
    let v = moves_lem config m r k er ek on out in
    rw (w, le→not_ltb (suc l) r used, v, lt→not_leb r k left)
