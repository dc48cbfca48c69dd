-- ===== src/Ack/Authority.antt =====
-- Who may acknowledge, refuse and requeue: the checks before any change of the service's state.
use pub_sub_go.Base.{◌≡◌, String, false, eq_iff, arith, Option, some, none, ◌⊎◌}
use pub_sub_go.Base.Int.{ℤ}
use pub_sub_go.Core.Message.{Message}
use pub_sub_go.Result.{Result, is_ok, ok, err}
use pub_sub_go.Ack.Types.{
  AcknowledgmentRequest, NegativeAcknowledgmentRequest, AcknowledgmentResponse, Env, Service,
}
use pub_sub_go.Ack.Methods.{
  process_acknowledgment, process_negative_acknowledgment, validate_request,
}

unfoldable pub consumer_of : Result Message → Option String
consumer_of (ok m) = some m.consumer_id
consumer_of (err e) = none

-- The consumer is the one that the stored message is assigned to.
abbrev pub IsAssigned : (env : Env) → String → String → Service env.messages.State → Type 0
IsAssigned env message_id consumer_id s =
    consumer_of (env.messages.get message_id s.repo).0 ≡ some consumer_id

-- A call that the checks stop: an error, with the storage as the query left it and the rest of the
-- state as it was.
abbrev pub IsStopped :
    (env : Env)
    → String
    → Service env.messages.State
    → Result AcknowledgmentResponse × Service env.messages.State
    → Type 0
IsStopped env message_id s r =
    (is_ok r.0 ≡ false)
    × (r.1.pending_acks ≡ s.pending_acks)
    × (r.1.stats ≡ s.stats)
    × (r.1.drawn ≡ s.drawn)
    × ((r.1.repo ≡ s.repo) ⊎ (r.1.repo ≡ (env.messages.get message_id s.repo).1))

-- An acknowledgment is stopped by the checks, and then changes nothing, or its consumer is the one
-- that the message is assigned to.
pub process_acknowledgment_checks :
    (env : Env) (req : AcknowledgmentRequest) (now : ℤ) (s : Service env.messages.State)
    → IsStopped env req.message_id s (process_acknowledgment env req now s)
      ⊎ IsAssigned env req.message_id req.consumer_id s
unfolding process_acknowledgment validate_request consumer_of
process_acknowledgment_checks env req now s = grind (arith, eq_iff)

-- A refusal is stopped by the checks, and then changes nothing, or its consumer is the one that the
-- message is assigned to.
process_negative_acknowledgment_checks :
    (env : Env) (req : NegativeAcknowledgmentRequest) (now : ℤ) (s : Service env.messages.State)
    → IsStopped env req.message_id s (process_negative_acknowledgment env req now s)
      ⊎ IsAssigned env req.message_id req.consumer_id s
unfolding process_negative_acknowledgment validate_request consumer_of
process_negative_acknowledgment_checks env req now s = grind (arith, eq_iff)
