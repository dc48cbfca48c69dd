-- ===== src/Http/Acknowledging.antt =====
-- internal/adapters/api/http/acknowledgment.go: the handlers of acknowledgments and refusals, over the
-- service of internal/services/subscriber. `mentions e text` is `strings.Contains(err.Error(), text)`.
use pub_sub_go.Base.{◌≡◌, refl, String, Bool, true, false, not, [], ◌∷◌, if◌then◌else◌, ◌==◌}
use pub_sub_go.Base.Int.{ℤ}
use pub_sub_go.Result.{Result, Error, plain, ok, err}
use pub_sub_go.Subscriber.Types.{AcknowledgeRequest, NackRequest, Env}
use pub_sub_go.Subscriber.Pull.{State}
use pub_sub_go.Subscriber.Answers.{acknowledge, negative_acknowledge}
use pub_sub_go.Http.Replies.{
  Request, Reply, method_not_allowed, parse_json_request, write_error_response,
  write_success_response,
}

-- Both requests have the service's fields, so its types stand for them.
unfoldable pub validate_acknowledge_request : AcknowledgeRequest → Result (Unit {0})
validate_acknowledge_request req =
    if req.message_id == ""
    then err (plain ("message ID is required" ∷ []))
    else if req.consumer_id == ""
    then err (plain ("consumer ID is required" ∷ []))
    else ok tt

unfoldable pub validate_nack_request : NackRequest → Result (Unit {0})
validate_nack_request req =
    if req.message_id == ""
    then err (plain ("message ID is required" ∷ []))
    else if req.consumer_id == ""
    then err (plain ("consumer ID is required" ∷ []))
    else ok tt

abbrev pub nack_message : Bool → String
nack_message true = "Message negative acknowledged and scheduled for retry"
nack_message false = "Message negative acknowledged and moved to DLQ"

module _ {V : Type 0} (env : Env V) (mentions : Error → String → Bool) where
  unfoldable pub answer_acknowledge : Result (Unit {0}) → Reply (Unit {0})
  unfolding write_error_response write_success_response
  answer_acknowledge (ok _) = write_success_response tt "Message acknowledged successfully"
  answer_acknowledge (err e) =
      if mentions e "not found"
      then write_error_response 404 e "MESSAGE_NOT_FOUND"
      else if mentions e "already acknowledged"
      then write_error_response 409 e "ALREADY_ACKNOWLEDGED"
      else if mentions e "deadline exceeded"
      then write_error_response 410 e "ACK_DEADLINE_EXCEEDED"
      else write_error_response 500 e "ACKNOWLEDGE_FAILED"

  unfoldable pub answer_nack : Bool → Result (Unit {0}) → Reply (Unit {0})
  unfolding write_error_response write_success_response
  answer_nack retry (ok _) = write_success_response tt (nack_message retry)
  answer_nack retry (err e) =
      if mentions e "not found"
      then write_error_response 404 e "MESSAGE_NOT_FOUND"
      else if mentions e "already acknowledged"
      then write_error_response 409 e "ALREADY_ACKNOWLEDGED"
      else if mentions e "max retries exceeded"
      then write_error_response 400 e "MAX_RETRIES_EXCEEDED"
      else write_error_response 500 e "NACK_FAILED"

  -- The identifier of the path takes the place of the request's.
  unfoldable pub acknowledge_validated :
      String → AcknowledgeRequest → Result (Unit {0}) → ℤ → State env → Reply (Unit {0}) × State env
  unfolding answer_acknowledge write_error_response
  acknowledge_validated id req (err e) now s = (write_error_response 400 e "VALIDATION_ERROR", s)
  acknowledge_validated id req (ok _) now s =
      let r = acknowledge env (record req { message_id = id }) now s in
      (answer_acknowledge r.0, r.1)

  unfoldable pub acknowledge_parsed :
      String → Result AcknowledgeRequest → ℤ → State env → Reply (Unit {0}) × State env
  unfolding validate_acknowledge_request acknowledge_validated write_error_response
  acknowledge_parsed id (err e) now s = (write_error_response 400 e "INVALID_REQUEST", s)
  acknowledge_parsed id (ok req) now s =
      acknowledge_validated id req (validate_acknowledge_request req) now s

  unfoldable pub handle_acknowledge_message :
      String → Request AcknowledgeRequest → ℤ → State env → Reply (Unit {0}) × State env
  unfolding parse_json_request acknowledge_parsed
  handle_acknowledge_message id r now s =
      if not (r.verb == "POST")
      then (method_not_allowed, s)
      else acknowledge_parsed id (parse_json_request r) now s

  unfoldable pub nack_validated :
      String → NackRequest → Result (Unit {0}) → ℤ → State env → Reply (Unit {0}) × State env
  unfolding answer_nack write_error_response
  nack_validated id req (err e) now s = (write_error_response 400 e "VALIDATION_ERROR", s)
  nack_validated id req (ok _) now s =
      let r = negative_acknowledge env (record req { message_id = id }) now s in
      (answer_nack req.retry r.0, r.1)

  unfoldable pub nack_parsed :
      String → Result NackRequest → ℤ → State env → Reply (Unit {0}) × State env
  unfolding validate_nack_request nack_validated write_error_response
  nack_parsed id (err e) now s = (write_error_response 400 e "INVALID_REQUEST", s)
  nack_parsed id (ok req) now s = nack_validated id req (validate_nack_request req) now s

  unfoldable pub handle_negative_acknowledge_message :
      String → Request NackRequest → ℤ → State env → Reply (Unit {0}) × State env
  unfolding parse_json_request nack_parsed
  handle_negative_acknowledge_message id r now s =
      if not (r.verb == "POST")
      then (method_not_allowed, s)
      else nack_parsed id (parse_json_request r) now s

  nack_validated-retry :
      (id : String) (req : NackRequest) (v : Result (Unit {0})) (now : ℤ) (s : State env)
      → (nack_validated id (record req { retry = true }) v now s).1
        ≡ (nack_validated id (record req { retry = false }) v now s).1
  unfolding nack_validated negative_acknowledge
  nack_validated-retry id req (err e) now s = refl
  nack_validated-retry id req (ok u) now s = refl

  -- A refusal leaves the same state whether it asks for a retry or not, though the reply says of the
  -- one that it is scheduled for a retry and of the other that it is moved to the dead letter queue.
  nack_parsed-retry :
      (id : String) (req : NackRequest) (now : ℤ) (s : State env)
      → (nack_parsed id (ok (record req { retry = true })) now s).1
        ≡ (nack_parsed id (ok (record req { retry = false })) now s).1
  unfolding nack_parsed validate_nack_request
  nack_parsed-retry id req now s = nack_validated-retry id req (validate_nack_request req) now s
