-- ===== src/Http/Publishing.antt =====
-- internal/adapters/api/http/publisher.go: the handlers of publishing, over the service of
-- internal/services/publisher. `decode` is `base64.StdEncoding.DecodeString`.
use pub_sub_go.Base.{
  ℕ, ◌+◌, String, not, none, List, [], ◌∷◌, ◌++◌, map, length, if◌then◌else◌, eqb, ltb, ◌==◌,
}
use pub_sub_go.Base.Int.{ℤ}
use pub_sub_go.Result.{Result, plain, wrapped, ok, err}
use pub_sub_go.Publisher.Types.{
  PublishRequest, PublishResponse, MessageBatch, BatchPublishResponse, Env, Stores,
}
use pub_sub_go.Publisher.Service.{publish}
use pub_sub_go.Publisher.Batch.{publish_batch}
use pub_sub_go.Http.Replies.{
  Request, Reply, written, method_not_allowed, parse_json_request, write_error_response,
  write_success_response,
}
use pub_sub_go.Http.PublishRequests.{
  HttpPublishRequest, HttpBatchPublishRequest, HttpPublishResponse, FailedMessage,
  HttpBatchPublishResponse, parse_priority, parse_delivery_mode, validate_fields, ttl_of,
  convert_response, Conversion, with_failure, publish_failures,
}

module _ {V : Type 0} (env : Env V) (decode : String → Result (List ℕ)) where
  open env use {message_repo, topic_repo, text_bytes}

  abbrev pub State : Type 0
  State = Stores message_repo.State topic_repo.State

  unfoldable pub validate_http_request : HttpPublishRequest → Result (Unit {0})
  unfolding validate_fields
  validate_http_request req =
      if req.payload == ""
      then err (plain ("payload is required" ∷ []))
      else validate_fields req (decode req.payload)

  unfoldable pub publish_request_of : String → HttpPublishRequest → List ℕ → PublishRequest
  unfolding parse_priority parse_delivery_mode ttl_of
  publish_request_of topic req payload = record {
    topic = topic;
    key = text_bytes req.key;
    payload = payload;
    headers = req.headers;
    priority = parse_priority req.priority;
    delivery_mode = parse_delivery_mode req.delivery_mode;
    ttl = ttl_of req.ttl;
    partition = none;
  }

  unfoldable pub answer_publish : Result PublishResponse → Reply HttpPublishResponse
  unfolding convert_response write_error_response write_success_response
  answer_publish (err e) = write_error_response 500 e "PUBLISH_FAILED"
  answer_publish (ok r) =
      write_success_response (convert_response r) "Message published successfully"

  unfoldable pub publish_decoded :
      String → HttpPublishRequest → Result (List ℕ) → ℤ → State → Reply HttpPublishResponse × State
  unfolding publish_request_of answer_publish write_error_response
  publish_decoded topic req (err e) now s =
      (write_error_response 400 (wrapped "invalid base64 payload" e) "INVALID_PAYLOAD", s)
  publish_decoded topic req (ok payload) now s =
      let r = publish env (publish_request_of topic req payload) now s in (answer_publish r.0, r.1)

  unfoldable pub publish_validated :
      String
      → HttpPublishRequest
      → Result (Unit {0})
      → ℤ
      → State
      → Reply HttpPublishResponse × State
  unfolding publish_decoded write_error_response
  publish_validated topic req (err e) now s = (write_error_response 400 e "VALIDATION_ERROR", s)
  publish_validated topic req (ok _) now s = publish_decoded topic req (decode req.payload) now s

  unfoldable pub publish_parsed :
      String → Result HttpPublishRequest → ℤ → State → Reply HttpPublishResponse × State
  unfolding validate_http_request publish_validated write_error_response
  publish_parsed topic (err e) now s = (write_error_response 400 e "INVALID_REQUEST", s)
  publish_parsed topic (ok req) now s =
      publish_validated topic req (validate_http_request req) now s

  unfoldable pub handle_publish :
      String → Request HttpPublishRequest → ℤ → State → Reply HttpPublishResponse × State
  unfolding parse_json_request publish_parsed
  handle_publish topic r now s =
      if not (r.verb == "POST")
      then (method_not_allowed, s)
      else publish_parsed topic (parse_json_request r) now s

  unfoldable pub batch_message : HttpPublishRequest → List ℕ → MessageBatch
  unfolding parse_priority parse_delivery_mode ttl_of
  batch_message req payload = record {
    key = text_bytes req.key;
    payload = payload;
    headers = req.headers;
    priority = parse_priority req.priority;
    delivery_mode = parse_delivery_mode req.delivery_mode;
    ttl = ttl_of req.ttl;
  }

  -- A round of the loop, by what the tests give.
  unfoldable pub convert_tested :
      ℕ → HttpPublishRequest → Result (Unit {0}) → Result (List ℕ) → Conversion → Conversion
  unfolding batch_message
  convert_tested i req (err e) decoded c = with_failure i "VALIDATION_ERROR" e c
  convert_tested i req (ok _) (err e) c =
      with_failure i "INVALID_PAYLOAD" (wrapped "invalid base64 payload" e) c
  convert_tested i req (ok _) (ok payload) c = record c {
    messages = c.messages ++ batch_message req payload ∷ [];
  }

  unfoldable pub convert_all : ℕ → List HttpPublishRequest → Conversion → Conversion
  unfolding convert_tested validate_http_request
  convert_all i [] c = c
  convert_all i (req ∷ reqs) c =
      convert_all (i + 1) reqs
        (convert_tested i req (validate_http_request req) (decode req.payload) c)

  unfoldable pub answer_batch :
      List FailedMessage → Result BatchPublishResponse → Reply HttpBatchPublishResponse
  unfolding publish_failures convert_response write_error_response
  answer_batch failed (err e) = write_error_response 500 e "BATCH_PUBLISH_FAILED"
  answer_batch failed (ok r) =
      let all = failed ++ publish_failures 0 r.errors in
      written (if ltb 0 (length all) then 206 else 200)
        (record { messages = map convert_response r.responses; failed = all })

  unfoldable pub publish_converted :
      String → Conversion → ℤ → State → Reply HttpBatchPublishResponse × State
  unfolding answer_batch
  publish_converted topic c now s =
      let r = publish_batch env (record { topic = topic; messages = c.messages }) now s in
      if eqb (length c.messages) 0
      then (written 400 (record { messages = []; failed = c.failed }), s)
      else (answer_batch c.failed r.0, r.1)

  unfoldable pub batch_parsed :
      String → Result HttpBatchPublishRequest → ℤ → State → Reply HttpBatchPublishResponse × State
  unfolding convert_all publish_converted write_error_response
  batch_parsed topic (err e) now s = (write_error_response 400 e "INVALID_REQUEST", s)
  batch_parsed topic (ok req) now s =
      if eqb (length req.messages) 0
      then (
        write_error_response 400 (plain ("at least one message is required" ∷ [])) "EMPTY_BATCH",
        s,
      )
      else if ltb 1000 (length req.messages)
      then (
        write_error_response 400 (plain ("batch size exceeds maximum limit of 1000" ∷ []))
            "BATCH_TOO_LARGE",
        s,
      )
      else publish_converted topic
          (convert_all 0 req.messages (record { messages = []; failed = [] })) now s

  unfoldable pub handle_batch_publish :
      String → Request HttpBatchPublishRequest → ℤ → State → Reply HttpBatchPublishResponse × State
  unfolding parse_json_request batch_parsed
  handle_batch_publish topic r now s =
      if not (r.verb == "POST")
      then (method_not_allowed, s)
      else batch_parsed topic (parse_json_request r) now s
