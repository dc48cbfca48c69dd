-- ===== src/Http/Accounts.antt =====
-- What a client is told of a batch that it publishes over HTTP, and when the stores stay as they are.
use pub_sub_go.Base.{
  ℕ, suc, ◌+◌, ◌<◌, ◌≤◌, ◌≡◌, refl, subst, inl, inr, String, Bool, true, false, not, ◌&&◌, List, [],
  ◌∷◌, length, length-append, length-map, arith, eqb, ltb, leb, Bool-cases, ◌==◌,
}
use pub_sub_go.Base.Int.{ℤ}
use pub_sub_go.Result.{Result, Error, wrapped, ok, err}
use pub_sub_go.Publisher.Types.{BatchPublishResponse, Env}
use pub_sub_go.Publisher.Batch.{publish_batch}
use pub_sub_go.Publisher.Counts.{IsComplete, publish_batch-IsComplete}
use pub_sub_go.Http.Replies.{
  Request, Reply, written, successful, refused, status_of, parse_json_request, write_error_response,
}
use pub_sub_go.Http.PublishRequests.{
  HttpPublishRequest, HttpBatchPublishRequest, HttpBatchPublishResponse, FailedMessage, of_error,
  Conversion, convert_response, publish_failures, with_failure,
}
use pub_sub_go.Http.Publishing.{
  State, validate_http_request, batch_message, convert_tested, convert_all, answer_batch,
  publish_converted, batch_parsed, handle_batch_publish,
}

-- An entry for each of `n` messages, and 200 when none of them failed.
abbrev pub AccountsFor : ℕ → ℕ → HttpBatchPublishResponse → Type 0
AccountsFor n status r =
    (length r.messages + length r.failed ≡ n) × (eqb status 200 ≡ eqb (length r.failed) 0)

-- The reply to a batch of `n` messages: an account of them, or 500.
abbrev pub IsAnswered : ℕ → Reply HttpBatchPublishResponse → Type 0
IsAnswered n (written status r) = AccountsFor n status r
IsAnswered n (successful r) = AccountsFor n 200 r.payload
IsAnswered n (refused status e) = status ≡ 500

abbrev pub is_client_error : ℕ → Bool
is_client_error status = leb 400 status && ltb status 500

abbrev entries : Conversion → ℕ
entries c = length c.messages + length c.failed

length-publish_failures :
    (i : ℕ) (es : List (ℕ × Error)) → length (publish_failures i es) ≡ length es
unfolding publish_failures
length-publish_failures i [] = refl
length-publish_failures i (e ∷ es) = grind (arith, length-publish_failures (i + 1) es)

with_failure-entries :
    (i : ℕ) (code : String) (e : Error) (c : Conversion)
    → entries (with_failure i code e c) ≡ suc (entries c)
with_failure-entries i code e c =
    grind (
      arith,
      length-append c.failed (record { index = i; error = code; message = of_error e } ∷ []),
    )

module _ {V : Type 0} (env : Env V) (decode : String → Result (List ℕ)) where
  convert_tested-entries :
      (i : ℕ) (req : HttpPublishRequest) (r : Result (Unit {0})) (d : Result (List ℕ))
      (c : Conversion)
      → entries (convert_tested env decode i req r d c) ≡ suc (entries c)
  unfolding convert_tested
  convert_tested-entries i req (err e) d c = with_failure-entries i "VALIDATION_ERROR" e c
  convert_tested-entries i req (ok u) (err e) c =
      with_failure-entries i "INVALID_PAYLOAD" (wrapped "invalid base64 payload" e) c
  convert_tested-entries i req (ok u) (ok payload) c =
      grind (arith, length-append c.messages (batch_message env decode req payload ∷ []))

  convert_all-entries :
      (i : ℕ) (reqs : List HttpPublishRequest) (c : Conversion)
      → entries (convert_all env decode i reqs c) ≡ entries c + length reqs
  unfolding convert_all
  convert_all-entries i [] c = omega arith
  convert_all-entries i (req ∷ reqs) c =
      let d = decode req.payload in
      let r = validate_http_request env decode req in
      grind (
        arith,
        convert_all-entries (i + 1) reqs (convert_tested env decode i req r d c),
        convert_tested-entries i req r d c,
      )

  answer_batch-IsAnswered :
      (n : ℕ) (failed : List FailedMessage) (r : Result BatchPublishResponse)
      → IsComplete n r
      → IsAnswered (n + length failed) (answer_batch env decode failed r)
  unfolding answer_batch write_error_response
  answer_batch-IsAnswered n failed (err e) h = refl
  answer_batch-IsAnswered n failed (ok r) h = ground (
    arith,
    h,
    length-map convert_response r.responses,
    length-append failed (publish_failures 0 r.errors),
    length-publish_failures 0 r.errors,
  )

  publish_converted-IsAnswered :
      (topic : String) (c : Conversion) (now : ℤ) (s : State env decode)
      → 0 < entries c
      → entries c ≤ 1000
      → IsAnswered (entries c) (publish_converted env decode topic c now s).0
  unfolding publish_converted
  publish_converted-IsAnswered topic c now s some_entry few =
      elim (Bool-cases (eqb (length c.messages) 0)) [
        | inl e ↦ rw e (ground (arith, e, some_entry))
        | inr e ↦ rw e (
            answer_batch-IsAnswered (length c.messages) c.failed
              (publish_batch env (record { topic = topic; messages = c.messages }) now s).0
              (publish_batch-IsComplete env (record { topic = topic; messages = c.messages }) now s
                (omega (arith, few))))
      ]

  answer_batch-is_client_error :
      (failed : List FailedMessage) (r : Result BatchPublishResponse)
      → is_client_error (status_of (answer_batch env decode failed r)) ≡ false
  unfolding answer_batch write_error_response
  answer_batch-is_client_error failed (err e) = refl
  answer_batch-is_client_error failed (ok r) = ground arith

  publish_converted-unchanged :
      (topic : String) (c : Conversion) (now : ℤ) (s : State env decode)
      → is_client_error (status_of (publish_converted env decode topic c now s).0) ≡ true
      → (publish_converted env decode topic c now s).1 ≡ s
  unfolding publish_converted
  publish_converted-unchanged topic c now s client = ground (
    arith,
    client,
    answer_batch-is_client_error c.failed
        (publish_batch env (record { topic = topic; messages = c.messages }) now s).0,
  )

  batch_parsed-unchanged :
      (topic : String) (b : Result HttpBatchPublishRequest) (now : ℤ) (s : State env decode)
      → is_client_error (status_of (batch_parsed env decode topic b now s).0) ≡ true
      → (batch_parsed env decode topic b now s).1 ≡ s
  unfolding batch_parsed
  batch_parsed-unchanged topic (err e) now s client = refl
  batch_parsed-unchanged topic (ok req) now s client = ground (
    arith,
    client,
    publish_converted-unchanged topic
        (convert_all env decode 0 req.messages (record { messages = []; failed = [] })) now s,
  )

  -- A batch of 1 to 1000 messages that is posted as JSON is answered with an entry for each message,
  -- a response or a failure, and with 200 exactly when none failed; or with 500, when the service
  -- gives an error for the whole batch.
  pub handle_batch_publish-IsAnswered :
      (topic : String) (req : HttpBatchPublishRequest) (now : ℤ) (s : State env decode)
      → 0 < length req.messages
      → length req.messages ≤ 1000
      → IsAnswered
          (length req.messages)
          (handle_batch_publish env decode topic
            (record { verb = "POST"; content_type = "application/json"; body = ok req })
            now
            s).0
  unfolding handle_batch_publish parse_json_request batch_parsed
  handle_batch_publish-IsAnswered topic req now s some_message few =
      let c = convert_all env decode 0 req.messages (record { messages = []; failed = [] }) in
      let start : Conversion = record { messages = []; failed = [] } in
      let counted : entries c ≡ length req.messages =
        omega (arith, convert_all-entries 0 req.messages start) in
      let nonempty : eqb (length req.messages) 0 ≡ false = ground (arith, some_message) in
      let within : ltb 1000 (length req.messages) ≡ false = ground (arith, few) in
      rw (nonempty, within)
        (subst (λ n. IsAnswered n (publish_converted env decode topic c now s).0) counted
          (publish_converted-IsAnswered topic c now s (omega (arith, counted, some_message))
            (omega (arith, counted, few))))

  -- A request for a batch that is answered with a status from 400 to 499 changes nothing in the
  -- stores.
  pub handle_batch_publish-unchanged :
      (topic : String) (r : Request HttpBatchPublishRequest) (now : ℤ) (s : State env decode)
      → is_client_error (status_of (handle_batch_publish env decode topic r now s).0) ≡ true
      → (handle_batch_publish env decode topic r now s).1 ≡ s
  unfolding handle_batch_publish
  handle_batch_publish-unchanged topic r now s client = elim (Bool-cases (not (r.verb == "POST"))) [
    | inl e ↦ rw e refl
    | inr e ↦ rw e (batch_parsed-unchanged topic (parse_json_request r) now s (rw e at client))
  ]
