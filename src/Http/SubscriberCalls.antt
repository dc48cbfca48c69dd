-- ===== src/Http/SubscriberCalls.antt =====
-- internal/adapters/api/http/subscriber.go: the handlers, over the service of
-- internal/services/subscriber. `mentions e text` is `strings.Contains(err.Error(), text)`.
use pub_sub_go.Base.{ℕ, String, Bool, not, List, [], ◌∷◌, if◌then◌else◌, ◌==◌}
use pub_sub_go.Base.Int.{ℤ}
use pub_sub_go.Result.{Result, Error, plain, ok, err}
use pub_sub_go.Subscriber.Types.{SubscribeResponse, SubscriptionInfo, JoinGroupResponse, Env}
use pub_sub_go.Subscriber.Pull.{State, pull, pull_with_consumer_group}
use pub_sub_go.Subscriber.Subscriptions.{
  subscribe, unsubscribe, get_subscription, list_subscriptions,
}
use pub_sub_go.Subscriber.Groups.{join_consumer_group, leave_consumer_group}
use pub_sub_go.Http.Replies.{
  Request, Reply, refused, method_not_allowed, parse_json_request, write_error_response,
  write_success_response,
}
use pub_sub_go.Http.SubscriberRequests.{
  HttpSubscribeRequest, HttpPullRequest, HttpGroupPullRequest, HttpJoinGroupRequest,
  HttpPullResponse, convert_pull_response, validate_http_subscribe, subscribe_request_of,
  pull_request_of, group_pull_request_of, join_request_of,
}

abbrev pub missing_consumer : {A : Type 0} → Reply A
missing_consumer =
    refused 400
      (record { error = plain ("consumer ID is required" ∷ []); code = "MISSING_CONSUMER_ID" })

module _ {V : Type 0} (env : Env V) (mentions : Error → String → Bool) where
  -- The reply to a result: 404 when the error mentions a text, else 500.
  unfoldable pub respond :
      {A B : Type 0}
      → (missing missing_code code note : String) → (A → B)
      → Result A × State env
      → Reply B × State env
  unfolding write_error_response write_success_response
  respond missing missing_code code note f (err e, s) = (
    if mentions e missing
        then write_error_response 404 e missing_code
        else write_error_response 500 e code,
    s,
  )
  respond missing missing_code code note f (ok a, s) = (write_success_response (f a) note, s)

  unfoldable pub subscribe_validated :
      HttpSubscribeRequest → Result (Unit {0}) → ℤ → State env → Reply SubscribeResponse × State env
  unfolding write_error_response subscribe_request_of respond
  subscribe_validated req (err e) now s = (write_error_response 400 e "VALIDATION_ERROR", s)
  subscribe_validated req (ok _) now s =
      respond "topic not found" "TOPIC_NOT_FOUND" "SUBSCRIPTION_FAILED"
        "Subscription created successfully" (λ r. r)
        (subscribe env (subscribe_request_of req) now s)

  unfoldable pub subscribe_parsed :
      Result HttpSubscribeRequest → ℤ → State env → Reply SubscribeResponse × State env
  unfolding write_error_response validate_http_subscribe subscribe_validated
  subscribe_parsed (err e) now s = (write_error_response 400 e "INVALID_REQUEST", s)
  subscribe_parsed (ok req) now s = subscribe_validated req (validate_http_subscribe req) now s

  unfoldable pub handle_create_subscription :
      Request HttpSubscribeRequest → ℤ → State env → Reply SubscribeResponse × State env
  unfolding parse_json_request subscribe_parsed
  handle_create_subscription r now s = subscribe_parsed (parse_json_request r) now s

  unfoldable pub handle_get_subscription : String → State env → Reply SubscriptionInfo × State env
  unfolding respond
  handle_get_subscription id s =
      respond "not found" "SUBSCRIPTION_NOT_FOUND" "GET_FAILED"
        "Subscription retrieved successfully" (λ r. r) (get_subscription env id s)

  unfoldable pub handle_delete_subscription : String → ℤ → State env → Reply (Unit {0}) × State env
  unfolding respond
  handle_delete_subscription id now s =
      respond "not found" "SUBSCRIPTION_NOT_FOUND" "DELETE_FAILED"
        "Subscription deleted successfully" (λ r. r) (unsubscribe env id now s)

  unfoldable pub pull_parsed :
      (List ℕ → String)
      → String
      → Result HttpPullRequest
      → ℤ
      → State env
      → Reply HttpPullResponse × State env
  unfolding write_error_response pull_request_of convert_pull_response respond
  pull_parsed encode topic (err e) now s = (write_error_response 400 e "INVALID_REQUEST", s)
  pull_parsed encode topic (ok req) now s =
      respond "topic not found" "TOPIC_NOT_FOUND" "PULL_FAILED" "Messages retrieved successfully"
        (convert_pull_response encode now) (pull env (pull_request_of topic req) now s)

  unfoldable pub handle_pull_messages :
      (List ℕ → String)
      → String
      → Request HttpPullRequest
      → ℤ
      → State env
      → Reply HttpPullResponse × State env
  unfolding parse_json_request pull_parsed
  handle_pull_messages encode topic r now s =
      if not (r.verb == "POST")
      then (method_not_allowed, s)
      else pull_parsed encode topic (parse_json_request r) now s

  unfoldable pub group_pull_parsed :
      (List ℕ → String)
      → String
      → Result HttpGroupPullRequest
      → ℤ
      → State env
      → Reply HttpPullResponse × State env
  unfolding write_error_response group_pull_request_of convert_pull_response respond
  group_pull_parsed encode group (err e) now s = (write_error_response 400 e "INVALID_REQUEST", s)
  group_pull_parsed encode group (ok req) now s =
      if req.consumer_id == ""
      then (missing_consumer, s)
      else respond "not found" "GROUP_NOT_FOUND" "PULL_FAILED" "Messages retrieved successfully"
          (convert_pull_response encode now)
          (pull_with_consumer_group env (group_pull_request_of group req) now s)

  unfoldable pub handle_consumer_group_pull :
      (List ℕ → String)
      → String
      → Request HttpGroupPullRequest
      → ℤ
      → State env
      → Reply HttpPullResponse × State env
  unfolding parse_json_request group_pull_parsed
  handle_consumer_group_pull encode group r now s =
      if not (r.verb == "POST")
      then (method_not_allowed, s)
      else group_pull_parsed encode group (parse_json_request r) now s

  unfoldable pub answer_join : Result JoinGroupResponse → Reply JoinGroupResponse
  unfolding write_error_response write_success_response
  answer_join (err e) = write_error_response 500 e "JOIN_FAILED"
  answer_join (ok r) = write_success_response r "Joined consumer group successfully"

  unfoldable pub join_parsed :
      String → Result HttpJoinGroupRequest → ℤ → State env → Reply JoinGroupResponse × State env
  unfolding write_error_response join_request_of answer_join
  join_parsed group (err e) now s = (write_error_response 400 e "INVALID_REQUEST", s)
  join_parsed group (ok req) now s =
      let r = join_consumer_group env (join_request_of group req) now s in
      if req.consumer_id == "" then (missing_consumer, s) else (answer_join r.0, r.1)

  unfoldable pub handle_join_consumer_group :
      String → Request HttpJoinGroupRequest → ℤ → State env → Reply JoinGroupResponse × State env
  unfolding parse_json_request join_parsed
  handle_join_consumer_group group r now s =
      if not (r.verb == "POST")
      then (method_not_allowed, s)
      else join_parsed group (parse_json_request r) now s

  -- The consumer's ID stands in the query.
  unfoldable pub handle_leave_consumer_group :
      (verb group consumer_id : String) → State env → Reply (Unit {0}) × State env
  unfolding respond
  handle_leave_consumer_group verb group consumer_id s =
      if not (verb == "POST")
      then (method_not_allowed, s)
      else if consumer_id == ""
      then (missing_consumer, s)
      else respond "not found" "CONSUMER_NOT_FOUND" "LEAVE_FAILED"
          "Left consumer group successfully" (λ r. r) (leave_consumer_group env group consumer_id s)

  unfoldable pub handle_list_topic_subscriptions :
      (verb topic : String) → State env → Reply (List SubscriptionInfo) × State env
  unfolding respond
  handle_list_topic_subscriptions verb topic s =
      if not (verb == "GET")
      then (method_not_allowed, s)
      else respond "topic not found" "TOPIC_NOT_FOUND" "LIST_FAILED"
          "Subscriptions retrieved successfully" (λ r. r) (list_subscriptions env topic s)
