-- ===== src/Http/TopicCalls.antt =====
-- internal/adapters/api/http/topic.go: the handlers, over the service of internal/services/topic.
-- `mentions e text` is `strings.Contains(err.Error(), text)`.
use pub_sub_go.Base.{ℕ, String, Bool, not, ◌||◌, List, if◌then◌else◌, ◌==◌}
use pub_sub_go.Base.Int.{ℤ, pos}
use pub_sub_go.Result.{Result, Error, ok, err}
use pub_sub_go.Partitions.Rebalance.{RebalanceResult}
use pub_sub_go.Topics.Types.{
  CreateTopicResponse, TopicInfo, TopicStats, TopicHealth, ListTopicsResponse, PartitionInfo, Env,
}
use pub_sub_go.Topics.Service.{
  State, create_topic, list_topics, get_topic, update_topic, delete_topic, get_topic_stats,
  get_topic_health, get_partitions, rebalance,
}
use pub_sub_go.Http.Paths.{Texts, parse_query_int, parse_query_string}
use pub_sub_go.Http.Replies.{
  Request, Reply, method_not_allowed, parse_json_request, write_error_response,
  write_success_response,
}
use pub_sub_go.Http.TopicRequests.{
  HttpCreateTopicRequest, HttpUpdateTopicRequest, validate_http_create_topic, create_request_of,
  update_request_of,
}

-- The reply to a result, with what is written for an error.
unfoldable pub answer : {A : Type 0} → (Error → Reply A) → String → Result A → Reply A
unfolding write_success_response
answer refuse note (err e) = refuse e
answer refuse note (ok a) = write_success_response a note

module _ {V : Type 0} (env : Env V) (mentions : Error → String → Bool) where
  open env use {floats}
  open floats use {Float}

  -- 404 for what is not found, and 500 with a code for all else.
  unfoldable pub missing_or : {A : Type 0} → String → Error → Reply A
  unfolding write_error_response
  missing_or code e =
      if mentions e "not found"
      then write_error_response 404 e "TOPIC_NOT_FOUND"
      else write_error_response 500 e code

  abbrev pub answered :
      {A : Type 0} → (Result A → Reply A) → Result A × State env → Reply A × State env
  answered f r = (f r.0, r.1)

  unfoldable pub refuse_create : {A : Type 0} → Error → Reply A
  unfolding write_error_response
  refuse_create e =
      if mentions e "already exists"
      then write_error_response 409 e "TOPIC_EXISTS"
      else write_error_response 500 e "CREATE_FAILED"

  unfoldable pub create_validated :
      HttpCreateTopicRequest V
      → Result (Unit {0})
      → ℤ
      → State env
      → Reply CreateTopicResponse × State env
  unfolding write_error_response create_request_of answer refuse_create
  create_validated req (err e) now s = (write_error_response 400 e "VALIDATION_ERROR", s)
  create_validated req (ok _) now s =
      answered (answer refuse_create "Topic created successfully")
        (create_topic env (create_request_of req) now s)

  unfoldable pub create_parsed :
      (String → ℕ)
      → (String → List ℕ)
      → Result (HttpCreateTopicRequest V)
      → ℤ
      → State env
      → Reply CreateTopicResponse × State env
  unfolding write_error_response validate_http_create_topic create_validated
  create_parsed bytes runes (err e) now s = (write_error_response 400 e "INVALID_REQUEST", s)
  create_parsed bytes runes (ok req) now s =
      create_validated req (validate_http_create_topic bytes runes req) now s

  unfoldable pub handle_create_topic :
      (String → ℕ)
      → (String → List ℕ)
      → Request (HttpCreateTopicRequest V)
      → ℤ
      → State env
      → Reply CreateTopicResponse × State env
  unfolding parse_json_request create_parsed
  handle_create_topic bytes runes r now s = create_parsed bytes runes (parse_json_request r) now s

  -- `query` is what the query has under a key, the empty text when it has nothing.
  unfoldable pub handle_list_topics :
      Texts → (query : String → String) → State env → Reply (ListTopicsResponse V Float) × State env
  unfolding parse_query_int parse_query_string answer write_error_response
  handle_list_topics texts query s =
      answered
        (answer (λ e. write_error_response 500 e "LIST_FAILED") "Topics retrieved successfully")
        (list_topics env
          (record {
            offset = parse_query_int texts (query "offset") (pos 0);
            limit = parse_query_int texts (query "limit") (pos 50);
            filter = parse_query_string texts (query "filter") "";
          })
          s)

  unfoldable pub handle_get_topic : String → ℤ → State env → Reply (TopicInfo V Float) × State env
  unfolding answer missing_or
  handle_get_topic name now s =
      answered (answer (missing_or "GET_FAILED") "Topic retrieved successfully")
        (get_topic env name now s)

  unfoldable pub refuse_update : {A : Type 0} → Error → Reply A
  unfolding write_error_response
  refuse_update e =
      if mentions e "not found"
      then write_error_response 404 e "TOPIC_NOT_FOUND"
      else if mentions e "no updates"
      then write_error_response 400 e "NO_UPDATES"
      else write_error_response 500 e "UPDATE_FAILED"

  unfoldable pub update_parsed :
      String
      → Result (HttpUpdateTopicRequest V)
      → ℤ
      → State env
      → Reply (TopicInfo V Float) × State env
  unfolding write_error_response update_request_of answer refuse_update
  update_parsed name (err e) now s = (write_error_response 400 e "INVALID_REQUEST", s)
  update_parsed name (ok req) now s =
      answered (answer refuse_update "Topic updated successfully")
        (update_topic env name (update_request_of req) now s)

  unfoldable pub handle_update_topic :
      String
      → Request (HttpUpdateTopicRequest V)
      → ℤ
      → State env
      → Reply (TopicInfo V Float) × State env
  unfolding parse_json_request update_parsed
  handle_update_topic name r now s = update_parsed name (parse_json_request r) now s

  unfoldable pub refuse_delete : {A : Type 0} → Error → Reply A
  unfolding write_error_response
  refuse_delete e =
      if mentions e "not found" || mentions e "does not exist"
      then write_error_response 404 e "TOPIC_NOT_FOUND"
      else write_error_response 500 e "DELETE_FAILED"

  unfoldable pub handle_delete_topic : String → State env → Reply (Unit {0}) × State env
  unfolding answer refuse_delete
  handle_delete_topic name s =
      answered (answer refuse_delete "Topic deleted successfully") (delete_topic env name s)

  unfoldable pub handle_get_topic_stats :
      (verb name : String) → ℤ → State env → Reply (TopicStats Float) × State env
  unfolding answer missing_or
  handle_get_topic_stats verb name now s =
      if not (verb == "GET")
      then (method_not_allowed, s)
      else answered (answer (missing_or "STATS_FAILED") "Topic statistics retrieved successfully")
          (get_topic_stats env name now s)

  unfoldable pub handle_get_topic_health :
      (verb name : String) → ℤ → State env → Reply TopicHealth × State env
  unfolding answer missing_or
  handle_get_topic_health verb name now s =
      if not (verb == "GET")
      then (method_not_allowed, s)
      else answered (answer (missing_or "HEALTH_FAILED") "Topic health retrieved successfully")
          (get_topic_health env name now s)

  unfoldable pub handle_get_partition_info :
      (verb name : String) → State env → Reply (PartitionInfo Float) × State env
  unfolding answer missing_or
  handle_get_partition_info verb name s = if not (verb == "GET") then (method_not_allowed, s) else (
    answer (missing_or "PARTITION_INFO_FAILED") "Partition information retrieved successfully"
        (get_partitions env name s),
    s,
  )

  unfoldable pub refuse_rebalance : {A : Type 0} → Error → Reply A
  unfolding write_error_response
  refuse_rebalance e =
      if mentions e "not found"
      then write_error_response 404 e "TOPIC_NOT_FOUND"
      else if mentions e "already in progress"
      then write_error_response 409 e "REBALANCE_IN_PROGRESS"
      else write_error_response 500 e "REBALANCE_FAILED"

  -- The instants are the start and the end of the rebalance.
  unfoldable pub handle_rebalance_partitions :
      (verb name : String) (now done : ℤ) → State env → Reply RebalanceResult × State env
  unfolding answer refuse_rebalance
  handle_rebalance_partitions verb name now done s =
      if not (verb == "POST")
      then (method_not_allowed, s)
      else answered (answer refuse_rebalance "Partition rebalancing initiated successfully")
          (rebalance env name now done s)
