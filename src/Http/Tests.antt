-- ===== src/Http/Tests.antt =====
-- The handlers at concrete requests, over stores in memory.
use pub_sub_go.Base.{ℕ, ◌≡◌, refl, String, Bool, false, none, List, [], ◌∷◌, arith}
use pub_sub_go.Base.Int.{pos}
use pub_sub_go.Result.{Result, Error, ok}
use pub_sub_go.Publisher.Batch.{publish_batch}
use pub_sub_go.Publisher.Samples.{env_with, stores}
use pub_sub_go.Http.Replies.{Request, status_of, parse_json_request}
use pub_sub_go.Http.PublishRequests.{HttpPublishRequest, HttpBatchPublishRequest}
use pub_sub_go.Http.Publishing.{
  convert_all, answer_batch, publish_converted, batch_parsed, handle_batch_publish,
}
use pub_sub_go.Http.Accounts.{
  IsAnswered, handle_batch_publish-IsAnswered, handle_batch_publish-unchanged,
}
use pub_sub_go.Subscriber.Samples.{env, service}
use pub_sub_go.Http.SubscriberRequests.{HttpGroupPullRequest, HttpJoinGroupRequest}
use pub_sub_go.Http.SubscriberCalls.{handle_join_consumer_group, handle_consumer_group_pull}
use pub_sub_go.Http.Groups.{
  IsRefused, handle_join_consumer_group-IsRefused, handle_consumer_group_pull-IsRefused,
}

abbrev item : String → HttpPublishRequest
item payload = record {
  key = "k";
  payload = payload;
  headers = [];
  priority = "high";
  delivery_mode = "";
  ttl = none;
}

abbrev two_bytes : String → Result (List ℕ)
two_bytes s = ok (1 ∷ 2 ∷ [])

-- The second message has no payload.
abbrev body : HttpBatchPublishRequest
body = record { messages = item "AQI=" ∷ item "" ∷ [] }

abbrev json : {B : Type 0} → B → Request B
json b = record { verb = "POST"; content_type = "application/json"; body = ok b }

abbrev empty_body : HttpBatchPublishRequest
empty_body = record { messages = item "" ∷ [] }

partial_status :
    status_of
      (handle_batch_publish (env_with "none") two_bytes "orders" (json body) (pos 5) stores).0
    ≡ 206
unfolding handle_batch_publish parse_json_request batch_parsed convert_all publish_converted
    answer_batch publish_batch
partial_status = refl

handle_batch_publish-IsAnswered_example :
    IsAnswered 2
      (handle_batch_publish (env_with "none") two_bytes "orders" (json body) (pos 5) stores).0
handle_batch_publish-IsAnswered_example =
    handle_batch_publish-IsAnswered (env_with "none") two_bytes "orders" body (pos 5) stores
      (omega arith) (omega arith)

handle_batch_publish-unchanged_example :
    (handle_batch_publish (env_with "none") two_bytes "orders" (json empty_body) (pos 5) stores).1
    ≡ stores
unfolding handle_batch_publish parse_json_request batch_parsed convert_all publish_converted
handle_batch_publish-unchanged_example =
    handle_batch_publish-unchanged (env_with "none") two_bytes "orders" (json empty_body) (pos 5)
      stores refl

abbrev group_body : HttpGroupPullRequest
group_body = record { consumer_group = ""; consumer_id = "c"; max_messages = pos 10 }

abbrev join_body : HttpJoinGroupRequest
join_body = record { consumer_group = "g"; consumer_id = "c"; config = [] }

abbrev never : Error → String → Bool
never e text = false

handle_join_consumer_group-IsRefused_example :
    IsRefused service (handle_join_consumer_group env never "g" (json join_body) (pos 5) service)
handle_join_consumer_group-IsRefused_example =
    handle_join_consumer_group-IsRefused env never "g" (json join_body) (pos 5) service

handle_consumer_group_pull-IsRefused_example :
    IsRefused service
      (handle_consumer_group_pull env never (λ bytes. "") "g" (json group_body) (pos 5) service)
handle_consumer_group_pull-IsRefused_example =
    handle_consumer_group_pull-IsRefused env never (λ bytes. "") "g" group_body (pos 5) service refl
