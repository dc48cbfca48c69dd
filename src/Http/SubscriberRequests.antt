-- ===== src/Http/SubscriberRequests.antt =====
-- internal/adapters/api/http/subscriber.go: the requests about subscriptions and consumer groups, what
-- they are converted to, and what the service's messages are converted to. `encode` is
-- `base64.StdEncoding.EncodeToString`. Waiting times, and the deadline of a pull of a group, are left
-- out, since the service does not use them.
use pub_sub_go.Base.{
  ℕ, String, Bool, not, ◌&&◌, ◌||◌, Option, none, some, List, [], ◌∷◌, map, Dict, if◌then◌else◌,
  ◌==◌,
}
use pub_sub_go.Base.Int.{ℤ, pos, ltb_ℤ}
use pub_sub_go.Core.Message.{
  Message, Priority, low, normal, high, critical, DeliveryMode, at_most_once, at_least_once,
  exactly_once,
}
use pub_sub_go.Core.Subscription.{SubscriptionType, pull, push}
use pub_sub_go.Result.{Result, plain, ok, err}
use pub_sub_go.Subscriber.Types.{
  SubscribeRequest, PullRequest, PullResponse, ConsumerGroupPullRequest, JoinGroupRequest,
}
use pub_sub_go.Http.TopicRequests.{is_negative, zero_or, seconds}

pub record RetryPolicy : Type 0 where
  pub max_retries : ℤ
  pub backoff_factor : ℤ
  pub max_backoff : Option ℤ

pub record HttpSubscribeRequest : Type 0 where
  pub topic : String
  pub consumer_group : String
  pub delivery_mode : String
  pub max_messages : ℤ
  pub ack_deadline : Option ℤ
  pub retry_policy : Option RetryPolicy
  pub dead_letter_topic : String
  pub config : Dict String

pub record HttpPullRequest : Type 0 where
  pub max_messages : ℤ
  pub ack_deadline : Option ℤ

pub record HttpGroupPullRequest : Type 0 where
  pub consumer_group : String
  pub consumer_id : String
  pub max_messages : ℤ

pub record HttpJoinGroupRequest : Type 0 where
  pub consumer_group : String
  pub consumer_id : String
  pub config : Dict String

pub record MessageResponse : Type 0 where
  pub id : String
  pub topic : String
  pub partition : ℤ
  pub offset : ℤ
  pub key : String
  pub payload : String
  pub headers : Dict String
  pub priority : String
  pub delivery_mode : String
  pub consumer_group : String
  pub consumer_id : String
  pub created_at : ℤ
  pub delivered_at : Option ℤ
  pub expires_at : Option ℤ

pub record HttpPullResponse : Type 0 where
  pub messages : List MessageResponse
  pub has_more : Bool
  pub next_offset : Option ℤ
  pub received_at : ℤ

unfoldable pub format_priority : Priority → String
format_priority low = "low"
format_priority high = "high"
format_priority critical = "critical"
format_priority normal = "normal"

unfoldable pub format_delivery_mode : DeliveryMode → String
format_delivery_mode at_most_once = "at_most_once"
format_delivery_mode exactly_once = "exactly_once"
format_delivery_mode at_least_once = "at_least_once"

unfoldable pub convert_message : (encode : List ℕ → String) → Message → MessageResponse
unfolding format_priority format_delivery_mode
convert_message encode m = record {
  id = m.id;
  topic = m.topic;
  partition = m.partition;
  offset = m.offset;
  key = encode m.key;
  payload = encode m.payload;
  headers = m.headers;
  priority = format_priority m.priority;
  delivery_mode = format_delivery_mode m.delivery_mode;
  consumer_group = m.consumer_group;
  consumer_id = m.consumer_id;
  created_at = m.created_at;
  delivered_at = m.delivered_at;
  expires_at = m.expires_at;
}

unfoldable pub convert_pull_response :
    (encode : List ℕ → String) → ℤ → PullResponse → HttpPullResponse
unfolding convert_message
convert_pull_response encode now r = record {
  messages = map (convert_message encode) r.messages;
  has_more = r.has_more;
  next_offset = r.next_offset;
  received_at = now;
}

unfoldable pub parse_subscription_type : String → SubscriptionType
parse_subscription_type mode = if mode == "push" then push else pull

unfoldable pub validate_retry_policy : Option RetryPolicy → Result (Unit {0})
validate_retry_policy none = ok tt
validate_retry_policy (some p) =
    if ltb_ℤ p.max_retries (pos 0)
    then err (plain ("max retries must be non-negative" ∷ []))
    else if is_negative p.max_backoff
    then err (plain ("max backoff must be non-negative" ∷ []))
    else ok tt

unfoldable pub validate_http_subscribe : HttpSubscribeRequest → Result (Unit {0})
unfolding validate_retry_policy
validate_http_subscribe req =
    if req.topic == ""
    then err (plain ("topic is required" ∷ []))
    else if not (req.delivery_mode == "")
        && not (req.delivery_mode == "push" || req.delivery_mode == "pull")
    then err (plain ("invalid delivery mode" ∷ req.delivery_mode ∷ []))
    else if is_negative req.ack_deadline
    then err (plain ("ack deadline must be non-negative" ∷ []))
    else validate_retry_policy req.retry_policy

abbrev pub retries_of : Option RetryPolicy → ℤ
retries_of none = pos 0
retries_of (some p) = p.max_retries

unfoldable pub subscribe_request_of : HttpSubscribeRequest → SubscribeRequest
unfolding parse_subscription_type seconds
subscribe_request_of req = record {
  topic = req.topic;
  consumer_group = req.consumer_group;
  consumer_id = "";
  kind = parse_subscription_type req.delivery_mode;
  ack_deadline = zero_or (seconds req.ack_deadline);
  max_retries = retries_of req.retry_policy;
  dead_letter_topic = req.dead_letter_topic;
  filter = "";
  config = req.config;
}

unfoldable pub pull_request_of : String → HttpPullRequest → PullRequest
unfolding seconds
pull_request_of topic req = record {
  topic = topic;
  partition = none;
  offset = none;
  limit = req.max_messages;
  ack_deadline = zero_or (seconds req.ack_deadline);
}

-- As the source has it: the topic is what the body gives as the group.
unfoldable pub group_pull_request_of : String → HttpGroupPullRequest → ConsumerGroupPullRequest
group_pull_request_of group req = record {
  topic = req.consumer_group;
  consumer_group = group;
  consumer_id = req.consumer_id;
  limit = req.max_messages;
}

-- As the source has it: without a topic.
unfoldable pub join_request_of : String → HttpJoinGroupRequest → JoinGroupRequest
join_request_of group req = record {
  topic = "";
  consumer_group = group;
  consumer_id = req.consumer_id;
  metadata = req.config;
}
