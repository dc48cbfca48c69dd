-- ===== src/Http/PublishRequests.antt =====
-- internal/adapters/api/http/publisher.go: the requests and responses of publishing, what they are
-- validated by and converted to, and how a path is routed.
use pub_sub_go.Base.{
  ℕ, ◌+◌, String, Bool, not, ◌||◌, ◌&&◌, Option, none, some, List, [], ◌∷◌, ◌++◌, Dict,
  if◌then◌else◌, ◌==◌,
}
use pub_sub_go.Base.Int.{ℤ, pos, ◌*ℤ◌, ltb_ℤ}
use pub_sub_go.Base.Words.{int64}
use pub_sub_go.Core.Message.{
  Priority, low, normal, high, critical, DeliveryMode, at_most_once, at_least_once, exactly_once,
}
use pub_sub_go.Result.{Result, Error, plain, ok, err}
use pub_sub_go.Publisher.Types.{PublishResponse, MessageBatch}

pub record HttpPublishRequest : Type 0 where
  pub key : String
  pub payload : String
  pub headers : Dict String
  pub priority : String
  pub delivery_mode : String
  pub ttl : Option ℤ

pub record HttpBatchPublishRequest : Type 0 where
  pub messages : List HttpPublishRequest

pub record HttpPublishResponse : Type 0 where
  pub message_id : String
  pub topic : String
  pub partition : ℤ
  pub offset : ℤ
  pub timestamp : ℤ

-- The text of a failure: an error, or one behind the number of a message.
pub data FailureText : Type 0 where
  of_error : Error → FailureText
  of_numbered : ℕ × Error → FailureText

pub record FailedMessage : Type 0 where
  pub index : ℕ
  pub error : String
  pub message : FailureText

pub record HttpBatchPublishResponse : Type 0 where
  pub messages : List HttpPublishResponse
  pub failed : List FailedMessage

unfoldable pub parse_priority : String → Priority
parse_priority name =
    if name == "low"
    then low
    else if name == "high"
    then high
    else if name == "critical"
    then critical
    else normal

unfoldable pub parse_delivery_mode : String → DeliveryMode
parse_delivery_mode name =
    if name == "at_most_once"
    then at_most_once
    else if name == "exactly_once"
    then exactly_once
    else at_least_once

abbrev pub is_priority_name : String → Bool
is_priority_name name = name == "low" || name == "normal" || name == "high" || name == "critical"

abbrev pub is_mode_name : String → Bool
is_mode_name name = name == "at_most_once" || name == "at_least_once" || name == "exactly_once"

unfoldable pub validate_ttl : Option ℤ → Result (Unit {0})
validate_ttl none = ok tt
validate_ttl (some n) =
    if ltb_ℤ n (pos 0) then err (plain ("TTL must be non-negative" ∷ [])) else ok tt

-- What follows the test of the payload.
unfoldable pub validate_fields : HttpPublishRequest → Result (List ℕ) → Result (Unit {0})
unfolding validate_ttl
validate_fields req (err e) = err (plain ("payload must be base64 encoded" ∷ []))
validate_fields req (ok payload) =
    if not (req.priority == "") && not (is_priority_name req.priority)
    then err (plain ("invalid priority" ∷ req.priority ∷ []))
    else if not (req.delivery_mode == "") && not (is_mode_name req.delivery_mode)
    then err (plain ("invalid delivery mode" ∷ req.delivery_mode ∷ []))
    else validate_ttl req.ttl

-- Seconds as a duration.
unfoldable pub ttl_of : Option ℤ → Option ℤ
ttl_of none = none
ttl_of (some n) = some (int64 (n *ℤ pos 1000000000))

unfoldable pub convert_response : PublishResponse → HttpPublishResponse
convert_response r = record {
  message_id = r.message_id;
  topic = r.topic;
  partition = r.partition;
  offset = r.offset;
  timestamp = r.timestamp;
}

-- The two lists that the conversion of a batch fills.
pub record Conversion : Type 0 where
  pub messages : List MessageBatch
  pub failed : List FailedMessage

abbrev pub with_failure : ℕ → String → Error → Conversion → Conversion
with_failure i code e c = record c {
  failed = c.failed ++ record { index = i; error = code; message = of_error e } ∷ [];
}

-- An entry for each error of the service, with its place among the errors. No text is empty.
unfoldable pub publish_failures : ℕ → List (ℕ × Error) → List FailedMessage
publish_failures i [] = []
publish_failures i (e ∷ es) =
    record { index = i; error = "PUBLISH_FAILED"; message = of_numbered e }
    ∷ publish_failures (i + 1) es

-- What the path after `/v1/publish/`, split at "/", is routed to.
pub data Route : Type 0 where
  to_publish to_batch : String → Route
  missing_topic not_found : Route

unfoldable pub route : List String → Route
route [] = missing_topic
route (topic ∷ []) = if topic == "" then missing_topic else to_publish topic
route (topic ∷ part ∷ parts) =
    if topic == "" then missing_topic else if part == "batch" then to_batch topic else not_found
