-- ===== src/Websocket/Delivery.antt =====
-- internal/adapters/api/websocket/handlers.go: `DeliverMessage`, which nothing in the program calls.
use pub_sub_go.Base.{ℕ, String, Bool, Option, none, some, List, lookup, get_elem?, set}
use pub_sub_go.Base.Int.{ℤ}
use pub_sub_go.Base.Words.{inc64}
use pub_sub_go.Core.Message.{
  Message, Priority, low, normal, high, critical, DeliveryMode, at_most_once, at_least_once,
  exactly_once,
}
use pub_sub_go.Websocket.Types.{Subscription, MessagePayload, Hub, message_type, message_body}
use pub_sub_go.Websocket.Hub.{own_place, reply}

unfoldable pub format_priority : Priority → String
format_priority low = "low"
format_priority high = "high"
format_priority critical = "critical"
format_priority normal = "normal"

unfoldable pub format_delivery_mode : DeliveryMode → String
format_delivery_mode at_most_once = "at_most_once"
format_delivery_mode exactly_once = "exactly_once"
format_delivery_mode at_least_once = "at_least_once"

abbrev pub counted : ℤ → Subscription → Subscription
counted now sub = record sub { message_count = inc64 sub.message_count; last_message = some now }

abbrev pub count_at : ℤ → ℕ → List Subscription → Option Subscription → List Subscription
count_at now place heap none = heap
count_at now place heap (some sub) = set heap place (counted now sub)

-- The subscription in the heap, which both maps see.
unfoldable pub count_delivery : ℤ → Option ℕ → List Subscription → List Subscription
count_delivery now none heap = heap
count_delivery now (some place) heap = count_at now place heap (get_elem? heap place)

unfoldable pub message_payload_of : (encode : List ℕ → String) → Message → MessagePayload
unfolding format_priority format_delivery_mode
message_payload_of encode m = record {
  id = m.id;
  key = encode m.key;
  payload = encode m.payload;
  headers = m.headers;
  priority = format_priority m.priority;
  delivery_mode = format_delivery_mode m.delivery_mode;
  topic = m.topic;
  partition = m.partition;
  offset = m.offset;
  consumer_group = m.consumer_group;
  created_at = m.created_at;
  expires_at = m.expires_at;
}

-- `uuid` is the identifier that is drawn.
unfoldable pub deliver_message :
    (encode : List ℕ → String) → Bool → (uuid id : String) → Message → ℤ → Hub → Option Hub
unfolding count_delivery message_payload_of
deliver_message encode done_first uuid id m now h =
    reply done_first id
      (record {
        kind = message_type;
        id = uuid;
        topic = m.topic;
        payload = message_body (message_payload_of encode m);
        timestamp = now;
        error = none;
      })
      (record h { heap = count_delivery now (own_place m.topic (lookup id h.connections)) h.heap })
