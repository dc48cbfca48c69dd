-- ===== src/Websocket/Subscribing.antt =====
-- internal/adapters/api/websocket/handlers.go: `handleSubscribe` and `handleUnsubscribe`, over the
-- service of internal/services/subscriber.
use pub_sub_go.Base.{
  ℕ, String, Bool, Option, none, some, [], ◌∷◌, if◌then◌else◌, get_elem?, lookup, ◌==◌,
}
use pub_sub_go.Base.Int.{ℤ, pos}
use pub_sub_go.Core.Subscription.{push}
use pub_sub_go.Result.{Result, plain, ok, err}
use pub_sub_go.Subscriber.Types.{SubscribeRequest, SubscribeResponse}
use pub_sub_go.Subscriber.Subscriptions.{subscribe, unsubscribe}
use pub_sub_go.Websocket.Types.{
  WsMessage, WsEnv, Subscription, SubscribePayload, subscribed_type, unsubscribed_type,
  subscribed_body, unsubscribed_body,
}
use pub_sub_go.Websocket.Hub.{own_place, add_subscription, drop_subscription}
use pub_sub_go.Websocket.Session.{State, message_to, send, send_error}

unfoldable pub subscribe_request_of : SubscribePayload → SubscribeRequest
subscribe_request_of p = record {
  topic = p.topic;
  consumer_group = p.consumer_group;
  consumer_id = "";
  kind = push;
  ack_deadline = pos 0;
  max_retries = pos 0;
  dead_letter_topic = "";
  filter = p.filter;
  config = [];
}

unfoldable pub new_subscription : String → SubscribePayload → String → ℤ → Subscription
new_subscription subscription_id p connection_id now = record {
  id = subscription_id;
  connection_id = connection_id;
  topic = p.topic;
  consumer_group = p.consumer_group;
  filter = p.filter;
  created_at = now;
  message_count = pos 0;
  last_message = none;
}

module _ {V : Type 0} (env : WsEnv V) (done_first : Bool) (now : ℤ) where
  open env use {subscriber_env, codecs, message_uuid, formats}
  open formats use {Raw}

  -- After `Subscribe`.
  unfoldable pub subscribed :
      String
      → WsMessage Raw
      → SubscribePayload
      → State env
      → Result SubscribeResponse
      → Option (State env)
  unfolding send_error new_subscription add_subscription
  subscribed id msg p w (err e) = send_error env done_first now id "Subscription failed" e w
  subscribed id msg p w (ok r) =
      send env done_first now id
        (message_to subscribed_type msg p.topic
          (subscribed_body r.subscription_id p.topic p.consumer_group) now)
        (record w {
          hub = add_subscription id p.topic (new_subscription r.subscription_id p id now) w.hub;
        })

  unfoldable pub subscribe_new :
      String → WsMessage Raw → SubscribePayload → Option ℕ → State env → Option (State env)
  unfolding send_error subscribe_request_of subscribed
  subscribe_new id msg p (some place) w =
      send_error env done_first now id "Already subscribed to topic"
        (plain ("topic: " ∷ p.topic ∷ [])) w
  subscribe_new id msg p none w =
      let r = subscribe subscriber_env (subscribe_request_of p) now w.service in
      subscribed id msg p (record w { service = r.1 }) r.0

  unfoldable pub subscribe_parsed :
      String → WsMessage Raw → Result SubscribePayload → State env → Option (State env)
  unfolding send_error subscribe_new
  subscribe_parsed id msg (err e) w =
      send_error env done_first now id "Invalid subscribe payload" e w
  subscribe_parsed id msg (ok p) w =
      if p.topic == ""
      then send_error env done_first now id "Topic is required for subscription"
          (plain ("empty topic" ∷ [])) w
      else subscribe_new id msg p (own_place p.topic (lookup id w.hub.connections)) w

  unfoldable pub handle_subscribe : String → WsMessage Raw → State env → Option (State env)
  unfolding subscribe_parsed
  handle_subscribe id msg w = subscribe_parsed id msg (formats.parse_subscribe msg.payload) w

  -- An error of `Unsubscribe` is logged. A pointer to nothing would be a panic.
  unfoldable pub unsubscribe_found :
      String → WsMessage Raw → String → Option Subscription → State env → Option (State env)
  unfolding drop_subscription
  unsubscribe_found id msg topic none w = none
  unsubscribe_found id msg topic (some sub) w =
      send env done_first now id
        (message_to unsubscribed_type msg topic (unsubscribed_body topic) now)
        (record w {
          service = (unsubscribe subscriber_env sub.id now w.service).1;
          hub = drop_subscription id topic w.hub;
        })

  unfoldable pub unsubscribe_held :
      String → WsMessage Raw → String → Option ℕ → State env → Option (State env)
  unfolding send_error unsubscribe_found
  unsubscribe_held id msg topic none w =
      send_error env done_first now id "Not subscribed to topic" (plain ("topic: " ∷ topic ∷ [])) w
  unsubscribe_held id msg topic (some place) w =
      unsubscribe_found id msg topic (get_elem? w.hub.heap place) w

  unfoldable pub unsubscribe_parsed :
      String → WsMessage Raw → Result String → State env → Option (State env)
  unfolding send_error unsubscribe_held
  unsubscribe_parsed id msg (err e) w =
      send_error env done_first now id "Invalid unsubscribe payload" e w
  unsubscribe_parsed id msg (ok topic) w =
      if topic == ""
      then send_error env done_first now id "Topic is required for unsubscription"
          (plain ("empty topic" ∷ [])) w
      else unsubscribe_held id msg topic (own_place topic (lookup id w.hub.connections)) w

  unfoldable pub handle_unsubscribe : String → WsMessage Raw → State env → Option (State env)
  unfolding unsubscribe_parsed
  handle_unsubscribe id msg w = unsubscribe_parsed id msg (formats.parse_unsubscribe msg.payload) w
