-- ===== src/Websocket/Handlers.antt =====
-- internal/adapters/api/websocket/handlers.go and connection.go: what the server does with a message
-- of a client, over the services of internal/services/publisher and internal/services/subscriber.
use pub_sub_go.Base.{ℕ, String, Bool, Option, none, some, List, [], ◌∷◌, if◌then◌else◌, ◌==◌}
use pub_sub_go.Base.Int.{ℤ}
use pub_sub_go.Core.Message.{Priority, low, normal, high, critical, at_least_once}
use pub_sub_go.Result.{Result, plain, ok, err}
use pub_sub_go.Publisher.Types.{PublishRequest, PublishResponse}
use pub_sub_go.Publisher.Service.{publish}
use pub_sub_go.Subscriber.Answers.{acknowledge}
use pub_sub_go.Websocket.Types.{
  WsMessage, WsEnv, PublishPayload, AckPayload, MessageType, subscribe_type, unsubscribe_type,
  publish_type, ack_type, ping_type, pong_type, published_type, no_body, published_body,
}
use pub_sub_go.Websocket.Hub.{changed}
use pub_sub_go.Websocket.Session.{State, message_to, send, send_error}
use pub_sub_go.Websocket.Subscribing.{handle_subscribe, handle_unsubscribe}

unfoldable pub parse_priority : String → Priority
parse_priority name =
    if name == "low"
    then low
    else if name == "high"
    then high
    else if name == "critical"
    then critical
    else normal

module _ {V : Type 0} (env : WsEnv V) (done_first : Bool) (now : ℤ) where
  open env use {subscriber_env, codecs, message_uuid, formats}
  open formats use {Raw}

  -- The publisher service works on the storage of the subscriber service.
  abbrev pub publish_in : PublishRequest → State env → Result PublishResponse × State env
  publish_in req w =
      let r =
        publish
          (record {
            message_repo = subscriber_env.message_repo;
            topic_repo = subscriber_env.topic_repo;
            uuid = message_uuid;
            text_bytes = subscriber_env.text_bytes;
            codecs = codecs;
            config = subscriber_env.config;
          })
          req now
          (record {
            messages = w.service.messages;
            topics = w.service.topics;
            drawn = w.message_drawn;
          }) in
      (
        r.0,
        record w {
          service = record w.service { messages = r.1.messages; topics = r.1.topics };
          message_drawn = r.1.drawn;
        },
      )

  unfoldable pub published :
      String → WsMessage Raw → State env → Result PublishResponse → Option (State env)
  unfolding send_error
  published id msg w (err e) = send_error env done_first now id "Publish failed" e w
  published id msg w (ok r) =
      send env done_first now id (message_to published_type msg msg.topic (published_body r) now) w

  unfoldable pub publish_decoded :
      String → WsMessage Raw → PublishPayload → Result (List ℕ) → State env → Option (State env)
  unfolding send_error parse_priority published
  publish_decoded id msg p (err e) w = send_error env done_first now id "Invalid base64 payload" e w
  publish_decoded id msg p (ok bytes) w =
      let r =
        publish_in
          (record {
            topic = msg.topic;
            key = subscriber_env.text_bytes p.key;
            payload = bytes;
            headers = p.headers;
            priority = parse_priority p.priority;
            delivery_mode = at_least_once;
            ttl = none;
            partition = none;
          })
          w in
      published id msg r.1 r.0

  unfoldable pub publish_parsed :
      String → WsMessage Raw → Result PublishPayload → State env → Option (State env)
  unfolding send_error publish_decoded
  publish_parsed id msg (err e) w = send_error env done_first now id "Invalid publish payload" e w
  publish_parsed id msg (ok p) w =
      if msg.topic == ""
      then send_error env done_first now id "Topic is required for publishing"
          (plain ("empty topic" ∷ [])) w
      else if p.payload == ""
      then send_error env done_first now id "Message payload is required"
          (plain ("empty payload" ∷ [])) w
      else publish_decoded id msg p (formats.decode p.payload) w

  unfoldable pub handle_publish : String → WsMessage Raw → State env → Option (State env)
  unfolding publish_parsed
  handle_publish id msg w = publish_parsed id msg (formats.parse_publish msg.payload) w

  -- An acknowledgment has no answer unless it fails.
  unfoldable pub acknowledged : String → State env → Result (Unit {0}) → Option (State env)
  unfolding send_error
  acknowledged id w (err e) = send_error env done_first now id "Acknowledgment failed" e w
  acknowledged id w (ok _) = some w

  unfoldable pub ack_parsed : String → Result AckPayload → State env → Option (State env)
  unfolding send_error acknowledged
  ack_parsed id (err e) w = send_error env done_first now id "Invalid ack payload" e w
  ack_parsed id (ok p) w =
      let r =
        acknowledge subscriber_env
          (record {
            message_id = p.message_id;
            consumer_id = id;
            consumer_group = p.consumer_group;
          })
          now w.service in
      if p.message_id == ""
      then send_error env done_first now id "Message ID is required for acknowledgment"
          (plain ("empty message_id" ∷ [])) w
      else acknowledged id (record w { service = r.1 }) r.0

  unfoldable pub handle_ack : String → WsMessage Raw → State env → Option (State env)
  unfolding ack_parsed
  handle_ack id msg w = ack_parsed id (formats.parse_ack msg.payload) w

  unfoldable pub handle_ping : String → WsMessage Raw → State env → Option (State env)
  handle_ping id msg w = send env done_first now id (message_to pong_type msg "" no_body now) w

  unfoldable pub dispatch : String → WsMessage Raw → MessageType → State env → Option (State env)
  unfolding handle_subscribe handle_unsubscribe handle_publish handle_ack handle_ping send_error
  dispatch id msg subscribe_type w = handle_subscribe env done_first now id msg w
  dispatch id msg unsubscribe_type w = handle_unsubscribe env done_first now id msg w
  dispatch id msg publish_type w = handle_publish id msg w
  dispatch id msg ack_type w = handle_ack id msg w
  dispatch id msg ping_type w = handle_ping id msg w
  dispatch id msg kind w =
      send_error env done_first now id "Unknown message type"
        (plain ("unsupported message type" ∷ [])) w

  -- A message that is read counts as activity.
  unfoldable pub message_parsed : String → Result (WsMessage Raw) → State env → Option (State env)
  unfolding send_error dispatch
  message_parsed id (err e) w = send_error env done_first now id "Invalid message format" e w
  message_parsed id (ok msg) w =
      dispatch id msg msg.kind
        (record w { hub = changed id (λ c. record c { last_ping_at = now }) w.hub })

  unfoldable pub handle_message : String → List ℕ → State env → Option (State env)
  unfolding message_parsed
  handle_message id bytes w = message_parsed id (formats.parse_message bytes) w
