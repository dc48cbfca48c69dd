-- ===== src/Websocket/Messages.antt =====
-- internal/adapters/api/websocket: every message of a client is handled with no panic, and the server
-- stays consistent.
use pub_sub_go.Base.{ℕ, refl, inl, inr, String, Bool, List, ◌==◌, Bool-cases}
use pub_sub_go.Base.Int.{ℤ}
use pub_sub_go.Result.{Result, ok, err}
use pub_sub_go.Publisher.Types.{PublishResponse}
use pub_sub_go.Websocket.Types.{
  WsEnv, WsMessage, PublishPayload, AckPayload, MessageType, subscribe_type, unsubscribe_type,
  publish_type, ack_type, ping_type, message_type, error_type, pong_type, subscribed_type,
  unsubscribed_type, published_type, other_type,
}
use pub_sub_go.Websocket.Session.{State}
use pub_sub_go.Websocket.Subscribing.{handle_subscribe, handle_unsubscribe}
use pub_sub_go.Websocket.Handlers.{
  published, publish_decoded, publish_parsed, handle_publish, acknowledged, ack_parsed, handle_ack,
  handle_ping, dispatch, message_parsed, handle_message,
}
use pub_sub_go.Websocket.Consistency.{changed-IsConsistent}
use pub_sub_go.Websocket.Answers.{
  IsOpen, IsKept, IsFine, changed-IsOpen, send-IsFine, send_error-IsFine, subscribe_parsed-IsFine,
  unsubscribe_parsed-IsFine,
}

module _ {V : Type 0} (env : WsEnv V) (seen : List String) where
  open env use {formats}
  open formats use {Raw}

  module _ (done_first : Bool) (now : ℤ) where
    published-IsFine :
        (id : String) (msg : WsMessage Raw) (w : State env) (r : Result PublishResponse)
        → IsOpen id w.hub
        → IsKept env seen w.hub
        → IsFine env seen (published env done_first now id msg w r)
    unfolding published
    published-IsFine id msg w (err e) = send_error-IsFine env seen done_first now id _ e w
    published-IsFine id msg w (ok r) = send-IsFine env seen done_first now id _ w

    publish_decoded-IsFine :
        (id : String) (msg : WsMessage Raw) (p : PublishPayload) (r : Result (List ℕ))
        (w : State env)
        → IsOpen id w.hub
        → IsKept env seen w.hub
        → IsFine env seen (publish_decoded env done_first now id msg p r w)
    unfolding publish_decoded
    publish_decoded-IsFine id msg p (err e) w open' kept =
        send_error-IsFine env seen done_first now id _ e w open' kept
    publish_decoded-IsFine id msg p (ok bytes) w open' kept = published-IsFine id msg _ _ open' kept

    publish_parsed-IsFine :
        (id : String) (msg : WsMessage Raw) (r : Result PublishPayload) (w : State env)
        → IsOpen id w.hub
        → IsKept env seen w.hub
        → IsFine env seen (publish_parsed env done_first now id msg r w)
    unfolding publish_parsed
    publish_parsed-IsFine id msg (err e) w open' kept =
        send_error-IsFine env seen done_first now id _ e w open' kept
    publish_parsed-IsFine id msg (ok p) w open' kept = elim (Bool-cases (msg.topic == "")) [
      | inl e ↦ rw e (send_error-IsFine env seen done_first now id _ _ w open' kept)
      | inr e ↦ elim (Bool-cases (p.payload == "")) [
        | inl e' ↦ rw (e, e') (send_error-IsFine env seen done_first now id _ _ w open' kept)
        | inr e' ↦ rw (e, e') (publish_decoded-IsFine id msg p _ w open' kept)
      ]
    ]

    acknowledged-IsFine :
        (id : String) (w : State env) (r : Result (Unit {0}))
        → IsOpen id w.hub
        → IsKept env seen w.hub
        → IsFine env seen (acknowledged env done_first now id w r)
    unfolding acknowledged
    acknowledged-IsFine id w (err e) open' kept =
        send_error-IsFine env seen done_first now id _ e w open' kept
    acknowledged-IsFine id w (ok u) open' kept = kept

    ack_parsed-IsFine :
        (id : String) (r : Result AckPayload) (w : State env)
        → IsOpen id w.hub
        → IsKept env seen w.hub
        → IsFine env seen (ack_parsed env done_first now id r w)
    unfolding ack_parsed
    ack_parsed-IsFine id (err e) w open' kept =
        send_error-IsFine env seen done_first now id _ e w open' kept
    ack_parsed-IsFine id (ok p) w open' kept = elim (Bool-cases (p.message_id == "")) [
      | inl e ↦ rw e (send_error-IsFine env seen done_first now id _ _ w open' kept)
      | inr e ↦ rw e (acknowledged-IsFine id _ _ open' kept)
    ]

    dispatch-IsFine :
        (id : String) (msg : WsMessage Raw) (kind : MessageType) (w : State env)
        → IsOpen id w.hub
        → IsKept env seen w.hub
        → IsFine env seen (dispatch env done_first now id msg kind w)
    unfolding dispatch handle_subscribe handle_unsubscribe handle_publish handle_ack handle_ping
    dispatch-IsFine id msg subscribe_type w =
        subscribe_parsed-IsFine env seen done_first now id msg (formats.parse_subscribe msg.payload)
          w
    dispatch-IsFine id msg unsubscribe_type w =
        unsubscribe_parsed-IsFine env seen done_first now id msg
          (formats.parse_unsubscribe msg.payload) w
    dispatch-IsFine id msg publish_type w =
        publish_parsed-IsFine id msg (formats.parse_publish msg.payload) w
    dispatch-IsFine id msg ack_type w = ack_parsed-IsFine id (formats.parse_ack msg.payload) w
    dispatch-IsFine id msg ping_type w = send-IsFine env seen done_first now id _ w
    dispatch-IsFine id msg message_type w = send_error-IsFine env seen done_first now id _ _ w
    dispatch-IsFine id msg error_type w = send_error-IsFine env seen done_first now id _ _ w
    dispatch-IsFine id msg pong_type w = send_error-IsFine env seen done_first now id _ _ w
    dispatch-IsFine id msg subscribed_type w = send_error-IsFine env seen done_first now id _ _ w
    dispatch-IsFine id msg unsubscribed_type w = send_error-IsFine env seen done_first now id _ _ w
    dispatch-IsFine id msg published_type w = send_error-IsFine env seen done_first now id _ _ w
    dispatch-IsFine id msg (other_type name) w = send_error-IsFine env seen done_first now id _ _ w

    message_parsed-IsFine :
        (id : String) (r : Result (WsMessage Raw)) (w : State env)
        → IsOpen id w.hub
        → IsKept env seen w.hub
        → IsFine env seen (message_parsed env done_first now id r w)
    unfolding message_parsed
    message_parsed-IsFine id (err e) w open' kept =
        send_error-IsFine env seen done_first now id _ e w open' kept
    message_parsed-IsFine id (ok msg) w open' kept =
        dispatch-IsFine id msg msg.kind _ (changed-IsOpen id _ w.hub (λ c. refl) open') (
          changed-IsConsistent seen w.hub id (λ c. record c { last_ping_at = now })
            (λ c e sound. sound) (λ c. refl) kept)

    -- A message of a client on a connection whose context is not done is answered with no panic, and
    -- the server is consistent afterwards.
    pub handle_message-IsFine :
        (id : String) (bytes : List ℕ) (w : State env)
        → IsOpen id w.hub
        → IsKept env seen w.hub
        → IsFine env seen (handle_message env done_first now id bytes w)
    unfolding handle_message
    handle_message-IsFine id bytes w = message_parsed-IsFine id (formats.parse_message bytes) w
