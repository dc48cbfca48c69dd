-- ===== src/Websocket/Session.antt =====
-- internal/adapters/api/websocket/connection.go: the messages that answer a client.
use pub_sub_go.Base.{String, Bool, Option, none, some}
use pub_sub_go.Base.Int.{ℤ}
use pub_sub_go.Result.{Error}
use pub_sub_go.Subscriber.Pull
use pub_sub_go.Websocket.Types.{
  WsMessage, WsEnv, World, Hub, Outgoing, Body, MessageType, error_type, no_body,
}
use pub_sub_go.Websocket.Hub.{reply}

abbrev pub message_to : {P : Type 0} → MessageType → WsMessage P → String → Body → ℤ → Outgoing
message_to kind msg topic body now = record {
  kind = kind;
  id = msg.id;
  topic = topic;
  payload = body;
  timestamp = now;
  error = none;
}

abbrev pub error_message : String → Error → ℤ → Outgoing
error_message note e now = record {
  kind = error_type;
  id = "";
  topic = "";
  payload = no_body;
  timestamp = now;
  error = some (note, e);
}

abbrev pub State : {V : Type 0} → WsEnv V → Type 0
State env = World (Pull.State env.subscriber_env)

abbrev pub in_hub : {S : Type 0} → World S → Option Hub → Option (World S)
in_hub w none = none
in_hub w (some h) = some (record w { hub = h })

module _ {V : Type 0} (env : WsEnv V) (done_first : Bool) (now : ℤ) where
  abbrev pub send : String → Outgoing → State env → Option (State env)
  send id m w = in_hub w (reply done_first id m w.hub)

  unfoldable pub send_error : String → String → Error → State env → Option (State env)
  send_error id note e w = send id (error_message note e now) w
