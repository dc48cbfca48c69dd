-- ===== src/Websocket/Types.antt =====
-- internal/adapters/api/websocket/server.go: messages, subscriptions, connections and the server. The
-- two mutexes are left out, and so is the channel `receive`, which nothing uses.
use pub_sub_go.Base.{ℕ, String, Bool, Option, List, Dict}
use pub_sub_go.Base.Int.{ℤ}
use pub_sub_go.Result.{Result, Error}
use pub_sub_go.Publisher.Types.{PublishResponse}
use pub_sub_go.Publisher.Compression.{Codecs}
use pub_sub_go.Subscriber.Types.{Env}

-- The named types of messages, and any other text.
pub data MessageType : Type 0 where
  subscribe_type unsubscribe_type publish_type ack_type ping_type : MessageType
  message_type error_type pong_type subscribed_type unsubscribed_type published_type : MessageType
  other_type : String → MessageType

-- `error` is the note and the error that the text is made of.
pub record WsMessage (P : Type 0) : Type 0 where
  pub kind : MessageType
  pub id : String
  pub topic : String
  pub payload : P
  pub timestamp : ℤ
  pub error : Option (String × Error)

pub record SubscribePayload : Type 0 where
  pub topic : String
  pub consumer_group : String
  pub filter : String
  pub max_messages : ℤ

pub record PublishPayload : Type 0 where
  pub key : String
  pub payload : String
  pub headers : Dict String
  pub priority : String

pub record AckPayload : Type 0 where
  pub message_id : String
  pub consumer_group : String

pub record MessagePayload : Type 0 where
  pub id : String
  pub key : String
  pub payload : String
  pub headers : Dict String
  pub priority : String
  pub delivery_mode : String
  pub topic : String
  pub partition : ℤ
  pub offset : ℤ
  pub consumer_group : String
  pub created_at : ℤ
  pub expires_at : Option ℤ

-- What the payload of a message to the client is made of.
pub data Body : Type 0 where
  no_body : Body
  subscribed_body : (subscription_id topic consumer_group : String) → Body
  unsubscribed_body : (topic : String) → Body
  published_body : PublishResponse → Body
  message_body : MessagePayload → Body

abbrev pub Outgoing : Type 0
Outgoing = WsMessage Body

pub record Subscription : Type 0 where
  pub id : String
  pub connection_id : String
  pub topic : String
  pub consumer_group : String
  pub filter : String
  pub created_at : ℤ
  pub message_count : ℤ
  pub last_message : Option ℤ

-- The maps hold pointers to subscriptions, which are places in the server's heap. `cancelled` is
-- whether the context is done, `send_closed` whether the channel `send` is closed; the channel
-- `close` and the connection of the library are closed with it. `panicked` is whether they were closed
-- once more, which panics; `writing` is whether `writePump` still runs.
pub record Connection : Type 0 where
  pub id : String
  pub remote_addr : String
  pub user_agent : String
  pub connected_at : ℤ
  pub last_ping_at : ℤ
  pub is_alive : Bool
  pub send : List Outgoing
  pub send_closed : Bool
  pub cancelled : Bool
  pub panicked : Bool
  pub writing : Bool
  pub subscriptions : Dict ℕ

-- `Server` with the subscriptions that its maps and those of the connections point to. The goroutines
-- of a connection find it under its ID.
pub record Hub : Type 0 where
  pub connections : Dict Connection
  pub subscriptions : Dict (Dict ℕ)
  pub heap : List Subscription

-- The libraries: JSON, base64, SHA-256, hexadecimal digits and decimal numbers.
pub record Formats : Type 1 where
  pub Raw : Type 0
  pub parse_message : List ℕ → Result (WsMessage Raw)
  pub parse_subscribe : Raw → Result SubscribePayload
  pub parse_unsubscribe : Raw → Result String
  pub parse_publish : Raw → Result PublishPayload
  pub parse_ack : Raw → Result AckPayload
  pub encode : List ℕ → String
  pub decode : String → Result (List ℕ)
  pub sha256 : String → List ℕ
  pub hex : List ℕ → String
  pub format_int : ℤ → String

-- What the server is built with: the environments of the two services agree in their storage.
pub record WsEnv (V : Type 0) : Type 1 where
  pub subscriber_env : Env V
  pub codecs : Codecs
  pub message_uuid : ℕ → String
  pub formats : Formats

-- The server, the subscriber service `S` with the storage, and the identifiers of messages drawn.
pub record World (S : Type 0) : Type 0 where
  pub hub : Hub
  pub service : S
  pub message_drawn : ℕ
