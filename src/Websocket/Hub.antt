-- ===== src/Websocket/Hub.antt =====
-- internal/adapters/api/websocket/server.go: the maps of the server.
use pub_sub_go.Base.{
  ℕ, suc, ◌+◌, String, Bool, Option, none, some, List, [], ◌∷◌, ◌++◌, Dict, length, insert, delete,
  lookup, if◌then◌else◌, eqb,
}
use pub_sub_go.Base.Options.{◌>>=◌}
use pub_sub_go.Base.Int.{ℤ}
use pub_sub_go.Websocket.Types.{
  Outgoing, Connection, Subscription, Hub, message_type, message_body, MessagePayload,
}
use pub_sub_go.Websocket.Connections.{close, send_message}

unfoldable pub new_server : Hub
new_server = record { connections = []; subscriptions = []; heap = [] }

abbrev pub changed_in : String → (Connection → Connection) → Hub → Option Connection → Hub
changed_in id f h none = h
changed_in id f h (some c) = record h { connections = insert id (f c) h.connections }

-- What a goroutine of the connection does to it.
abbrev pub changed : String → (Connection → Connection) → Hub → Hub
changed id f h = changed_in id f h (lookup id h.connections)

abbrev pub put_back : String → Hub → Option Connection → Option Hub
put_back id h none = none
put_back id h (some c) = some (record h { connections = insert id c h.connections })

abbrev pub reply_to : Bool → String → Outgoing → Hub → Option Connection → Option Hub
reply_to done_first id m h none = some h
reply_to done_first id m h (some c) = put_back id h (send_message done_first m c)

-- `sendMessage` of the connection with the ID.
abbrev pub reply : Bool → String → Outgoing → Hub → Option Hub
reply done_first id m h = reply_to done_first id m h (lookup id h.connections)

unfoldable pub register_connection : Connection → Hub → Hub
register_connection c h = record h { connections = insert c.id c h.connections }

-- The pointer in the connection's own map.
abbrev pub own_place : String → Option Connection → Option ℕ
own_place topic none = none
own_place topic (some c) = lookup topic c.subscriptions

abbrev pub or_empty : Option (Dict ℕ) → Dict ℕ
or_empty none = []
or_empty (some d) = d

-- The connections that listen to a topic.
abbrev pub listeners : String → Dict (Dict ℕ) → Dict ℕ
listeners topic m = or_empty (lookup topic m)

unfoldable pub drop_found : String → String → Dict (Dict ℕ) → Option (Dict ℕ) → Dict (Dict ℕ)
drop_found id topic m none = m
drop_found id topic m (some d) =
    if eqb (length (delete id d)) 0 then delete topic m else insert topic (delete id d) m

-- The connection is taken from a topic's listeners, and a topic with no listeners from the map.
unfoldable pub drop_listener : String → String → Dict (Dict ℕ) → Dict (Dict ℕ)
unfolding drop_found
drop_listener id topic m = drop_found id topic m (lookup topic m)

unfoldable pub drop_all : String → List String → Dict (Dict ℕ) → Dict (Dict ℕ)
unfolding drop_listener
drop_all id [] m = m
drop_all id (topic ∷ topics) m = drop_all id topics (drop_listener id topic m)

abbrev pub keys {ℓ} : {A : Type ℓ} → Dict A → List String
keys [] = []
keys ((key, a) ∷ entries) = key ∷ keys entries

unfoldable pub remove_all_subscriptions : String → Dict (Dict ℕ) → Dict (Dict ℕ)
unfolding drop_all
remove_all_subscriptions id m = drop_all id (keys m) m

unfoldable pub unregister_connection : String → Hub → Hub
unfolding remove_all_subscriptions
unregister_connection id h = record h {
  connections = delete id h.connections;
  subscriptions = remove_all_subscriptions id h.subscriptions;
}

-- The new subscription in both maps.
unfoldable pub add_subscription : String → String → Subscription → Hub → Hub
add_subscription id topic sub h =
    let place = length h.heap in
    record (changed id (λ c. record c { subscriptions = insert topic place c.subscriptions }) h) {
      subscriptions =
          insert topic (insert id place (listeners topic h.subscriptions)) h.subscriptions;
      heap = h.heap ++ sub ∷ [];
    }

-- The subscription taken from both maps.
unfoldable pub drop_subscription : String → String → Hub → Hub
unfolding drop_listener
drop_subscription id topic h =
    record (changed id (λ c. record c { subscriptions = delete topic c.subscriptions }) h) {
      subscriptions = drop_listener id topic h.subscriptions;
    }

abbrev pub count_alive : Dict Connection → ℕ
count_alive [] = 0
count_alive ((id, c) ∷ cs) = let rest = count_alive cs in if c.is_alive then suc rest else rest

abbrev pub total_size : Dict (Dict ℕ) → ℕ
total_size [] = 0
total_size ((topic, d) ∷ m) = length d + total_size m

pub record ConnectionStats : Type 0 where
  pub total_connections : ℕ
  pub alive_connections : ℕ
  pub total_subscriptions : ℕ
  pub topics_subscribed : ℕ

unfoldable pub get_connection_stats : Hub → ConnectionStats
get_connection_stats h = record {
  total_connections = length h.connections;
  alive_connections = count_alive h.connections;
  total_subscriptions = total_size h.subscriptions;
  topics_subscribed = length h.subscriptions;
}

-- One connection of a broadcast.
unfoldable pub deliver_to : Bool → Outgoing → String → Hub → Option Connection → Option Hub
deliver_to done_first m id h none = some h
deliver_to done_first m id h (some c) =
    if c.is_alive then put_back id h (send_message done_first m c) else some h

unfoldable pub deliver_all : Bool → Outgoing → List String → Hub → Option Hub
unfolding deliver_to
deliver_all done_first m [] h = some h
deliver_all done_first m (id ∷ ids) h =
    deliver_to done_first m id h (lookup id h.connections) >>= deliver_all done_first m ids

unfoldable pub broadcast_to_topic : Bool → String → MessagePayload → ℤ → Hub → Option Hub
unfolding deliver_all
broadcast_to_topic done_first topic payload now h =
    deliver_all done_first
      (record {
        kind = message_type;
        id = "";
        topic = topic;
        payload = message_body payload;
        timestamp = now;
        error = none;
      })
      (keys (listeners topic h.subscriptions)) h

unfoldable pub close_all : List String → Hub → Hub
unfolding close
close_all [] h = h
close_all (id ∷ ids) h = close_all ids (changed id close h)

unfoldable pub shutdown : Hub → Hub
unfolding close_all
shutdown h = close_all (keys h.connections) h
