-- ===== src/Websocket/Serve.antt =====
-- internal/adapters/api/websocket: the server under any sequence of what its goroutines do, each round
-- of a loop done as a whole. `none` is a panic, which ends the program; that of closing channels twice
-- is kept in the connection, which no round that closes takes from the map.
use pub_sub_go.Base.{ℕ, String, Bool, Option, none, some, List, [], ◌∷◌, lookup, if◌then◌else◌}
use pub_sub_go.Base.Options.{◌>>=◌}
use pub_sub_go.Base.Int.{ℤ}
use pub_sub_go.Websocket.Types.{WsEnv, World, Hub, Connection, MessagePayload}
use pub_sub_go.Websocket.Connections.{
  generate_connection_id, create_connection, close, write_round, ping_round,
}
use pub_sub_go.Websocket.Hub.{
  new_server, changed, register_connection, unregister_connection, broadcast_to_topic, shutdown,
}
use pub_sub_go.Websocket.Session.{State, in_hub}
use pub_sub_go.Websocket.Handlers.{handle_message}

-- A client connects from the address `peer`, with the address that `getClientIP` makes of it; a message of a client is read; a read fails; a round of `writePump`, or its ping;
-- `HandleWebSocket` goes on when the connection is closed; a broadcast; the shutdown.
pub data Event : Type 0 where
  connects : (peer remote_addr user_agent uuid : String) → Event
  receives : String → List ℕ → Event
  read_fails : String → Event
  writes : String → (ℕ → Bool) → Event
  pings : String → Bool → Event
  leaves : String → Event
  broadcasts : String → MessagePayload → Event
  stops : Event

-- An event, the choice of a `select` that could do two cases, and the instant.
pub record Round : Type 0 where
  pub event : Event
  pub done_first : Bool
  pub now : ℤ

unfoldable pub start : {S : Type 0} → S → World S
unfolding new_server
start service = record { hub = new_server; service = service; message_drawn = 0 }

unfoldable pub leave_found : String → Hub → Option Connection → Hub
unfolding unregister_connection
leave_found id h none = h
leave_found id h (some c) = if c.is_alive then h else unregister_connection id h

module _ {V : Type 0} (env : WsEnv V) where
  open env use {formats}

  -- A round of `readPump`, whose loop ends when the context is done.
  unfoldable pub read_round :
      Bool → ℤ → String → List ℕ → State env → Option Connection → Option (State env)
  unfolding handle_message close
  read_round done_first now id bytes w none = some w
  read_round done_first now id bytes w (some c) =
      if c.cancelled
      then some (record w { hub = changed id close w.hub })
      else handle_message env done_first now id bytes w

  unfoldable pub step : Bool → ℤ → Event → State env → Option (State env)
  unfolding generate_connection_id create_connection register_connection read_round close
      write_round ping_round leave_found broadcast_to_topic shutdown
  step done_first now (connects peer remote_addr user_agent uuid) w =
      let id = generate_connection_id formats peer user_agent uuid now in
      let c = create_connection id remote_addr user_agent now in
      some (record w { hub = register_connection c w.hub })
  step done_first now (receives id bytes) w =
      read_round done_first now id bytes w (lookup id w.hub.connections)
  step done_first now (read_fails id) w = some (record w { hub = changed id close w.hub })
  step done_first now (writes id written) w =
      some (record w { hub = changed id (λ c. (write_round done_first written c).1) w.hub })
  step done_first now (pings id written) w =
      some (record w { hub = changed id (ping_round written now) w.hub })
  step done_first now (leaves id) w =
      some (record w { hub = leave_found id w.hub (lookup id w.hub.connections) })
  step done_first now (broadcasts topic payload) w =
      in_hub w (broadcast_to_topic done_first topic payload now w.hub)
  step done_first now stops w = some (record w { hub = shutdown w.hub })

  unfoldable pub serve_all : State env → List Round → Option (State env)
  unfolding step
  serve_all w [] = some w
  serve_all w (r ∷ rs) = step r.done_first r.now r.event w >>= λ next. serve_all next rs
