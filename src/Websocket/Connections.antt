-- ===== src/Websocket/Connections.antt =====
-- internal/adapters/api/websocket/connection.go: one connection. Sending on a closed channel panics,
-- which is `none`. `done_first` is the choice of a `select` that could as well do its other case.
use Prim.Native.String.{◌++◌}
use pub_sub_go.Base.{
  ℕ, suc, String, Bool, true, false, not, ◌&&◌, ◌||◌, take, Option, none, some, List, [], ◌∷◌,
  ◌++◌ as ◌+++◌, length, if◌then◌else◌, ltb, get_or, ◌==◌,
}
use pub_sub_go.Base.Int.{ℤ}
use pub_sub_go.Websocket.Types.{Outgoing, Connection, Formats}

abbrev pub send_size : ℕ
send_size = 256

-- `generateConnectionID`: the first eight bytes of the hash of the peer's address, the user agent, a
-- UUID and the time.
unfoldable pub generate_connection_id : Formats → (peer user_agent uuid : String) → ℤ → String
generate_connection_id f peer user_agent uuid now =
    f.hex (take 8 (f.sha256 (peer ++ ":" ++ user_agent ++ ":" ++ uuid ++ ":" ++ f.format_int now)))

-- `createConnection`; the parts of the request are arguments.
unfoldable pub create_connection : (id remote_addr user_agent : String) → ℤ → Connection
create_connection id remote_addr user_agent now = record {
  id = id;
  remote_addr = remote_addr;
  user_agent = user_agent;
  connected_at = now;
  last_ping_at = now;
  is_alive = true;
  send = [];
  send_closed = false;
  cancelled = false;
  panicked = false;
  writing = true;
  subscriptions = [];
}

-- The second close of the channels panics.
unfoldable pub close : Connection → Connection
close c = if not c.is_alive then record c { cancelled = true } else record c {
  cancelled = true;
  is_alive = false;
  send_closed = true;
  panicked = c.panicked || c.send_closed;
}

-- Three cases: the channel takes the message, the context is done, or neither, which closes the
-- connection.
unfoldable pub send_message : (done_first : Bool) → Outgoing → Connection → Option Connection
unfolding close
send_message done_first m c =
    if c.cancelled && done_first
    then some c
    else if c.send_closed
    then none
    else if ltb (length c.send) send_size
    then some (record c { send = c.send +++ (m ∷ []) })
    else if c.cancelled
    then some c
    else some (close c)

-- A pump's loop over the messages that wait: those that are written, those that are left, and whether
-- a write failed. `writes` tells of each write whether it succeeds; a message that is not written is
-- lost.
unfoldable pub write_queued :
    (writes : ℕ → Bool) → ℕ → List Outgoing → List Outgoing × List Outgoing × Bool
write_queued writes i [] = ([], [], false)
write_queued writes i (m ∷ ms) =
    let rest = write_queued writes (suc i) ms in
    if writes i then (m ∷ rest.0, rest.1, rest.2) else ([], ms, true)

-- `writePump` returns, which closes the connection: what waits is read by nobody any more.
unfoldable pub end_writing : Connection → Connection
unfolding close
end_writing c = record (close c) { writing = false }

-- A round of `writePump` that is not a ping: what is written, and the connection. With no message
-- there is no round, nor when the pump has returned.
unfoldable pub write_round :
    (done_first : Bool) (writes : ℕ → Bool) → Connection → List Outgoing × Connection
unfolding end_writing write_queued
write_round done_first writes c =
    let r = write_queued writes 0 c.send in
    let left = record c { send = r.1 } in
    if not c.writing
    then ([], c)
    else if c.cancelled && done_first
    then ([], end_writing c)
    else if c.send_closed && not (ltb 0 (length c.send))
    then ([], end_writing c)
    else (r.0, if r.2 then end_writing left else left)

-- A ping of `writePump`.
unfoldable pub ping_round : (written : Bool) → ℤ → Connection → Connection
unfolding end_writing
ping_round written now c =
    if not c.writing then c else if written then record c { last_ping_at = now } else end_writing c

-- `getClientIP`: the first address that proxies were given, that of the proxy, or the peer's without
-- its port. `parts` is `strings.Split(s, ",")`, `trim` is `strings.TrimSpace`, `before_port` what is
-- before the last ":".
unfoldable pub get_client_ip :
    (parts : String → List String) (trim before_port : String → String)
    → (forwarded real_ip remote_addr : String) → String
get_client_ip parts trim before_port forwarded real_ip remote_addr =
    let otherwise = if not (real_ip == "") then real_ip else before_port remote_addr in
    if not (forwarded == "") && ltb 0 (length (parts forwarded))
    then trim (get_or (parts forwarded) 0 "")
    else otherwise
