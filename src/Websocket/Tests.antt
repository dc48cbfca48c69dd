-- ===== src/Websocket/Tests.antt =====
-- The websocket server at concrete rounds, over stores in memory.
use Prim.Native.Char.{nul}
use Prim.Native.String as Native
use pub_sub_go.Base.{
  ℕ, zero, suc, ◌<◌, ◌≤◌, take, ◌≡◌, refl, String, Bool, true, false, none, some, List, [], ◌∷◌,
  length, lookup, if◌then◌else◌, eqb,
}
use pub_sub_go.Base.Int.{pos}
use pub_sub_go.Result.{plain, ok, err}
use pub_sub_go.Publisher.Samples.{marks}
use pub_sub_go.Subscriber.Samples.{env, service}
use pub_sub_go.Websocket.Types.{
  WsEnv, Outgoing, Connection, MessageType, subscribe_type, ping_type, pong_type, no_body,
}
use pub_sub_go.Websocket.Connections.{create_connection, write_round}
use pub_sub_go.Websocket.Session.{State}
use pub_sub_go.Websocket.Answers.{IsFine}
use pub_sub_go.Websocket.Consistency.{among}
use pub_sub_go.Websocket.Reached.{all_new, ids_after, serve_all-IsFine}
use pub_sub_go.Websocket.Leaving.{write_round_order, IsLeft, going, IsGone, serve_all-IsGone}
use pub_sub_go.Websocket.Serve.{Round, connects, receives, writes, start, serve_all}

-- A name with a given number of characters.
abbrev named : ℕ → String
named zero = Native.[]
named (suc n) = Native.◌∷◌ nul (named n)

-- A client's bytes are the number of the message's type, and its topic is always the same.
abbrev kind_of : List ℕ → MessageType
kind_of [] = ping_type
kind_of (b ∷ bytes) = subscribe_type

abbrev sample : WsEnv ℕ
sample = record {
  subscriber_env = env;
  codecs = marks;
  message_uuid = named;
  formats = record {
    Raw = List ℕ;
    parse_message = λ bytes. ok (record {
      kind = kind_of bytes;
      id = "m";
      topic = "orders";
      payload = bytes;
      timestamp = pos 0;
      error = none;
    });
    parse_subscribe = λ raw.
        ok (record { topic = "orders"; consumer_group = ""; filter = ""; max_messages = pos 0 });
    parse_unsubscribe = λ raw. ok "orders";
    parse_publish = λ raw. err (plain ("no payload" ∷ []));
    parse_ack = λ raw. ok (record { message_id = "id"; consumer_group = "" });
    encode = λ bytes. "";
    decode = λ text. ok (1 ∷ []);
    sha256 = λ text. 1 ∷ [];
    hex = λ bytes. named (length bytes);
    format_int = λ n. "1";
  };
}

abbrev rounds : List Round
rounds =
    record { event = connects "peer:80" "peer" "agent" "uuid"; done_first = false; now = pos 1 }
    ∷ record { event = receives (named 1) (1 ∷ []); done_first = false; now = pos 2 }
    ∷ record { event = writes (named 1) (λ n. true); done_first = false; now = pos 3 }
    ∷ []

serve_all-IsFine_example :
    IsFine sample (ids_after sample [] rounds) (serve_all sample (start service) rounds)
unfolding all_new among
serve_all-IsFine_example = serve_all-IsFine sample service rounds refl

-- A world with one connection.
abbrev one_client : State sample
one_client = record {
  hub = record {
    connections = ("c", create_connection "c" "peer" "agent" (pos 0)) ∷ [];
    subscriptions = [];
    heap = [];
  };
  service = service;
  message_drawn = 0;
}

serve_all-IsGone_example :
    (w' : State sample) × (serve_all sample one_client (going "c" false (pos 1)) ≡ some w')
    × IsGone "c" one_client w'
unfolding lookup
serve_all-IsGone_example =
    serve_all-IsGone sample "c" false (pos 1) one_client
      (create_connection "c" "peer" "agent" (pos 0)) refl

abbrev pong : Outgoing
pong = record {
  kind = pong_type;
  id = "";
  topic = "";
  payload = no_body;
  timestamp = pos 0;
  error = none;
}

-- The second of three writes fails.
abbrev fails_at_one : ℕ → Bool
fails_at_one n = if eqb n 1 then false else true

abbrev waiting : Connection
unfolding create_connection
waiting = record (create_connection "c" "peer" "agent" (pos 0)) { send = pong ∷ pong ∷ pong ∷ [] }

write_round_order_example :
    let r = write_round false fails_at_one waiting in
    (n : ℕ) × (n ≤ 3)
    × ((j : ℕ) → j < n → fails_at_one j ≡ true)
    × (r.0 ≡ take n waiting.send)
    × IsLeft fails_at_one n waiting r.1
unfolding waiting
write_round_order_example = write_round_order false fails_at_one waiting refl refl refl
