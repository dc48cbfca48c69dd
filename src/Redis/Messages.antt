-- ===== src/Redis/Messages.antt =====
-- internal/adapters/storage/redis/message_repository.go
use Prim.Native.String.{◌++◌}
use pub_sub_go.Base.{
  String, not, Option, none, some, List, [], ◌∷◌, ◌++◌ as ◌+++◌, map, length, ◌==◌, if◌then◌else◌,
}
use pub_sub_go.Base.Int.{ℤ, pos, ◌+ℤ◌, ◌-ℤ◌, leb_ℤ}
use pub_sub_go.Base.Words.{int64}
use pub_sub_go.Core.Message.{Message, Acknowledgment, dlq}
use pub_sub_go.Result.{
  Result, plain, ok, err, Action, annotate, pure, raise, ◌>>=◌, ◌>>◌, ignoring, attempt, ok_or,
}
use pub_sub_go.Ports.{MessageRepository}
use pub_sub_go.Redis.Entries.{
  day, message_key, topic_key, expiration, failed_of, unacknowledged_of, acknowledged_message,
}
use pub_sub_go.Redis.Client.{Client, Json, Command, set, z_add, r_push, h_incr_by}

module _ (client : Client) (json : Json Message) (acks : Json Acknowledgment)
    (format_int : ℤ → String) where
  open client use {State}

  abbrev pub Method : Type 0 → Type 0
  Method A = Action State A

  abbrev pub partition_key : String → ℤ → String
  partition_key topic partition = "topic:" ++ topic ++ ":partition:" ++ format_int partition

  -- The commands that store a message and its place in its topic.
  abbrev pub placing : Message → String → List Command
  placing m text =
      set (message_key m.id) text (pos 0) ∷ z_add (topic_key m.topic) m.created_at m.id ∷ []

  abbrev pub counting : Message → List Command
  counting m =
      let key = "topic:" ++ m.topic ++ ":stats" in
      h_incr_by key "message_count" (pos 1) ∷ h_incr_by key "bytes_in" (pos (length m.payload)) ∷ []

  unfoldable pub store_commands : Message → String → ℤ → List Command
  unfolding expiration
  store_commands m text now =
      placing m text
      +++ ((if leb_ℤ (pos 0) m.partition
            then r_push (partition_key m.topic m.partition) m.id ∷ []
            else [])
          +++ (expiration m now +++ counting m))

  unfoldable pub store : Message → ℤ → Method (Unit {0})
  unfolding store_commands
  store m now = do
    text ← λ s. (annotate "failed to marshal message" (json.marshal m), s)
    client.exec (store_commands m text now)

  unfoldable pub parsed : String → Option String → Method Message
  parsed id none s = raise (plain ("message not found: " ∷ id ∷ [])) s
  parsed id (some text) s = (annotate "failed to unmarshal message" (json.unmarshal text), s)

  unfoldable pub get : String → Method Message
  unfolding parsed
  get id = client.get (message_key id) >>= parsed id

  unfoldable pub remove : String → Method (Unit {0})
  remove id = client.del (message_key id ∷ [])

  -- The commands of a batch; the first message that cannot be encoded ends it.
  unfoldable pub batch_commands : ℤ → List Message → Result (List Command)
  unfolding expiration
  batch_commands now [] = ok []
  batch_commands now (m ∷ ms) =
      let rest = batch_commands now ms in
      elim (annotate ("failed to marshal message " ++ m.id) (json.marshal m)) [
        | err e ↦ err e
        | ok text ↦ elim rest [
          | err e ↦ err e
          | ok commands ↦ ok (placing m text +++ (expiration m now +++ commands))
        ]
      ]

  unfoldable pub store_batch : List Message → ℤ → Method (Unit {0})
  unfolding batch_commands
  store_batch ms now = do commands ← λ s. (batch_commands now ms, s); client.exec commands

  -- The messages of the texts; missing and unreadable ones are left out.
  unfoldable pub readable : List (Option String) → List Message
  readable [] = []
  readable (none ∷ texts) = readable texts
  readable (some text ∷ texts) =
      let rest = readable texts in elim (json.unmarshal text) [ err e ↦ rest | ok m ↦ m ∷ rest ]

  unfoldable pub get_batch : List String → Method (List Message)
  unfolding readable
  get_batch ids = do texts ← client.get_all (map message_key ids); pure (readable texts)

  unfoldable pub read_ids : List String → Method (List Message)
  unfolding get_batch
  read_ids [] = pure []
  read_ids (id ∷ ids) = get_batch (id ∷ ids)

  -- The last index of a page.
  abbrev pub last_index : ℤ → ℤ → ℤ
  last_index offset limit = int64 (int64 (offset +ℤ limit) -ℤ pos 1)

  unfoldable pub get_by_topic : String → ℤ → ℤ → Method (List Message)
  unfolding read_ids
  get_by_topic topic limit offset = do
    ids ← client.z_range (topic_key topic) offset (last_index offset limit)
    read_ids ids

  unfoldable pub get_by_topic_partition : String → ℤ → ℤ → ℤ → Method (List Message)
  unfolding read_ids
  get_by_topic_partition topic partition offset limit = do
    ids ← client.l_range (partition_key topic partition) offset (last_index offset limit)
    read_ids ids

  unfoldable pub count_by_topic : String → Method ℤ
  count_by_topic topic = client.z_card (topic_key topic)

  -- The messages of the identifiers; one that cannot be read is left out.
  unfoldable pub get_each : List String → Method (List Message)
  unfolding get
  get_each [] = pure []
  get_each (id ∷ ids) = do
    m ← attempt (get id)
    ms ← get_each ids
    elim m [ ok m ↦ pure (m ∷ ms) | err e ↦ pure ms ]

  unfoldable pub get_for_consumer_group : String → String → ℤ → ℤ → Method (List Message)
  unfolding get_each
  get_for_consumer_group topic group limit now = do
    let stream = "stream:" ++ topic
    ignoring (client.x_group_create stream group)
    ids ← client.x_read_group stream group (group ++ "-" ++ format_int now) limit
    get_each ids

  unfoldable pub mark_delivered : String → String → Method (Unit {0})
  mark_delivered id consumer_id = client.set (message_key id ++ ":delivered") consumer_id day

  unfoldable pub acknowledge : Acknowledgment → ℤ → Method (Unit {0})
  unfolding get acknowledged_message
  acknowledge ack now = do
    m ← get ack.message_id
    text ← λ s. (json.marshal (acknowledged_message ack now m), s)
    let counts : List Command =
        if not (ack.consumer_group == "")
        then h_incr_by ("consumer:" ++ ack.consumer_group ++ ":stats")
            (if ack.success then "acked" else "nacked") (pos 1)
          ∷ []
        else []
    client.exec (
        set (message_key ack.message_id) text (pos 0)
        ∷ set ("ack:" ++ ack.message_id) (ok_or "" (acks.marshal ack)) day
        ∷ counts)

  unfoldable pub get_unacknowledged : String → ℤ → ℤ → Method (List Message)
  unfolding get_by_topic unacknowledged_of
  get_unacknowledged topic deadline now = do
    ms ← get_by_topic topic (pos 1000) (pos 0)
    pure (unacknowledged_of now deadline ms)

  unfoldable pub get_failed_messages : String → ℤ → Method (List Message)
  unfolding get_by_topic failed_of
  get_failed_messages topic max_retries = do
    ms ← get_by_topic topic (pos 1000) (pos 0)
    pure (failed_of max_retries ms)

  unfoldable pub move_to_dlq : String → String → ℤ → Method (Unit {0})
  unfolding get store
  move_to_dlq id dlq_topic now = do
    m ← get id
    store (record m { topic = dlq_topic; status = dlq }) now

  unfoldable pub delete_older_than : String → ℤ → Method ℤ
  delete_older_than topic before = client.z_rem_up_to (topic_key topic) before

  -- `NewMessageRepository`. The instant of a call is the clock's. `DeleteExpired` does nothing.
  unfoldable pub new_message_repository : (now : ℤ) → MessageRepository
  new_message_repository now = record {
    State = State;
    store = λ m. store m now;
    get = get;
    remove = remove;
    store_batch = λ ms. store_batch ms now;
    get_batch = get_batch;
    get_by_topic = get_by_topic;
    get_by_topic_partition = get_by_topic_partition;
    count_by_topic = count_by_topic;
    get_for_consumer_group = λ topic group limit. get_for_consumer_group topic group limit now;
    mark_delivered = mark_delivered;
    acknowledge = λ ack. acknowledge ack now;
    get_unacknowledged = λ topic deadline. get_unacknowledged topic deadline now;
    get_failed_messages = get_failed_messages;
    move_to_dlq = λ id dlq_topic. move_to_dlq id dlq_topic now;
    delete_expired = pure (pos 0);
    delete_older_than = delete_older_than;
  }
