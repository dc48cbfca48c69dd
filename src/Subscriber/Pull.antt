-- ===== src/Subscriber/Pull.antt =====
-- internal/services/subscriber/subscriber.go: pulling messages, alone and in a group. A loop
-- that starts a goroutine for each message adds a task for each.
use pub_sub_go.Base.{
  suc, String, Bool, not, ◌&&◌, ◌||◌, Option, none, some, List, [], ◌∷◌, ◌++◌, map, length, insert,
  lookup, if◌then◌else◌, ◌==◌,
}
use pub_sub_go.Base.Int.{ℤ, pos, ltb_ℤ, leb_ℤ, eqb_ℤ}
use pub_sub_go.Base.Words.{inc64}
use pub_sub_go.Core.Message.{Message, delivered, is_expired}
use pub_sub_go.Core.Consumer.{Consumer, ConsumerGroup, active, new_consumer_group}
use pub_sub_go.Result.{
  Result, plain, ok, err, Action, pure, modify, ◌>>=◌, ◌>>◌, noting, ignoring, attempt,
}
use pub_sub_go.Subscriber.Rebalance.{should_assign_to_consumer}
use pub_sub_go.Subscriber.Types.{
  PullRequest, ConsumerGroupPullRequest, PullResponse, Env, Service, ActiveConsumerGroup, Task,
  store, mark_delivered, with_messages, with_consumers,
}

abbrev pub limit_error : Result (Unit {0})
limit_error = err (plain ("limit must be between 1 and 1000" ∷ []))

unfoldable pub validate_pull_request : PullRequest → Result (Unit {0})
validate_pull_request req =
    if req.topic == ""
    then err (plain ("topic cannot be empty" ∷ []))
    else if leb_ℤ req.limit (pos 0) || ltb_ℤ (pos 1000) req.limit
    then limit_error
    else ok tt

unfoldable pub validate_consumer_group_pull_request : ConsumerGroupPullRequest → Result (Unit {0})
validate_consumer_group_pull_request req =
    if req.topic == ""
    then err (plain ("topic cannot be empty" ∷ []))
    else if req.consumer_group == ""
    then err (plain ("consumer group cannot be empty" ∷ []))
    else if req.consumer_id == ""
    then err (plain ("consumer ID cannot be empty" ∷ []))
    else if leb_ℤ req.limit (pos 0) || ltb_ℤ (pos 1000) req.limit
    then limit_error
    else ok tt

-- The messages that have not expired.
unfoldable pub valid_messages : ℤ → List Message → List Message
unfolding is_expired
valid_messages now [] = []
valid_messages now (m ∷ ms) =
    let rest = valid_messages now ms in if is_expired m now then rest else m ∷ rest

abbrev pub offset_or_start : Option ℤ → ℤ
offset_or_start none = pos 0
offset_or_start (some n) = n

abbrev pub marked : String → ℤ → Message → Message
marked consumer_id now m = record m {
  status = delivered;
  delivered_at = some now;
  consumer_id = consumer_id;
}

-- One more than the offset of the last message.
unfoldable pub next_offset_of : List Message → Option ℤ
next_offset_of [] = none
next_offset_of (m ∷ []) = some (inc64 m.offset)
next_offset_of (m ∷ n ∷ ms) = next_offset_of (n ∷ ms)

-- The messages of a group's page that are given to the consumer.
unfoldable pub consumer_messages :
    (assigned : Message → Bool) → ConsumerGroupPullRequest → ℤ → List Message → List Message
unfolding is_expired
consumer_messages assigned req now [] = []
consumer_messages assigned req now (m ∷ ms) =
    let rest = consumer_messages assigned req now ms in
    if not (is_expired m now) && assigned m
    then record (marked req.consumer_id now m) { consumer_group = req.consumer_group } ∷ rest
    else rest

abbrev pub entity : String → String → ℤ → Consumer
entity group_name consumer_id now = record {
  id = consumer_id;
  group_id = group_name;
  partitions = [];
  last_heartbeat = now;
  status = active;
  metadata = [];
}

unfoldable pub touch : String → ℤ → ActiveConsumerGroup → ActiveConsumerGroup
touch consumer_id now g = elim (lookup consumer_id g.consumers) [
  | none ↦ g
  | some c ↦ record g { consumers = insert consumer_id (record c { last_pull = now }) g.consumers }
]

module _ {V : Type 0} (env : Env V) where
  open env use {message_repo, subscription_repo, consumer_repo, topic_repo, uuid, text_bytes}

  abbrev pub State : Type 0
  State = Service message_repo.State subscription_repo.State consumer_repo.State topic_repo.State

  abbrev pub Method : Type 0 → Type 0
  Method A = Action State A

  abbrev pub spawn : List Task → Method (Unit {0})
  spawn ts = modify λ s. record s { tasks = s.tasks ++ ts }

  -- `uuid.New().String()`
  abbrev pub draw : Method String
  draw s = (ok (uuid s.drawn), record s { drawn = suc s.drawn })

  -- The page of the topic, or of one of its partitions.
  unfoldable pub page : PullRequest → Method (List Message)
  page req =
      let offset = offset_or_start req.offset in
      elim req.partition [
        | some p ↦ with_messages (message_repo.get_by_topic_partition req.topic p offset req.limit)
        | none ↦ with_messages (message_repo.get_by_topic req.topic req.limit offset)
      ]

  -- The marks of the delivery, when there is a deadline.
  unfoldable pub deliver_page : PullRequest → ℤ → List Message → Method (List Message)
  deliver_page req now ms =
      if ltb_ℤ (pos 0) req.ack_deadline
      then (do
        consumer_id ← draw
        let sent = map (marked consumer_id now) ms
        spawn (map store sent)
        pure sent)
      else pure ms

  unfoldable pub pull : PullRequest → ℤ → Method PullResponse
  unfolding validate_pull_request page deliver_page
  pull req now = do
    noting "invalid pull request" (λ s. (validate_pull_request req, s))
    messages ← noting "failed to retrieve messages" (page req)
    sent ← deliver_page req now (valid_messages now messages)
    pure (record {
      messages = sent;
      next_offset = next_offset_of sent;
      has_more = eqb_ℤ (pos (length sent)) req.limit;
      consumer_id = "";
    })

  -- `GetGroup` may fail for any reason: the group is then made anew.
  unfoldable pub ensure_consumer_in_group : String → String → String → ℤ → Method ConsumerGroup
  unfolding new_consumer_group
  ensure_consumer_in_group topic group_name consumer_id now = do
    found ← attempt (with_consumers (consumer_repo.get_group group_name))
    group ← elim found [
      | ok g ↦ pure g
      | err e ↦
          let g = new_consumer_group group_name topic now in
          noting "failed to create consumer group" (with_consumers (consumer_repo.create_group g))
          >> pure g
    ]
    ignoring
        (with_consumers (consumer_repo.add_consumer group_name (entity group_name consumer_id now)))
    pure group

  unfoldable pub update_consumer_heartbeat : String → String → ℤ → State → State
  unfolding touch
  update_consumer_heartbeat group_name consumer_id now s =
      elim (lookup group_name s.consumer_groups) [
        | none ↦ s
        | some g ↦ record s {
          consumer_groups = insert group_name (touch consumer_id now g) s.consumer_groups;
        }
      ]

  unfoldable pub pull_with_consumer_group : ConsumerGroupPullRequest → ℤ → Method PullResponse
  unfolding ensure_consumer_in_group validate_consumer_group_pull_request update_consumer_heartbeat
  pull_with_consumer_group req now = do
    noting "invalid consumer group pull request"
        (λ s. (validate_consumer_group_pull_request req, s))
    group ←
        noting "failed to ensure consumer in group"
          (ensure_consumer_in_group req.topic req.consumer_group req.consumer_id now)
    messages ←
        noting "failed to retrieve messages for consumer group" (
          with_messages
            (message_repo.get_for_consumer_group req.topic req.consumer_group req.limit))
    let assigned = λ (m : Message). should_assign_to_consumer text_bytes m req.consumer_id group
    let sent = consumer_messages assigned req now messages
    spawn (map (λ m. mark_delivered m.id req.consumer_id) sent)
    modify (update_consumer_heartbeat req.consumer_group req.consumer_id now)
    pure (record {
      messages = sent;
      next_offset = none;
      has_more = eqb_ℤ (pos (length messages)) req.limit;
      consumer_id = req.consumer_id;
    })
