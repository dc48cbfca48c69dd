-- ===== src/Subscriber/Groups.antt =====
-- internal/services/subscriber/management.go: consumer groups, who joins and leaves them.
use pub_sub_go.Base.{
  String, Bool, true, false, ◌||◌, Option, none, some, [], ◌∷◌, Dict, map, insert, delete, lookup,
  if◌then◌else◌, ◌==◌,
}
use pub_sub_go.Base.Int.{ℤ}
use pub_sub_go.Core.Consumer.{Consumer, ConsumerGroup, active}
use pub_sub_go.Result.{Result, plain, ok, err, pure, modify, ◌>>=◌, ◌>>◌, noting, ignoring}
use pub_sub_go.Subscriber.Types.{
  JoinGroupRequest, JoinGroupResponse, ConsumerInfo, ConsumerGroupInfo, ActiveConsumer,
  ActiveConsumerGroup, Env, with_consumers,
}
use pub_sub_go.Subscriber.Pull.{State, Method, draw, ensure_consumer_in_group}

unfoldable pub validate_join_group_request : JoinGroupRequest → Result (Unit {0})
validate_join_group_request req =
    if req.topic == ""
    then err (plain ("topic cannot be empty" ∷ []))
    else if req.consumer_group == ""
    then err (plain ("consumer group cannot be empty" ∷ []))
    else ok tt

-- The group of the map, or the one that a first join makes.
unfoldable pub group_or_new : ConsumerGroup → Option ActiveConsumerGroup → ActiveConsumerGroup
group_or_new g (some a) = a
group_or_new g none = record {
  group = g;
  consumers = [];
  rebalancing = true;
  last_rebalance = none;
}

abbrev pub new_consumer : JoinGroupRequest → String → ℤ → Consumer
new_consumer req id now = record {
  id = id;
  group_id = req.consumer_group;
  partitions = [];
  last_heartbeat = now;
  status = active;
  metadata = req.metadata;
}

abbrev pub consumer_info : Consumer → ConsumerInfo
consumer_info c = record {
  id = c.id;
  status = c.status;
  partitions = c.partitions;
  last_heartbeat = c.last_heartbeat;
  metadata = c.metadata;
}

abbrev pub removed_from : String → ActiveConsumerGroup → ActiveConsumerGroup
removed_from id g = record g { consumers = delete id g.consumers }

-- The channel of the consumer is closed, and the consumer deleted.
unfoldable pub left_by : String → ActiveConsumerGroup → ActiveConsumerGroup
left_by id g = elim (lookup id g.consumers) [
  | none ↦ g
  | some c ↦ record g { consumers = delete id (insert id (record c { closed = true }) g.consumers) }
]

-- Whether closing the channel of the consumer panics.
unfoldable pub leave_panics : String → Option ActiveConsumerGroup → Bool
leave_panics id none = false
leave_panics id (some g) = elim (lookup id g.consumers) [ none ↦ false | some c ↦ c.closed ]

abbrev pub to_rebalance : ActiveConsumerGroup → ActiveConsumerGroup
to_rebalance g = record g { rebalancing = true }

-- A change to the group of a name, if there is one.
unfoldable pub update_group :
    String
    → (ActiveConsumerGroup → ActiveConsumerGroup)
    → Dict ActiveConsumerGroup
    → Dict ActiveConsumerGroup
update_group name f groups = elim (lookup name groups) [
  | none ↦ groups
  | some g ↦ insert name (f g) groups
]

module _ {V : Type 0} (env : Env V) where
  open env use {consumer_repo, topic_repo}

  abbrev pub on_group : String → (ActiveConsumerGroup → ActiveConsumerGroup) → Method env (Unit {0})
  on_group name f = modify λ s. record s { consumer_groups = update_group name f s.consumer_groups }

  unfoldable pub trigger_rebalance : String → Method env (Unit {0})
  unfolding update_group
  trigger_rebalance name = on_group name to_rebalance

  unfoldable pub enter : ConsumerGroup → String → ActiveConsumer → State env → State env
  unfolding group_or_new
  enter group name c s =
      let g = group_or_new group (lookup name s.consumer_groups) in
      record s {
        consumer_groups =
            insert name (record g { consumers = insert c.consumer.id c g.consumers })
              s.consumer_groups;
      }

  -- The consumer enters the group that was found.
  unfoldable pub joined_in :
      JoinGroupRequest → String → ℤ → ConsumerGroup → Method env JoinGroupResponse
  unfolding enter trigger_rebalance
  joined_in req id now group = do
    let c = new_consumer req id now
    modify
        (enter group req.consumer_group (record { consumer = c; last_pull = now; closed = false }))
    trigger_rebalance req.consumer_group
    pure (record {
      consumer_id = id;
      consumer_group = req.consumer_group;
      partitions = c.partitions;
    })

  unfoldable pub join_as : JoinGroupRequest → ℤ → String → Method env JoinGroupResponse
  unfolding joined_in
  join_as req now id = do
    group ←
        noting "failed to join consumer group"
          (ensure_consumer_in_group env req.topic req.consumer_group id now)
    joined_in req id now group

  unfoldable pub join_consumer_group : JoinGroupRequest → ℤ → Method env JoinGroupResponse
  unfolding validate_join_group_request join_as
  join_consumer_group req now = do
    noting "invalid join group request" (λ s. (validate_join_group_request req, s))
    id ← if req.consumer_id == "" then draw env else pure req.consumer_id
    join_as req now id

  unfoldable pub leave_consumer_group : String → String → Method env (Unit {0})
  unfolding update_group left_by leave_panics
  leave_consumer_group name id = do
    ignoring (with_consumers (consumer_repo.remove_consumer name id))
    modify
        λ s. record s { panicked = s.panicked || leave_panics id (lookup name s.consumer_groups) }
    on_group name λ g. to_rebalance (left_by id g)

  unfoldable pub get_consumer_group_info : String → Method env ConsumerGroupInfo
  get_consumer_group_info name = do
    group ← noting "consumer group not found" (with_consumers (consumer_repo.get_group name))
    actives ←
        noting "failed to get active consumers"
          (with_consumers (consumer_repo.get_active_consumers name))
    pure (record {
      name = group.name;
      topic = group.topic;
      consumers = map consumer_info actives;
      max_consumers = group.max_consumers;
      created_at = group.created_at;
      updated_at = group.updated_at;
    })
