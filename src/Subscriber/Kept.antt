-- ===== src/Subscriber/Kept.antt =====
-- What the calls of the subscriber service keep: channels that are sound, and no panic.
use pub_sub_go.Base.{◌≡◌, refl, String, true, false, Dict, arith, ◌==◌, if◌then◌else◌}
use pub_sub_go.Result.{pure}
use pub_sub_go.Base.Int.{ℤ}
use pub_sub_go.Subscriber.Types.{
  ActiveConsumer, ActiveConsumerGroup, ConsumerGroupPullRequest, PullRequest, JoinGroupRequest,
  Task, store, mark_delivered, Env,
}
use pub_sub_go.Core.Consumer.{ConsumerGroup}
use pub_sub_go.Subscriber.Pull.{
  State, Method, pull, draw, page, deliver_page, ensure_consumer_in_group,
  update_consumer_heartbeat, pull_with_consumer_group,
}
use pub_sub_go.Subscriber.Answers.{run_task}
use pub_sub_go.Subscriber.Groups.{
  join_consumer_group, leave_consumer_group, enter, trigger_rebalance, joined_in, join_as, left_by,
  to_rebalance,
}
use pub_sub_go.Subscriber.Channels.{
  groups_open, group_inserted, group_found, group_updated, left_open, leave_returns, touched_open,
  entered_open,
}
use pub_sub_go.Subscriber.Delivery.{is_good, good}

module _ {V : Type 0} (env : Env V) where
  abbrev pub Same : {A : Type 0} → Method env A → Type 0
  Same m = (s : State env) → is_good env (m s).1 ≡ is_good env s

  abbrev pub Keeps : {A : Type 0} → Method env A → Type 0
  Keeps m = (s : State env) → is_good env s ≡ true → is_good env (m s).1 ≡ true

  pub pull-Same : (req : PullRequest) (now : ℤ) → Same (pull env req now)
  unfolding pull page deliver_page
  pull-Same req now s = ground arith

  ensure-Same :
      (topic name id : String) (now : ℤ) → Same (ensure_consumer_in_group env topic name id now)
  unfolding ensure_consumer_in_group
  ensure-Same topic name id now s = ground arith

  -- Other groups whose channels are open.
  pub regrouped :
      (s : State env) (groups : Dict ActiveConsumerGroup)
      → is_good env s ≡ true
      → groups_open groups ≡ true
      → good s.subscriptions groups s.panicked ≡ true
  unfolding good
  regrouped s groups h o = ground arith

  pub opened : (s : State env) → is_good env s ≡ true → groups_open s.consumer_groups ≡ true
  unfolding good
  opened s h = ground arith

  heartbeat_good :
      (name id : String) (now : ℤ) (s : State env)
      → is_good env s ≡ true
      → is_good env (update_consumer_heartbeat env name id now s) ≡ true
  unfolding update_consumer_heartbeat
  heartbeat_good name id now s h =
      grind (arith, group_inserted, group_found, touched_open, regrouped s, opened s)

  pub group_pull-Keeps :
      (req : ConsumerGroupPullRequest) (now : ℤ) → Keeps (pull_with_consumer_group env req now)
  unfolding pull_with_consumer_group
  group_pull-Keeps req now s h = grind (
    arith,
    ensure-Same req.topic req.consumer_group req.consumer_id now s,
    heartbeat_good req.consumer_group req.consumer_id now,
  )

  pub run_task-Same : (task : Task) → Same (run_task env task)
  unfolding run_task
  run_task-Same (store m) s = refl
  run_task-Same (mark_delivered id consumer_id) s = refl

  entered_good :
      (group : ConsumerGroup) (name : String) (c : ActiveConsumer) (s : State env)
      → c.closed ≡ false
      → is_good env s ≡ true
      → is_good env (trigger_rebalance env name (enter env group name c s)).1 ≡ true
  unfolding enter trigger_rebalance
  entered_good group name c s open' h = regrouped s _ h (
      group_updated name to_rebalance _ (λ g o. o)
        (group_inserted name _ s.consumer_groups
          (entered_open name group c s.consumer_groups open' (opened s h)) (opened s h)))

  drawn_or_given-Same : (id : String) → Same (if id == "" then draw env else pure id)
  drawn_or_given-Same id s = ground arith

  joined_in-Keeps :
      (req : JoinGroupRequest) (id : String) (now : ℤ) (g : ConsumerGroup)
      → Keeps (joined_in env req id now g)
  unfolding joined_in
  joined_in-Keeps req id now g s h = entered_good g req.consumer_group _ s refl h

  join_as-Keeps : (req : JoinGroupRequest) (now : ℤ) (id : String) → Keeps (join_as env req now id)
  unfolding join_as
  join_as-Keeps req now id s h =
      grind (arith, ensure-Same req.topic req.consumer_group id now s, joined_in-Keeps req id now)

  pub join-Keeps : (req : JoinGroupRequest) (now : ℤ) → Keeps (join_consumer_group env req now)
  unfolding join_consumer_group
  join-Keeps req now s h =
      grind (arith, drawn_or_given-Same req.consumer_id s, join_as-Keeps req now)

  pub leave-Keeps : (name id : String) → Keeps (leave_consumer_group env name id)
  unfolding leave_consumer_group good
  leave-Keeps name id s h = ground (
    arith,
    leave_returns name id s.consumer_groups,
    group_updated name (λ g. to_rebalance (left_by id g)) s.consumer_groups (left_open id),
  )
