-- ===== src/Subscriber/Workers.antt =====
-- internal/services/subscriber/workers.go: the heartbeats of the consumers of groups, and rebalancing. A
-- loop over a map runs over the dictionary in its order, which is any order.
use pub_sub_go.Base.{
  ◌*◌, ◌^◌, String, Bool, true, false, ◌&&◌, none, some, List, [], ◌∷◌, Dict, length, ltb,
  if◌then◌else◌,
}
use pub_sub_go.Base.Int.{ℤ, pos, ◌-ℤ◌, ltb_ℤ}
use pub_sub_go.Core.Consumer.{Consumer}
use pub_sub_go.Result.{ok, err, pure, modify, ◌>>=◌, ◌>>◌, ignoring, attempt}
use pub_sub_go.Subscriber.Rebalance.{rebalance_consumer_group}
use pub_sub_go.Subscriber.Types.{
  ActiveConsumer, ActiveConsumerGroup, Env, with_consumers, with_topics,
}
use pub_sub_go.Subscriber.Pull.{Method}
use pub_sub_go.Subscriber.Groups.{removed_from, to_rebalance, update_group, on_group}

-- The consumers that did not pull for more than 60 seconds.
unfoldable pub dead_consumers : ℤ → Dict ActiveConsumer → List String
dead_consumers now [] = []
dead_consumers now ((id, c) ∷ rest) =
    let more = dead_consumers now rest in
    if ltb_ℤ (pos (60 * 10 ^ 9)) (now -ℤ c.last_pull) then id ∷ more else more

-- The consumers of the group, and the group with the partitions that they are given.
abbrev pub plain_consumers : Dict ActiveConsumer → List Consumer
plain_consumers [] = []
plain_consumers ((id, c) ∷ rest) = c.consumer ∷ plain_consumers rest

unfoldable pub with_given : Dict ActiveConsumer → List Consumer → Dict ActiveConsumer
with_given [] given = []
with_given (entry ∷ rest) [] = entry ∷ rest
with_given ((id, c) ∷ rest) (g ∷ given) = (id, record c { consumer = g }) ∷ with_given rest given

unfoldable pub rebalanced : ℤ → Dict ActiveConsumer → Dict ActiveConsumer
unfolding with_given rebalance_consumer_group
rebalanced partitions consumers =
    with_given consumers (rebalance_consumer_group partitions (plain_consumers consumers))

-- A rebalance is asked for, and the last is more than five seconds old.
unfoldable pub is_due : ℤ → ActiveConsumerGroup → Bool
is_due now g =
    g.rebalancing
    && elim g.last_rebalance [ none ↦ true | some t ↦ ltb_ℤ (pos (5 * 10 ^ 9)) (now -ℤ t) ]

module _ {V : Type 0} (env : Env V) where
  open env use {consumer_repo, topic_repo}

  unfoldable pub remove_dead_consumer : String → String → Method env (Unit {0})
  unfolding update_group
  remove_dead_consumer name id = do
    ignoring (with_consumers (consumer_repo.remove_consumer name id))
    on_group env name (removed_from id)

  unfoldable pub remove_dead_consumers : String → List String → Method env (Unit {0})
  unfolding remove_dead_consumer
  remove_dead_consumers name [] = pure tt
  remove_dead_consumers name (id ∷ ids) =
      remove_dead_consumer name id >> remove_dead_consumers name ids

  -- One group of the snapshot.
  unfoldable pub check_group : ℤ → String → ActiveConsumerGroup → Method env (Unit {0})
  unfolding remove_dead_consumers dead_consumers update_group
  check_group now name g = do
    let dead = dead_consumers now g.consumers
    remove_dead_consumers name dead
    if ltb 0 (length dead) then on_group env name to_rebalance else pure tt

  unfoldable pub check_groups : ℤ → Dict ActiveConsumerGroup → Method env (Unit {0})
  unfolding check_group
  check_groups now [] = pure tt
  check_groups now ((name, g) ∷ groups) = check_group now name g >> check_groups now groups

  unfoldable pub process_consumer_heartbeats : ℤ → Method env (Unit {0})
  unfolding check_groups
  process_consumer_heartbeats now s = check_groups now s.consumer_groups s

  -- `rebalanceConsumerGroup`: nothing changes in a group with no consumers or an unreadable topic.
  unfoldable pub rebalance_group : ActiveConsumerGroup → Method env ActiveConsumerGroup
  unfolding rebalanced
  rebalance_group g =
      if ltb 0 (length g.consumers)
      then (do
        t ← attempt (with_topics (topic_repo.get g.group.topic))
        elim t [
          | err e ↦ pure g
          | ok t ↦ pure (record g { consumers = rebalanced t.partitions g.consumers })
        ])
      else pure g

  unfoldable pub rebalance_if_due : ℤ → ActiveConsumerGroup → Method env ActiveConsumerGroup
  unfolding is_due rebalance_group
  rebalance_if_due now g =
      if is_due now g
      then (do
        done ← rebalance_group g
        pure (record done { rebalancing = false; last_rebalance = some now }))
      else pure g

  unfoldable pub rebalance_all :
      ℤ → Dict ActiveConsumerGroup → Method env (Dict ActiveConsumerGroup)
  unfolding rebalance_if_due
  rebalance_all now [] = pure []
  rebalance_all now ((name, g) ∷ groups) = do
    h ← rebalance_if_due now g
    rest ← rebalance_all now groups
    pure ((name, h) ∷ rest)

  unfoldable pub process_rebalancing : ℤ → Method env (Unit {0})
  unfolding rebalance_all
  process_rebalancing now = do
    groups ← λ s. rebalance_all now s.consumer_groups s
    modify λ s. record s { consumer_groups = groups }
