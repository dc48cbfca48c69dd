-- ===== src/Subscriber/Regrouping.antt =====
-- What the ticks of heartbeats and of rebalancing keep of the channels of consumers.
use pub_sub_go.Base.{◌≡◌, refl, ◌∙◌, String, true, List, [], ◌∷◌, Dict, arith}
use pub_sub_go.Result.{Result, ok, err, modify, ◌>>=◌}
use pub_sub_go.Base.Int.{ℤ}
use pub_sub_go.Subscriber.Types.{ActiveConsumerGroup, Env}
use pub_sub_go.Subscriber.Pull.{State, Method}
use pub_sub_go.Subscriber.Groups.{removed_from, on_group, to_rebalance}
use pub_sub_go.Subscriber.Workers.{
  remove_dead_consumer, remove_dead_consumers, check_group, check_groups, rebalance_group,
  rebalance_if_due, rebalance_all, process_rebalancing,
}
use pub_sub_go.Subscriber.Channels.{
  all_open, groups_open, group_updated, removed_open, rebalanced_open,
}
use pub_sub_go.Subscriber.Delivery.{is_good}
use pub_sub_go.Subscriber.Kept.{regrouped, opened, Same, Keeps}

module _ {V : Type 0} (env : Env V) where
  remove-Keeps :
      (name : String) (ids : List String) → Keeps env (remove_dead_consumers env name ids)
  unfolding remove_dead_consumers remove_dead_consumer
  remove-Keeps name [] s h = h
  remove-Keeps name (id ∷ ids) s h = remove-Keeps name ids _ (
      regrouped env s _ h
        (group_updated name (removed_from id) s.consumer_groups (removed_open id) (opened env s h)))

  rebalance_asked :
      (name : String) (s : State env)
      → is_good env s ≡ true
      → is_good env (on_group env name to_rebalance s).1 ≡ true
  rebalance_asked name s h =
      regrouped env s _ h
        (group_updated name to_rebalance s.consumer_groups (λ g o. o) (opened env s h))

  check_group-Keeps :
      (now : ℤ) (name : String) (g : ActiveConsumerGroup) → Keeps env (check_group env now name g)
  unfolding check_group
  check_group-Keeps now name g s h = grind (arith, remove-Keeps, rebalance_asked)

  pub check_groups-Keeps :
      (now : ℤ) (groups : Dict ActiveConsumerGroup) → Keeps env (check_groups env now groups)
  unfolding check_groups
  check_groups-Keeps now [] s h = h
  check_groups-Keeps now ((name, g) ∷ groups) s h =
      grind (arith, check_group-Keeps now name g, check_groups-Keeps now groups)

  rebalance_group-Same : (g : ActiveConsumerGroup) → Same env (rebalance_group env g)
  unfolding rebalance_group
  rebalance_group-Same g s = ground arith

  rebalance_all-Same :
      (now : ℤ) (groups : Dict ActiveConsumerGroup) → Same env (rebalance_all env now groups)
  unfolding rebalance_all rebalance_if_due
  rebalance_all-Same now [] s = refl
  rebalance_all-Same now ((name, g) ∷ groups) s =
      grind (arith, rebalance_group-Same, rebalance_all-Same now groups)

  -- The groups that a rebalance gives back are open.
  abbrev AreOpen : Result (Dict ActiveConsumerGroup) → Type 0
  AreOpen (ok groups) = groups_open groups ≡ true
  AreOpen (err e) = Unit

  abbrev IsOpenGroup : Result ActiveConsumerGroup → Type 0
  IsOpenGroup (ok g) = all_open g.consumers ≡ true
  IsOpenGroup (err e) = Unit

  rebalance_group_open :
      (g : ActiveConsumerGroup) (s : State env)
      → all_open g.consumers ≡ true
      → IsOpenGroup (rebalance_group env g s).0
  unfolding rebalance_group
  rebalance_group_open g s h = grind (arith, rebalanced_open)

  rebalance_if_due_open :
      (now : ℤ) (g : ActiveConsumerGroup) (s : State env)
      → all_open g.consumers ≡ true
      → IsOpenGroup (rebalance_if_due env now g s).0
  unfolding rebalance_if_due rebalance_group
  rebalance_if_due_open now g s h = grind (arith, rebalanced_open)

  listed_open :
      (name : String) (g : Result ActiveConsumerGroup) (s : State env)
      (more : Method env (Dict ActiveConsumerGroup))
      → IsOpenGroup g
      → ((t : State env) → AreOpen (more t).0)
      → AreOpen (((λ _. (g, s)) >>= λ h. more >>= λ rest. λ t. (ok ((name, h) ∷ rest), t)) s).0
  listed_open name (err e) s more h k = tt
  listed_open name (ok g) s more h k = all_listed name g (more s).0 (more s).1 h (k s)
    where
      all_listed :
          (name : String) (g : ActiveConsumerGroup) (r : Result (Dict ActiveConsumerGroup))
          (t : State env)
          → all_open g.consumers ≡ true
          → AreOpen r
          → AreOpen (((λ _. (r, t)) >>= λ rest. λ u. (ok ((name, g) ∷ rest), u)) t).0
      all_listed name g (err e) t h k = tt
      all_listed name g (ok m) t h k = ground (arith, h, k)

  rebalance_all_open :
      (now : ℤ) (groups : Dict ActiveConsumerGroup) (s : State env)
      → groups_open groups ≡ true
      → AreOpen (rebalance_all env now groups s).0
  unfolding rebalance_all
  rebalance_all_open now [] s h = refl
  rebalance_all_open now ((name, g) ∷ groups) s h =
      let first = rebalance_if_due env now g s in
      listed_open name first.0 first.1 (rebalance_all env now groups)
        (rebalance_if_due_open now g s (ground (arith, h)))
        (λ t. rebalance_all_open now groups t (ground (arith, h)))

  replaced :
      (r : Result (Dict ActiveConsumerGroup)) (t : State env)
      → is_good env t ≡ true
      → AreOpen r
      → is_good env
          (((λ _. (r, t)) >>= λ groups. modify λ u. record u { consumer_groups = groups }) t).1
        ≡ true
  replaced (err e) t h o = h
  replaced (ok groups) t h o = regrouped env t groups h o

  pub process_rebalancing-Keeps : (now : ℤ) → Keeps env (process_rebalancing env now)
  unfolding process_rebalancing
  process_rebalancing-Keeps now s h =
      let r = rebalance_all env now s.consumer_groups s in
      replaced r.0 r.1 (rebalance_all-Same now s.consumer_groups s ∙ h)
        (rebalance_all_open now s.consumer_groups s (opened env s h))
