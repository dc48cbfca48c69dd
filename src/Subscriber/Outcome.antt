-- ===== src/Subscriber/Outcome.antt =====
-- What a pull hands out, what a join and a rebalance do to a group, and what the cleanup leaves.
use pub_sub_go.Base.{
  ℕ, suc, ◌^◌, ◌<◌, ◌≡◌, refl, ap, ◌∙◌, String, Bool, true, false, not, ◌&&◌, Option, none, some,
  List, [], ◌∷◌, ◌++◌, map, Dict, lookup, insert, lookup-insert, lookup-insert_self, eq_iff, length,
  arith,
}
use pub_sub_go.Base.Int.{ℤ, pos, eqb_ℤ, eqb_ℤ_iff, ◌≤ℤ◌, ◌<ℤ◌}
use pub_sub_go.Core.Message.{Message, is_expired, is_delivered}
use pub_sub_go.Core.Consumer.{Consumer}
use pub_sub_go.Core.Topic.{Topic}
use pub_sub_go.Result.{ok, err, plain}
use pub_sub_go.Subscriber.Types.{
  PullRequest, PullResponse, JoinGroupRequest, JoinGroupResponse, ActiveSubscription,
  ActiveConsumer, ActiveConsumerGroup, store, Env,
}
use pub_sub_go.Subscriber.Pull.{
  State, pull, page, deliver_page, marked, validate_pull_request, valid_messages,
}
use pub_sub_go.Subscriber.Subscriptions.{unsubscribe, listed_entry}
use pub_sub_go.Subscriber.Push.{
  cleanup_inactive_subscriptions, delist_idle, is_idle, idle_ids, cancel_workers, cancel_listed,
}
use pub_sub_go.Subscriber.Rebalance.{shares, rebalance_consumer_group}
use pub_sub_go.Subscriber.Shares.{all_partitions, range, rebalance-all_partitions}
use pub_sub_go.Subscriber.Groups.{
  join_consumer_group, join_as, joined_in, enter, trigger_rebalance, update_group, to_rebalance,
}
use pub_sub_go.Subscriber.Workers.{rebalance_group, rebalanced, with_given, plain_consumers}

-- Each message is marked as delivered now, and has not expired.
abbrev pub all_delivered : ℤ → List Message → Bool
all_delivered now [] = true
all_delivered now (m ∷ ms) =
    let rest = all_delivered now ms in not (is_expired m now) && (is_delivered m.status && rest)

marked-all_delivered :
    (id : String) (now : ℤ) (ms : List Message)
    → all_delivered now (map (marked id now) (valid_messages now ms)) ≡ true
unfolding valid_messages is_expired
marked-all_delivered id now [] = refl
marked-all_delivered id now (m ∷ ms) = ground (arith, marked-all_delivered id now ms)

lookup-delist :
    (id : String) (now : ℤ) (m : Dict ActiveSubscription) (a : ActiveSubscription)
    → lookup id m ≡ some a
    → is_idle now a ≡ true
    → lookup id (delist_idle now m) ≡ some (record a { listed = false })
unfolding lookup delist_idle
lookup-delist id now [] a e idle = cc
lookup-delist id now ((other, b) ∷ m) a e idle = ground (arith, lookup-delist id now m a)

-- The struct of an entry that the map has no more is as it was after any workers were cancelled.
unlisted-cancel_workers :
    (id : String) (b : ActiveSubscription) (ids : List String) (m : Dict ActiveSubscription)
    → b.listed ≡ false
    → lookup id m ≡ some b
    → lookup id (cancel_workers ids m) ≡ some b
unfolding cancel_workers cancel_listed listed_entry
unlisted-cancel_workers id b [] m out e = e
unlisted-cancel_workers id b (other ∷ ids) m out e =
    unlisted-cancel_workers id b ids (cancel_listed other m (listed_entry (lookup other m))) out
      (unlisted-cancel_listed id other b m (lookup other m) out e refl)
  where
    unlisted-cancel_listed :
        (id other : String) (b : ActiveSubscription) (m : Dict ActiveSubscription)
        (o : Option ActiveSubscription)
        → b.listed ≡ false
        → lookup id m ≡ some b
        → lookup other m ≡ o
        → lookup id (cancel_listed other m (listed_entry o)) ≡ some b
    unlisted-cancel_listed id other b m none out e f = e
    unlisted-cancel_listed id other b m (some a) out e f = grind (
      arith,
      e,
      f,
      out,
      lookup-insert other id (record a { cancelled = true }) m,
      eq_iff other id,
    )

-- The partitions that active consumers have, one consumer after the other.
abbrev pub held : Dict ActiveConsumer → List ℤ
held [] = []
held ((id, c) ∷ m) = c.consumer.partitions ++ held m

held-with_given :
    (m : Dict ActiveConsumer) (given : List Consumer)
    → length given ≡ length m
    → held (with_given m given) ≡ all_partitions given
unfolding with_given
held-with_given [] [] e = refl
held-with_given [] (g ∷ given) e = absurd (omega arith)
held-with_given ((id, c) ∷ m) [] e = absurd (omega arith)
held-with_given ((id, c) ∷ m) (g ∷ given) e =
    ap (λ l. g.partitions ++ l) (held-with_given m given (omega arith))

length-plain : (m : Dict ActiveConsumer) → length (plain_consumers m) ≡ length m
length-plain [] = refl
length-plain ((id, c) ∷ m) = ap suc (length-plain m)

length-shares :
    (per extra i : ℕ) (k : ℤ) (cs : List Consumer) → length (shares per extra i k cs) ≡ length cs
unfolding shares
length-shares per extra i k [] = refl
length-shares per extra i k (c ∷ cs) = ap suc (length-shares per extra (suc i) _ cs)

rebalanced-held :
    (p : ℕ) (entry : String × ActiveConsumer) (rest : Dict ActiveConsumer)
    → p < 2 ^ 31
    → held (rebalanced (pos p) (entry ∷ rest)) ≡ range 0 p
unfolding rebalanced rebalance_consumer_group
rebalanced-held p (id, c) rest small =
    let m = (id, c) ∷ rest in
    held-with_given m (rebalance_consumer_group (pos p) (plain_consumers m))
      (length-shares _ _ 0 (pos 0) (plain_consumers m) ∙ length-plain m)
    ∙ rebalance-all_partitions p c.consumer (plain_consumers rest) small

-- A consumer is there and last pulled at the instant; a group is there, waits for a rebalance, and
-- has such a consumer.
abbrev pub pulled_at : ℤ → Option ActiveConsumer → Bool
pulled_at now none = false
pulled_at now (some c) = eqb_ℤ c.last_pull now

abbrev pub awaits : String → ℤ → Option ActiveConsumerGroup → Bool
awaits id now none = false
awaits id now (some g) = g.rebalancing && pulled_at now (lookup id g.consumers)

unfoldable pub has_joined : String → String → ℤ → Dict ActiveConsumerGroup → Bool
has_joined name id now groups = awaits id now (lookup name groups)

entered-has_joined :
    (name id : String) (now : ℤ) (g : ActiveConsumerGroup) (c : ActiveConsumer)
    (groups : Dict ActiveConsumerGroup)
    → c.last_pull ≡ now
    → has_joined name id now (
        update_group name to_rebalance
          (insert name (record g { consumers = insert id c g.consumers }) groups))
      ≡ true
unfolding update_group has_joined
entered-has_joined name id now g c groups e = grind (arith, lookup-insert_self, eqb_ℤ_iff)

module _ {V : Type 0} (env : Env V) where
  -- A pull with a deadline for the acknowledgment that returns has a limit from 1 to 1000. Its
  -- messages have not expired and are marked as delivered, and each is left to a task to be stored.
  pub pull-all_delivered :
      (req : PullRequest) (now : ℤ) (s : State env) (resp : PullResponse)
      → pos 0 <ℤ req.ack_deadline
      → (pull env req now s).0 ≡ ok resp
      → (pos 1 ≤ℤ req.limit)
        × (req.limit ≤ℤ pos 1000)
        × (all_delivered now resp.messages ≡ true)
        × ((pull env req now s).1.tasks ≡ s.tasks ++ map store resp.messages)
  unfolding pull deliver_page validate_pull_request page
  pull-all_delivered req now s resp deadline h = grind (arith, marked-all_delivered)

  -- The cleanup takes an idle subscription out of the service's reach: it cannot be unsubscribed any
  -- more. Its worker is not cancelled, although the cleanup goes through the workers of the idle
  -- subscriptions: the struct is as it was, but for its listing.
  pub cleanup_strands :
      (id : String) (now later : ℤ) (s : State env) (a : ActiveSubscription)
      → lookup id s.subscriptions ≡ some a
      → is_idle now a ≡ true
      → (lookup id (cleanup_inactive_subscriptions env now s).subscriptions
          ≡ some (record a { listed = false }))
        × ((unsubscribe env id later (cleanup_inactive_subscriptions env now s)).0
            ≡ err (plain ("subscription " ∷ id ∷ " not found" ∷ [])))
  unfolding cleanup_inactive_subscriptions unsubscribe listed_entry
  cleanup_strands id now later s a e idle = grind (
    arith,
    unlisted-cancel_workers id (record a { listed = false }) (idle_ids now s.subscriptions)
        (delist_idle now s.subscriptions) refl (lookup-delist id now s.subscriptions a e idle),
  )

  -- When a group with a consumer or more is rebalanced and its topic can be read, its consumers
  -- together have each of the topic's partitions exactly once.
  pub rebalance_group-held :
      (g : ActiveConsumerGroup) (entry : String × ActiveConsumer) (rest : Dict ActiveConsumer)
      (s : State env) (t : Topic V) (p : ℕ)
      → g.consumers ≡ entry ∷ rest
      → (env.topic_repo.get g.group.topic s.topics).0 ≡ ok t
      → t.partitions ≡ pos p
      → p < 2 ^ 31
      → (h : ActiveConsumerGroup) × ((rebalance_group env g s).0 ≡ ok h)
        × (held h.consumers ≡ range 0 p)
  unfolding rebalance_group rebalanced
  rebalance_group-held g entry rest s t p e read n small = (
    record g { consumers = rebalanced t.partitions g.consumers },
    ground (arith, e, read),
    rw (n, e) (rebalanced-held p entry rest small),
  )

  -- After a join that returns, the service's group has the consumer under the ID of the response,
  -- with the instant of the join as its last pull, and waits for a rebalance.
  pub join-has_joined :
      (req : JoinGroupRequest) (now : ℤ) (s : State env) (resp : JoinGroupResponse)
      → (join_consumer_group env req now s).0 ≡ ok resp
      → has_joined req.consumer_group resp.consumer_id now
          (join_consumer_group env req now s).1.consumer_groups
        ≡ true
  unfolding join_consumer_group join_as joined_in enter trigger_rebalance
  join-has_joined req now s resp h = grind (arith, entered-has_joined)
