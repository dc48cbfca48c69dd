-- ===== src/Subscriber/Channels.antt =====
-- The channels of the consumers of groups: those of listed consumers stay open.
use pub_sub_go.Base.{
  ◌≡◌, refl, String, Bool, true, false, not, ◌&&◌, some, List, [], ◌∷◌, Dict, insert, delete,
  lookup, arith, eq_refl,
}
use pub_sub_go.Base.Int.{ℤ}
use pub_sub_go.Core.Consumer.{Consumer, ConsumerGroup}
use pub_sub_go.Subscriber.Types.{ActiveConsumer, ActiveConsumerGroup}
use pub_sub_go.Subscriber.Pull.{touch}
use pub_sub_go.Subscriber.Rebalance.{rebalance_consumer_group}
use pub_sub_go.Subscriber.Groups.{
  group_or_new, removed_from, left_by, leave_panics, to_rebalance, update_group,
}
use pub_sub_go.Subscriber.Workers.{with_given, rebalanced, plain_consumers}

abbrev pub all_open : Dict ActiveConsumer → Bool
all_open [] = true
all_open ((id, c) ∷ m) = let more = all_open m in not c.closed && more

abbrev pub groups_open : Dict ActiveConsumerGroup → Bool
groups_open [] = true
groups_open ((name, g) ∷ m) = let more = groups_open m in all_open g.consumers && more

insert_open :
    (id : String) (c : ActiveConsumer) (m : Dict ActiveConsumer)
    → c.closed ≡ false
    → all_open m ≡ true
    → all_open (insert id c m) ≡ true
unfolding insert
insert_open id c [] hc hm = ground arith
insert_open id c ((other, d) ∷ m) hc hm = ground (arith, insert_open id c m)

delete_open :
    (id : String) (m : Dict ActiveConsumer) → all_open m ≡ true → all_open (delete id m) ≡ true
unfolding delete
delete_open id [] h = refl
delete_open id ((other, d) ∷ m) h = ground (arith, delete_open id m)

closed_and_deleted :
    (id : String) (c : ActiveConsumer) (m : Dict ActiveConsumer)
    → all_open m ≡ true
    → all_open (delete id (insert id c m)) ≡ true
unfolding insert delete
closed_and_deleted id c [] h = ground (arith, eq_refl id)
closed_and_deleted id c ((other, d) ∷ m) h =
    ground (arith, eq_refl id, closed_and_deleted id c m, delete_open id m)

found_open :
    (id : String) (c : ActiveConsumer) (m : Dict ActiveConsumer)
    → all_open m ≡ true
    → lookup id m ≡ some c
    → c.closed ≡ false
unfolding lookup
found_open id c [] h e = cc
found_open id c ((other, d) ∷ m) h e = ground (arith, found_open id c m)

pub group_inserted :
    (name : String) (g : ActiveConsumerGroup) (m : Dict ActiveConsumerGroup)
    → all_open g.consumers ≡ true
    → groups_open m ≡ true
    → groups_open (insert name g m) ≡ true
unfolding insert
group_inserted name g [] hg hm = ground arith
group_inserted name g ((other, d) ∷ m) hg hm = ground (arith, group_inserted name g m)

pub group_found :
    (name : String) (g : ActiveConsumerGroup) (m : Dict ActiveConsumerGroup)
    → groups_open m ≡ true
    → lookup name m ≡ some g
    → all_open g.consumers ≡ true
unfolding lookup
group_found name g [] h e = cc
group_found name g ((other, d) ∷ m) h e = ground (arith, group_found name g m)

-- A change that keeps the channels of a group open keeps those of all groups open.
pub group_updated :
    (name : String) (f : ActiveConsumerGroup → ActiveConsumerGroup) (m : Dict ActiveConsumerGroup)
    → ((g : ActiveConsumerGroup) → all_open g.consumers ≡ true → all_open (f g).consumers ≡ true)
    → groups_open m ≡ true
    → groups_open (update_group name f m) ≡ true
unfolding update_group
group_updated name f m k h = grind (arith, group_inserted, group_found, k)

pub left_open :
    (id : String) (g : ActiveConsumerGroup)
    → all_open g.consumers ≡ true
    → all_open (to_rebalance (left_by id g)).consumers ≡ true
unfolding left_by
left_open id g h = grind (arith, closed_and_deleted)

pub leave_returns :
    (name id : String) (m : Dict ActiveConsumerGroup)
    → groups_open m ≡ true
    → leave_panics id (lookup name m) ≡ false
unfolding leave_panics
leave_returns name id m h = grind (arith, group_found, found_open)

pub removed_open :
    (id : String) (g : ActiveConsumerGroup)
    → all_open g.consumers ≡ true
    → all_open (removed_from id g).consumers ≡ true
removed_open id g h = delete_open id g.consumers h

pub touched_open :
    (id : String) (now : ℤ) (g : ActiveConsumerGroup)
    → all_open g.consumers ≡ true
    → all_open (touch id now g).consumers ≡ true
unfolding touch
touched_open id now g h = grind (arith, insert_open, found_open)

pub entered_open :
    (name : String) (group : ConsumerGroup) (c : ActiveConsumer) (m : Dict ActiveConsumerGroup)
    → c.closed ≡ false
    → groups_open m ≡ true
    → all_open (insert c.consumer.id c (group_or_new group (lookup name m)).consumers) ≡ true
unfolding group_or_new
entered_open name group c m hc h = grind (arith, insert_open, group_found)

given_open :
    (m : Dict ActiveConsumer) (given : List Consumer) → all_open (with_given m given) ≡ all_open m
unfolding with_given
given_open [] given = refl
given_open (entry ∷ m) [] = refl
given_open ((id, c) ∷ m) (g ∷ given) = ground (arith, given_open m given)

pub rebalanced_open :
    (partitions : ℤ) (m : Dict ActiveConsumer) → all_open (rebalanced partitions m) ≡ all_open m
unfolding rebalanced
rebalanced_open partitions m =
    given_open m (rebalance_consumer_group partitions (plain_consumers m))
