-- ===== src/Core/Consumer/Group.antt =====
-- The size of a consumer group, and what `NeedsRebalance` decides.
use pub_sub_go.Base.{
  ◌+◌, ◌≡◌, refl, ◌⊎◌, inl, inr, String, Bool, true, false, List, [], ◌∷◌, Dict, lookup,
  lookup-insert, length-insert-le, length-delete-le, length, arith, if◌then◌else◌, Bool-cases, some,
  eq_refl,
}
use pub_sub_go.Base.Int.{ℤ, pos, ◌≤ℤ◌, leb_ℤ}
use pub_sub_go.Core.Consumer.{
  Consumer, ConsumerGroup, new_consumer_group, add_consumer, remove_consumer, is_dead,
  is_rebalancing, needs_rebalance, needs_rebalance_of,
}

-- The group is within its limit.
abbrev pub IsWithin : ConsumerGroup → Type 0
IsWithin g = pos (length g.consumers) ≤ℤ g.max_consumers

-- A change to a group: a consumer comes or goes.
pub data Change : Type 0 where
  joins : Consumer → ℤ → Change
  leaves : String → ℤ → Change

unfoldable pub apply : ConsumerGroup → Change → ConsumerGroup
apply g (joins c now) = (add_consumer g c now).0
apply g (leaves id now) = remove_consumer g id now

unfoldable pub apply_all : ConsumerGroup → List Change → ConsumerGroup
unfolding apply
apply_all g [] = g
apply_all g (c ∷ cs) = apply_all (apply g c) cs

apply-IsWithin : (g : ConsumerGroup) (c : Change) → IsWithin g → IsWithin (apply g c)
unfolding apply add_consumer remove_consumer
apply-IsWithin g (joins c now) h = ground (arith, length-insert-le c.id c g.consumers)
apply-IsWithin g (leaves id now) h = omega (arith, length-delete-le id g.consumers)

apply_all-IsWithin : (g : ConsumerGroup) (cs : List Change) → IsWithin g → IsWithin (apply_all g cs)
unfolding apply_all
apply_all-IsWithin g [] h = h
apply_all-IsWithin g (c ∷ cs) h = apply_all-IsWithin (apply g c) cs (apply-IsWithin g c h)

-- However consumers join and leave a new group, it never holds more than its limit of 100.
new_group-IsWithin :
    (name topic : String) (now : ℤ) (cs : List Change)
    → IsWithin (apply_all (new_consumer_group name topic now) cs)
unfolding new_consumer_group
new_group-IsWithin name topic now cs =
    apply_all-IsWithin (new_consumer_group name topic now) cs (omega arith)

-- A join is refused exactly when the group is at its limit, and then changes nothing; one that is
-- accepted leaves the consumer to be found under its ID.
pub add_consumer_result :
    (g : ConsumerGroup) (c : Consumer) (now : ℤ)
    → ((g.max_consumers ≤ℤ pos (length g.consumers)) × (add_consumer g c now ≡ (g, false)))
      ⊎ ((pos (length g.consumers + 1) ≤ℤ g.max_consumers)
          × ((add_consumer g c now).1 ≡ true)
          × (lookup c.id (add_consumer g c now).0.consumers ≡ some c))
unfolding add_consumer
add_consumer_result g c now = elim (Bool-cases (leb_ℤ g.max_consumers (pos (length g.consumers)))) [
  | inl e ↦ inl (ground arith, rw e)
  | inr e ↦ inr (ground arith, rw e, rw (e, lookup-insert, eq_refl))
]

-- Some consumer of the dictionary meets the test.
abbrev pub any : (Consumer → Bool) → Dict Consumer → Bool
any p [] = false
any p ((k, c) ∷ rest) = let more = any p rest in if p c then true else more

-- With no consumer in the middle of a rebalance, one is needed exactly when some consumer is dead.
pub needs_rebalance-any_dead :
    (g : ConsumerGroup) (now : ℤ)
    → any (λ c. is_rebalancing c.status) g.consumers ≡ false
    → needs_rebalance g now ≡ any (is_dead now) g.consumers
unfolding needs_rebalance
needs_rebalance-any_dead g now h = go g.consumers h
  where
    go :
        (m : Dict Consumer)
        → any (λ c. is_rebalancing c.status) m ≡ false
        → needs_rebalance_of now m ≡ any (is_dead now) m
    go [] h = refl
    go ((k, c) ∷ m) h = ground (arith, go m)

-- With a dead consumer and one in the middle of a rebalance, the answer is decided by the order in
-- which the map is iterated.
pub needs_rebalance_order :
    (g : ConsumerGroup) (now : ℤ) (k j : String) (a b : Consumer)
    → is_dead now a ≡ true
    → is_rebalancing a.status ≡ false
    → is_rebalancing b.status ≡ true
    → (needs_rebalance (record g { consumers = (k, a) ∷ (j, b) ∷ [] }) now ≡ true)
      × (needs_rebalance (record g { consumers = (j, b) ∷ (k, a) ∷ [] }) now ≡ false)
unfolding needs_rebalance
needs_rebalance_order g now k j a b dead still moving = (rw (still, dead), rw moving)
