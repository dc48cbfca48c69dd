-- ===== src/Subscriber/Rebalance.antt =====
-- internal/services/subscriber/workers.go and subscriber.go: which partitions a group's consumers are
-- given, and which messages a consumer is given.
use pub_sub_go.Base.{
  ℕ, zero, suc, ◌/◌, ◌%◌, String, Bool, true, List, [], ◌∷◌, ◌++◌, length, ltb, if◌then◌else◌,
}
use pub_sub_go.Base.Int.{ℤ, pos, pos_part, ◌+ℤ◌, eqb_ℤ, rem_ℤ}
use pub_sub_go.Base.Words.{int32}
use pub_sub_go.Core.Consumer.{Consumer, ConsumerGroup}
use pub_sub_go.Core.Message.{Message}
use pub_sub_go.Publisher.Hash.{hash}

-- `partitionIndex++` on `int32`
abbrev pub inc32 : ℤ → ℤ
inc32 k = int32 (k +ℤ pos 1)

-- The loop over a consumer's base partitions: `n` indices from `k` on, and the next index.
unfoldable pub base_partitions : ℕ → ℤ → List ℤ × ℤ
base_partitions zero k = ([], k)
base_partitions (suc n) k = let rest = base_partitions n (inc32 k) in (k ∷ rest.0, rest.1)

-- The partitions of consumer number `i`, and the next index.
unfoldable pub share : ℕ → ℕ → ℕ → ℤ → List ℤ × ℤ
unfolding base_partitions
share per_consumer extra i k =
    let b = base_partitions per_consumer k in
    if ltb i extra then (b.0 ++ b.1 ∷ [], inc32 b.1) else b

unfoldable pub shares : ℕ → ℕ → ℕ → ℤ → List Consumer → List Consumer
unfolding share
shares per_consumer extra i k [] = []
shares per_consumer extra i k (c ∷ cs) =
    let s = share per_consumer extra i k in
    record c { partitions = s.0 } ∷ shares per_consumer extra (suc i) s.1 cs

-- `rebalanceConsumerGroup`, on the consumers in the order in which the map is read. A negative
-- number of partitions gives loops that do not run, as zero does.
unfoldable pub rebalance_consumer_group : ℤ → List Consumer → List Consumer
unfolding shares
rebalance_consumer_group partitions [] = []
rebalance_consumer_group partitions (c ∷ cs) =
    let n = suc (length cs) in
    shares (pos_part partitions / n) (pos_part partitions % n) 0 (pos 0) (c ∷ cs)

-- `shouldAssignToConsumer`; `text_bytes` is `[]byte(s)`.
unfoldable pub should_assign_to_consumer :
    (String → List ℕ) → Message → String → ConsumerGroup → Bool
unfolding hash
should_assign_to_consumer text_bytes m consumer_id g =
    if eqb_ℤ (pos (length g.consumers)) (pos 0)
    then true
    else eqb_ℤ (rem_ℤ (hash (text_bytes consumer_id)) (length g.consumers))
        (rem_ℤ m.partition (length g.consumers))
