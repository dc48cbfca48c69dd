-- ===== src/Partitions/Tests.antt =====
-- The theorems on partitions at concrete inputs, and a rebalance of a small topic.
use pub_sub_go.Base.{ℕ, ◌≡◌, refl, some, List, [], ◌∷◌, arith, lookup, insert, false}
use pub_sub_go.Base.Int.{ℤ, pos, ◌≤ℤ◌, ◌<ℤ◌}
use pub_sub_go.Partitions.Assign.{
  Partition, assign_partition, partitions_of, calculate_optimal_assignment,
}
use pub_sub_go.Result.{Result}
use pub_sub_go.Partitions.Manager.{PartitionAssignment, PartitionManager}
use pub_sub_go.Partitions.Rebalance.{RebalanceResult, rebalance_partitions}
use pub_sub_go.Partitions.Safety.{rebalance_partitions-some}
use pub_sub_go.Partitions.RoundRobin.{turns_of, assign_partition_range, optimal-turns_of}

abbrev partition : ℕ → Partition
partition i = record {
  id = pos i;
  topic_name = "orders";
  message_count = pos 0;
  size = pos 0;
  start_offset = pos 0;
  end_offset = pos 0;
  consumers = [];
  last_activity = pos 0;
  created_at = pos 0;
}

abbrev three : List Partition
three = partition 0 ∷ partition 1 ∷ partition 2 ∷ []

round_robin :
    calculate_optimal_assignment three ("a" ∷ "b" ∷ [])
    ≡ ("a", pos 0 ∷ pos 2 ∷ []) ∷ ("b", pos 1 ∷ []) ∷ []
unfolding calculate_optimal_assignment lookup insert partitions_of
round_robin = refl

assign_partition_range_example :
    (r : ℤ) × (assign_partition (λ key. 4294967295) (7 ∷ []) (pos 3) (pos 5) ≡ some r)
    × (pos 0 ≤ℤ r)
    × (r <ℤ pos 3)
assign_partition_range_example =
    assign_partition_range (λ key. 4294967295) (7 ∷ []) 2 (pos 5) (omega arith)

optimal-turns_of_example :
    partitions_of "a" (calculate_optimal_assignment three ("a" ∷ "b" ∷ []))
    ≡ turns_of ("a" ∷ "b" ∷ []) 0 "a" three
optimal-turns_of_example = optimal-turns_of "a" ("b" ∷ []) "a" three

abbrev assignment : PartitionAssignment
assignment = record {
  topic_name = "orders";
  partitions = three;
  consumer_map = ("a", pos 0 ∷ []) ∷ ("b", []) ∷ [];
  last_rebalance = pos 0;
  rebalancing = false;
}

abbrev manager : PartitionManager
manager = record { assignments = ("orders", assignment) ∷ [] }

rebalance_partitions-some_example :
    (r : Result RebalanceResult × PartitionManager) × (rebalance_partitions "orders"
        (pos 1)
        (pos 2)
        manager
      ≡ some r)
unfolding lookup
rebalance_partitions-some_example =
    rebalance_partitions-some "orders" (pos 1) (pos 2) manager assignment refl
      ((omega arith, omega arith), ((omega arith, omega arith), ((omega arith, omega arith), tt)))
