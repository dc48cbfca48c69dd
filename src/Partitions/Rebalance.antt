-- ===== src/Partitions/Rebalance.antt =====
-- internal/services/topic/partition.go: rebalancing a topic.
use pub_sub_go.Base.{
  String, Bool, true, false, not, ◌&&◌, Option, none, some, List, [], ◌∷◌, ◌++◌, Dict, insert,
  lookup, length, get_elem?, set, ◌==◌, if◌then◌else◌,
}
use pub_sub_go.Base.Options.{◌>>=◌}
use pub_sub_go.Base.Int.{ℤ, pos, negsuc, eqb_ℤ}
use pub_sub_go.Result.{Result, plain, ok, err}
use pub_sub_go.Partitions.Assign.{Partition, partitions_of, calculate_optimal_assignment}
use pub_sub_go.Partitions.Manager.{PartitionAssignment, PartitionManager}

pub record PartitionRebalance : Type 0 where
  pub partition_id : ℤ
  pub from_consumer : String
  pub to_consumer : String
  pub messages_moved : ℤ
  pub status : String

pub record RebalanceResult : Type 0 where
  pub topic_name : String
  pub success : Bool
  pub started_at : ℤ
  pub completed_at : ℤ
  pub status : String
  pub partitions_moved : ℤ
  pub details : List PartitionRebalance

abbrev pub mem_id : ℤ → List ℤ → Bool
mem_id id [] = false
mem_id id (j ∷ ids) = if eqb_ℤ j id then true else mem_id id ids

-- The last other consumer in the map that has the partition.
unfoldable pub previous_consumer : ℤ → String → Dict (List ℤ) → String → String
previous_consumer id consumer_id [] found = found
previous_consumer id consumer_id ((c, ids) ∷ m) found =
    previous_consumer id consumer_id m
      (if mem_id id ids && not (c == consumer_id) then c else found)

-- `assignment.Partitions[partitionID]`; `none` is the panic of an index out of range.
abbrev pub partition_at : ℤ → List Partition → Option Partition
partition_at (pos i) ps = get_elem? ps i
partition_at (negsuc i) ps = none

-- The details of the partitions of a consumer that were not its own before.
unfoldable pub moved :
    String → List ℤ → List Partition → Dict (List ℤ) → List ℤ → Option (List PartitionRebalance)
unfolding previous_consumer
moved consumer_id old ps m [] = some []
moved consumer_id old ps m (id ∷ ids) =
    let rest = moved consumer_id old ps m ids in
    if mem_id id old then rest else do
      p ← partition_at id ps
      details ← rest
      some (
          record {
            partition_id = id;
            from_consumer = previous_consumer id consumer_id m "";
            to_consumer = consumer_id;
            messages_moved = p.message_count;
            status = "completed";
          }
          ∷ details)

-- The references of the partitions to the consumer; a negative index panics.
unfoldable pub referred : String → List ℤ → List Partition → Option (List Partition)
referred consumer_id [] ps = some ps
referred consumer_id (negsuc i ∷ ids) ps = none
referred consumer_id (pos i ∷ ids) ps = referred consumer_id ids (elim (get_elem? ps i) [
  | none ↦ ps
  | some p ↦ set ps i (record p { consumers = consumer_id ∷ [] })
])

-- One consumer after the other: the map, the partitions and the details.
unfoldable pub apply_assignment :
    Dict (List ℤ)
    → PartitionAssignment
    → List PartitionRebalance
    → Option (PartitionAssignment × List PartitionRebalance)
unfolding moved referred
apply_assignment [] a details = some (a, details)
apply_assignment ((consumer_id, ids) ∷ rest) a details = do
  found ←
      moved consumer_id (partitions_of consumer_id a.consumer_map) a.partitions a.consumer_map ids
  ps ← referred consumer_id ids a.partitions
  apply_assignment rest
      (record a { consumer_map = insert consumer_id ids a.consumer_map; partitions = ps })
      (details ++ found)

-- The keys of the map of consumers.
abbrev pub consumers_of : Dict (List ℤ) → List String
consumers_of [] = []
consumers_of ((c, ids) ∷ m) = c ∷ consumers_of m

-- `RebalancePartitions` on what the topic's name is looked up to; `none` is a panic.
unfoldable pub rebalance_found :
    String
    → ℤ
    → ℤ
    → PartitionManager
    → Option PartitionAssignment
    → Option (Result RebalanceResult × PartitionManager)
unfolding calculate_optimal_assignment apply_assignment
rebalance_found topic_name started completed pm none =
    some (err (plain ("topic " ∷ topic_name ∷ " not found" ∷ [])), pm)
rebalance_found topic_name started completed pm (some a) =
    if a.rebalancing
    then some (err (plain ("rebalancing already in progress for topic " ∷ topic_name ∷ [])), pm)
    else do
      done ←
          apply_assignment (calculate_optimal_assignment a.partitions (consumers_of a.consumer_map))
            a []
      some (
        ok (record {
          topic_name = topic_name;
          success = true;
          started_at = started;
          completed_at = completed;
          status = "completed";
          partitions_moved = pos (length done.1);
          details = done.1;
        }),
        record {
          assignments =
              insert topic_name (record done.0 { rebalancing = false; last_rebalance = completed })
                pm.assignments;
        },
      )

unfoldable pub rebalance_partitions :
    String → ℤ → ℤ → PartitionManager → Option (Result RebalanceResult × PartitionManager)
unfolding rebalance_found
rebalance_partitions topic_name started completed pm =
    rebalance_found topic_name started completed pm (lookup topic_name pm.assignments)
