-- ===== src/Topics/Balance.antt =====
-- internal/services/topic/partition.go: `GetPartitionInfo` and how even the partitions' loads are.
use Prim.Native.String.{◌++◌}
use pub_sub_go.Base.{
  String, true, false, Option, none, some, List, [], ◌∷◌, map, length, lookup, if◌then◌else◌,
}
use pub_sub_go.Base.Int.{pos}
use pub_sub_go.Base.Words.{int32}
use pub_sub_go.Result.{Result, ok, err, plain}
use pub_sub_go.Partitions.Assign.{Partition}
use pub_sub_go.Partitions.Manager.{PartitionAssignment, PartitionManager}
use pub_sub_go.Topics.Types.{Floats, PartitionStats, LoadBalanceInfo, PartitionInfo}

unfoldable pub partition_stats : Partition → PartitionStats
partition_stats p = record {
  id = p.id;
  message_count = p.message_count;
  size = p.size;
  start_offset = p.start_offset;
  end_offset = p.end_offset;
  active_consumers = length p.consumers;
  last_activity = p.last_activity;
}

module _ (floats : Floats) where
  open floats use {Float, of_int, tenths, add, sub, mul, div, sqrt, ge, le, eq, percent}

  -- Messages and kilobytes.
  unfoldable pub load : Partition → Float
  load p = add (of_int p.message_count) (div (of_int p.size) (of_int (pos 1024)))

  abbrev pub sum : Float → List Float → Float
  sum x [] = x
  sum x (y ∷ ys) = sum (add x y) ys

  abbrev pub squares : Float → List Float → List Float
  squares avg [] = []
  squares avg (x ∷ xs) = mul (sub x avg) (sub x avg) ∷ squares avg xs

  abbrev pub balanced : LoadBalanceInfo Float
  balanced = record {
    is_balanced = true;
    imbalance_ratio = of_int (pos 0);
    recommend_rebalance = false;
    reason = "";
  }

  -- What a ratio of the standard deviation to the mean says.
  unfoldable pub judged : Float → LoadBalanceInfo Float
  judged ratio =
      let even = le ratio (tenths (pos 1)) in
      let advised = ge ratio (tenths (pos 3)) in
      record {
        is_balanced = even;
        imbalance_ratio = ratio;
        recommend_rebalance = advised;
        reason =
            if even
            then ""
            else if advised
            then "High load imbalance detected (" ++ percent ratio ++ "). Rebalancing recommended."
            else "Moderate load imbalance detected (" ++ percent ratio ++ ").";
      }

  unfoldable pub calculate_load_balance : PartitionAssignment → LoadBalanceInfo Float
  unfolding load judged
  calculate_load_balance a =
      let zero_load = of_int (pos 0) in
      let loads = map load a.partitions in
      let n = of_int (pos (length loads)) in
      let total = sum zero_load loads in
      let avg = div total n in
      elim a.partitions [
        | [] ↦ balanced
        | p ∷ ps ↦
            if eq total zero_load
            then balanced
            else judged (div (sqrt (div (sum zero_load (squares avg loads)) n)) avg)
      ]

  unfoldable pub info_found : String → Option PartitionAssignment → Result (PartitionInfo Float)
  unfolding calculate_load_balance partition_stats
  info_found topic_name none = err (plain ("topic " ∷ topic_name ∷ " not found" ∷ []))
  info_found topic_name (some a) = ok (record {
    topic_name = topic_name;
    total_partitions = int32 (pos (length a.partitions));
    partitions = map partition_stats a.partitions;
    load_balance = calculate_load_balance a;
  })

  unfoldable pub get_partition_info : String → PartitionManager → Result (PartitionInfo Float)
  unfolding info_found
  get_partition_info topic_name pm = info_found topic_name (lookup topic_name pm.assignments)
