-- ===== src/Partitions/Manager.antt =====
-- internal/services/topic/partition.go: the manager's state and its methods. A method holds the
-- manager's lock for its whole body; the rebalance that a join or a leave starts in the background
-- is a call of its own.
use pub_sub_go.Base.{
  ℕ, zero, suc, String, Bool, false, Option, none, some, List, [], ◌∷◌, map, Dict, insert, delete,
  lookup, get_elem?, set, ◌==◌, if◌then◌else◌,
}
use pub_sub_go.Base.Int.{ℤ, pos, negsuc, ltb_ℤ}
use pub_sub_go.Base.Words.{add64}
use pub_sub_go.Result.{Result, plain, ok, err, Action}
use pub_sub_go.Partitions.Assign.{Partition, partitions_of}

pub record PartitionAssignment : Type 0 where
  pub topic_name : String
  pub partitions : List Partition
  pub consumer_map : Dict (List ℤ)
  pub last_rebalance : ℤ
  pub rebalancing : Bool

-- The fields of the manager that change.
pub record PartitionManager : Type 0 where
  pub assignments : Dict PartitionAssignment

unfoldable pub new_partition_manager : PartitionManager
new_partition_manager = record { assignments = [] }

-- The `n` partitions from number `i` on.
unfoldable pub fresh_partitions : String → ℤ → ℕ → ℕ → List Partition
fresh_partitions topic_name now i zero = []
fresh_partitions topic_name now i (suc n) =
    record {
      id = pos i;
      topic_name = topic_name;
      message_count = pos 0;
      size = pos 0;
      start_offset = pos 0;
      end_offset = pos 0;
      consumers = [];
      last_activity = now;
      created_at = now;
    }
    ∷ fresh_partitions topic_name now (suc i) n

-- `InitializePartitions`; making a slice of a negative length panics.
unfoldable pub initialize_partitions : String → ℤ → ℤ → PartitionManager → Option PartitionManager
unfolding fresh_partitions
initialize_partitions topic_name (negsuc n) now pm = none
initialize_partitions topic_name (pos n) now pm = some (record {
  assignments =
      insert topic_name
        (record {
          topic_name = topic_name;
          partitions = fresh_partitions topic_name now 0 n;
          consumer_map = [];
          last_rebalance = now;
          rebalancing = false;
        })
        pm.assignments;
})

-- `UpdatePartitionStats`: an unknown topic or partition is left alone, a negative number panics.
unfoldable pub update_partition_stats :
    String → ℤ → ℤ → ℤ → ℤ → PartitionManager → Option PartitionManager
update_partition_stats topic_name (negsuc i) message_count size now pm =
    elim (lookup topic_name pm.assignments) [ none ↦ some pm | some a ↦ none ]
update_partition_stats topic_name (pos i) message_count size now pm =
    elim (lookup topic_name pm.assignments) [
      | none ↦ some pm
      | some a ↦ elim (get_elem? a.partitions i) [
        | none ↦ some pm
        | some p ↦ some (record {
          assignments =
              insert topic_name
                (record a {
                  partitions = set a.partitions i (record p {
                    message_count = add64 p.message_count message_count;
                    size = add64 p.size size;
                    last_activity = now;
                    end_offset =
                        if ltb_ℤ (pos 0) message_count
                        then add64 p.end_offset message_count
                        else p.end_offset;
                  });
                })
                pm.assignments;
        })
      ]
    ]

unfoldable pub cleanup_partitions : String → PartitionManager → PartitionManager
cleanup_partitions topic_name pm = record { assignments = delete topic_name pm.assignments }

-- `AddConsumer`, up to the rebalance that it starts in the background.
unfoldable pub add_consumer : String → String → Action PartitionManager (Unit {0})
add_consumer topic_name consumer_id pm = elim (lookup topic_name pm.assignments) [
  | none ↦ (err (plain ("topic " ∷ topic_name ∷ " not found" ∷ [])), pm)
  | some a ↦ elim (lookup consumer_id a.consumer_map) [
    | some ids ↦ (ok tt, pm)
    | none ↦ (
      ok tt,
      record {
        assignments =
            insert topic_name (record a { consumer_map = insert consumer_id [] a.consumer_map })
              pm.assignments;
      },
    )
  ]
]

abbrev pub without : String → List String → List String
without c [] = []
without c (d ∷ ds) = let rest = without c ds in if d == c then rest else d ∷ rest

-- `RemoveConsumer`, up to the rebalance that it starts in the background.
unfoldable pub remove_consumer : String → String → Action PartitionManager (Unit {0})
remove_consumer topic_name consumer_id pm = elim (lookup topic_name pm.assignments) [
  | none ↦ (err (plain ("topic " ∷ topic_name ∷ " not found" ∷ [])), pm)
  | some a ↦ (
    ok tt,
    record {
      assignments =
          insert topic_name
            (record a {
              consumer_map = delete consumer_id a.consumer_map;
              partitions =
                  map {A = Partition}
                    (λ p. record p { consumers = without consumer_id p.consumers }) a.partitions;
            })
            pm.assignments;
    },
  )
]

unfoldable pub get_consumer_partitions : String → String → PartitionManager → Result (List ℤ)
unfolding partitions_of
get_consumer_partitions topic_name consumer_id pm = elim (lookup topic_name pm.assignments) [
  | none ↦ err (plain ("topic " ∷ topic_name ∷ " not found" ∷ []))
  | some a ↦ ok (partitions_of consumer_id a.consumer_map)
]
