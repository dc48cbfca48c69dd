-- ===== src/Partitions/Assign.antt =====
-- internal/services/topic/partition.go: the partition of a message, and the partitions of consumers.
use pub_sub_go.Base.{
  ℕ, zero, suc, ◌%◌, String, Option, none, some, List, [], ◌∷◌, ◌++◌, Dict, insert, lookup, length,
  get_or, ltb, if◌then◌else◌,
}
use pub_sub_go.Base.Int.{ℤ, pos, ◌+ℤ◌, ltb_ℤ, rem_ℤ}
use pub_sub_go.Base.Words.{int32}
use pub_sub_go.Publisher.Hash.{magnitude}

pub record Partition : Type 0 where
  pub id : ℤ
  pub topic_name : String
  pub message_count : ℤ
  pub size : ℤ
  pub start_offset : ℤ
  pub end_offset : ℤ
  pub consumers : List String
  pub last_activity : ℤ
  pub created_at : ℤ

-- A remainder, moved into the range from 0 on; `none` is the panic of a division by zero.
unfoldable pub reduced : ℤ → ℤ → Option ℤ
reduced h partition_count = elim (magnitude partition_count) [
  | zero ↦ none
  | suc n ↦
      let result = rem_ℤ h (suc n) in
      some (if ltb_ℤ result (pos 0) then int32 (result +ℤ partition_count) else result)
]

-- `AssignPartition`: `fnv32a` is the sum of the library's hash, `nano` the clock's nanoseconds.
unfoldable pub assign_partition : (fnv32a : List ℕ → ℕ) → List ℕ → ℤ → (nano : ℤ) → Option ℤ
unfolding reduced
assign_partition fnv32a key partition_count nano =
    if ltb 0 (length key)
    then reduced (int32 (pos (fnv32a key))) partition_count
    else reduced (int32 nano) partition_count

-- Reading a missing key gives the nil slice.
unfoldable pub partitions_of : String → Dict (List ℤ) → List ℤ
partitions_of consumer_id m = elim (lookup consumer_id m) [ none ↦ [] | some ids ↦ ids ]

-- The empty list for each consumer.
unfoldable pub initialised : List String → Dict (List ℤ) → Dict (List ℤ)
initialised [] m = m
initialised (c ∷ cs) m = initialised cs (insert c [] m)

-- The loop over the partitions, from number `i` on. The index is in range when there is a consumer.
unfoldable pub distribute : List String → ℕ → List Partition → Dict (List ℤ) → Dict (List ℤ)
distribute consumers i [] m = m
distribute consumers i (p ∷ ps) m =
    let consumer_id = get_or consumers (i % length consumers) "" in
    distribute consumers (suc i) ps
      (insert consumer_id (partitions_of consumer_id m ++ p.id ∷ []) m)

unfoldable pub calculate_optimal_assignment : List Partition → List String → Dict (List ℤ)
unfolding initialised distribute
calculate_optimal_assignment partitions [] = []
calculate_optimal_assignment partitions (c ∷ cs) =
    distribute (c ∷ cs) 0 partitions (initialised (c ∷ cs) [])
