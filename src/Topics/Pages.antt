-- ===== src/Topics/Pages.antt =====
-- The pages of the list of topics, and the partitions that a new topic has.
use pub_sub_go.Base.{
  ℕ, zero, suc, ◌≤◌, ◌≡◌, refl, ap, String, true, Option, none, some, List, length, length-take,
  length-map, arith, lookup-insert_self,
}
use pub_sub_go.Base.Int.{ℤ, pos, negsuc, pos_part, ◌≤ℤ◌}
use pub_sub_go.Base.Words.{int32}
use pub_sub_go.Core.Topic.{Topic}
use pub_sub_go.Result.{Result, ok, err}
use pub_sub_go.Partitions.Manager.{PartitionManager, initialize_partitions, fresh_partitions}
use pub_sub_go.Topics.Types.{
  CreateTopicRequest, CreateTopicResponse, ListTopicsRequest, ListTopicsResponse, PartitionInfo,
  Env,
}
use pub_sub_go.Topics.Balance.{get_partition_info, info_found}
use pub_sub_go.Topics.Requests.{page_limit}
use pub_sub_go.Topics.Service.{
  State, page_of, list_topics, create_topic, initialise, get_partitions,
}

page_limit_range : (n : ℤ) → (pos 1 ≤ℤ page_limit n) × (page_limit n ≤ℤ pos 1000)
unfolding page_limit
page_limit_range n = ground arith

module _ {V : Type 0} (env : Env V) where
  open env use {floats}
  open floats use {Float}

  abbrev IsPage : ListTopicsResponse V Float → Type 0
  IsPage r =
      (length r.topics ≤ pos_part r.limit)
      × (r.total ≡ pos (length r.topics))
      × (r.has_more ≡ true → length r.topics ≡ pos_part r.limit)

  page_of-IsPage :
      (req : ListTopicsRequest) (found : List (Topic V)) → IsPage (page_of env req found)
  unfolding page_of
  page_of-IsPage req found = grind (arith, length-take, length-map)

  -- Whatever page is asked for and whatever the repository answers, a list has no more topics than
  -- its limit, which is from 1 to 1000; its total is their number, and it is full if there are more.
  pub list_topics-IsPage :
      (req : ListTopicsRequest) (s : State env) (r : ListTopicsResponse V Float)
      → (list_topics env req s).0 ≡ ok r
      → (pos 1 ≤ℤ r.limit)
        × (r.limit ≤ℤ pos 1000)
        × (length r.topics ≤ pos_part r.limit)
        × (r.total ≡ pos (length r.topics))
        × (r.has_more ≡ true → length r.topics ≡ pos_part r.limit)
  unfolding list_topics
  list_topics-IsPage req s r h = grind (arith, page_of-IsPage, page_limit_range)

  -- What the manager says of the number of a topic's partitions.
  abbrev pub partition_count : Result (PartitionInfo Float) → Option ℤ
  partition_count (ok i) = some i.total_partitions
  partition_count (err e) = none

  length-fresh : (name : String) (now : ℤ) (i n : ℕ) → length (fresh_partitions name now i n) ≡ n
  unfolding fresh_partitions
  length-fresh name now i zero = refl
  length-fresh name now i (suc n) = ap suc (length-fresh name now (suc i) n)

  initialised_count :
      (name : String) (n now : ℤ) (pm pm' : PartitionManager)
      → initialize_partitions name n now pm ≡ some pm'
      → partition_count (get_partition_info floats name pm') ≡ some (int32 n)
  unfolding initialize_partitions get_partition_info info_found
  initialised_count name (negsuc n) now pm pm' e = cc
  initialised_count name (pos n) now pm pm' e = grind (arith, lookup-insert_self, length-fresh)

  -- After a topic was created, the partition manager knows it, with the partitions of the response.
  pub create_topic-partition_count :
      (req : CreateTopicRequest V) (now : ℤ) (s : State env) (r : CreateTopicResponse)
      → (create_topic env req now s).0 ≡ ok r
      → partition_count (get_partitions env r.name (create_topic env req now s).1)
        ≡ some (int32 r.partitions)
  unfolding create_topic initialise get_partitions
  create_topic-partition_count req now s r h = grind (arith, initialised_count)
