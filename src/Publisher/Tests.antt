-- ===== src/Publisher/Tests.antt =====
-- The theorems on publishing at concrete inputs, over stores in memory.
use pub_sub_go.Base.{ℕ, ◌≡◌, refl, subst, ◌⊎◌, true, some, List, [], ◌∷◌, arith}
use pub_sub_go.Base.Int.{ℤ, pos, ◌≤ℤ◌, ◌<ℤ◌, ◌-ℤ◌, ◌+ℤ◌, ◌*ℤ◌, rem_ℤ}
use pub_sub_go.Base.Words.{int64, int32, min_int64}
use pub_sub_go.Result.{ok}
use pub_sub_go.Publisher.Hash.{hash, hash_partition, hash_partition_range}
use pub_sub_go.Publisher.Types.{PublishRequest, PublishResponse}
use pub_sub_go.Publisher.Service.{
  create_message, compress_message, publish, response_to, validate_publish_request,
}
use pub_sub_go.Publisher.Topics.{ensure_topic_exists}
use pub_sub_go.Publisher.Batch.{publish_batch}
use pub_sub_go.Publisher.Counts.{IsComplete, publish_batch-IsComplete}
use pub_sub_go.Publisher.Stored.{IsStored, publish-IsStored}
use pub_sub_go.Publisher.Samples.{and_unmark, env_with, stores, request, batch, long}

-- A key whose hash overflows to the smallest number.
abbrev bad_key : List ℕ
bad_key = 11 ∷ 22 ∷ 0 ∷ 3 ∷ 18 ∷ 9 ∷ 5 ∷ 17 ∷ 18 ∷ 10 ∷ 4 ∷ 3 ∷ 8 ∷ []

bad_key-hash : hash bad_key ≡ min_int64
unfolding hash int64 ◌*ℤ◌ ◌-ℤ◌ ◌+ℤ◌
bad_key-hash = refl

hash_partition_range_example :
    ((p : ℤ) × (hash_partition (7 ∷ []) (pos 3) ≡ some p) × (pos 0 ≤ℤ p) × (p <ℤ pos 3))
    ⊎ (hash (7 ∷ []) ≡ min_int64)
hash_partition_range_example = hash_partition_range (7 ∷ []) 2 (omega arith)

publish_batch-IsComplete_example :
    IsComplete 2 (publish_batch (env_with "none") batch (pos 5) stores).0
publish_batch-IsComplete_example =
    publish_batch-IsComplete (env_with "none") batch (pos 5) stores (omega arith)

abbrev long_request : PublishRequest
long_request = record request { payload = long }

abbrev response : PublishResponse
response = record {
  message_id = "id";
  topic = "orders";
  partition = pos 1;
  offset = pos 0;
  timestamp = pos 5;
  compressed = true;
}

long_request-ok : (publish (env_with "gzip") long_request (pos 5) stores).0 ≡ ok response
unfolding publish create_message compress_message response_to validate_publish_request
    ensure_topic_exists int64 ◌*ℤ◌ int32 rem_ℤ ◌+ℤ◌
long_request-ok = refl

publish-IsStored_example :
    IsStored
      (env_with "gzip")
      long_request
      response
      (publish (env_with "gzip") long_request (pos 5) stores).1.messages
publish-IsStored_example =
    publish-IsStored (env_with "gzip")
      (
        λ b. refl,
        λ l b z e. subst (λ r. and_unmark r ≡ ok b) e refl,
        λ b z e. subst (λ r. and_unmark r ≡ ok b) e refl,
      )
      long_request (pos 5) stores response long_request-ok
