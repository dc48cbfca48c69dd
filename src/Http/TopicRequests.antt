-- ===== src/Http/TopicRequests.antt =====
-- internal/adapters/api/http/topic.go: the requests about topics, their validation and what they are
-- converted to. `bytes` is the length of a text, `runes` the numbers that `range` goes through.
use pub_sub_go.Base.{
  ℕ, String, Bool, true, false, not, ◌&&◌, ◌||◌, Option, none, some, List, [], ◌∷◌, Dict,
  if◌then◌else◌, ltb, leb, eqb, ◌==◌,
}
use pub_sub_go.Base.Int.{ℤ, pos, ◌*ℤ◌, ltb_ℤ}
use pub_sub_go.Base.Words.{int64}
use pub_sub_go.Result.{Result, plain, ok, err}
use pub_sub_go.Topics.Types.{CreateTopicRequest, UpdateTopicRequest}

-- A nil `Config` is `none`; times are in seconds.
pub record HttpCreateTopicRequest (V : Type 0) : Type 0 where
  pub name : String
  pub partitions : ℤ
  pub replication : ℤ
  pub retention_time : Option ℤ
  pub max_size : Option ℤ
  pub config : Option (Dict V)

pub record HttpUpdateTopicRequest (V : Type 0) : Type 0 where
  pub retention_time : Option ℤ
  pub max_size : Option ℤ
  pub config : Option (Dict V)

-- A letter, a digit, "-", "_" or ".".
unfoldable pub is_name_rune : ℕ → Bool
is_name_rune r =
    (leb 97 r && leb r 122)
    || (leb 65 r && leb r 90)
    || (leb 48 r && leb r 57)
    || eqb r 45
    || eqb r 95
    || eqb r 46

unfoldable pub are_name_runes : List ℕ → Bool
unfolding is_name_rune
are_name_runes [] = true
are_name_runes (r ∷ rs) = let rest = are_name_runes rs in is_name_rune r && rest

abbrev pub is_negative : Option ℤ → Bool
is_negative none = false
is_negative (some n) = ltb_ℤ n (pos 0)

abbrev pub zero_or : Option ℤ → ℤ
zero_or none = pos 0
zero_or (some n) = n

unfoldable pub seconds : Option ℤ → Option ℤ
seconds none = none
seconds (some n) = some (int64 (n *ℤ pos 1000000000))

module _ {V : Type 0} where
  unfoldable pub validate_http_create_topic :
      (bytes : String → ℕ) (runes : String → List ℕ) → HttpCreateTopicRequest V → Result (Unit {0})
  unfolding are_name_runes
  validate_http_create_topic bytes runes req =
      if req.name == ""
      then err (plain ("topic name is required" ∷ []))
      else if ltb 255 (bytes req.name)
      then err (plain ("topic name must be 255 characters or less" ∷ []))
      else if not (are_name_runes (runes req.name))
      then err (plain ("topic name contains invalid characters" ∷ []))
      else if ltb_ℤ req.partitions (pos 0)
      then err (plain ("partitions must be non-negative" ∷ []))
      else if ltb_ℤ req.replication (pos 0)
      then err (plain ("replication must be non-negative" ∷ []))
      else if is_negative req.retention_time
      then err (plain ("retention time must be non-negative" ∷ []))
      else if is_negative req.max_size
      then err (plain ("max size must be non-negative" ∷ []))
      else ok tt

  unfoldable pub create_request_of : HttpCreateTopicRequest V → CreateTopicRequest V
  unfolding seconds
  create_request_of req = record {
    name = req.name;
    partitions = req.partitions;
    replication = req.replication;
    retention_time = zero_or (seconds req.retention_time);
    max_size = zero_or req.max_size;
    config = req.config;
  }

  unfoldable pub update_request_of : HttpUpdateTopicRequest V → UpdateTopicRequest V
  unfolding seconds
  update_request_of req = record {
    retention_time = seconds req.retention_time;
    max_size = req.max_size;
    config = req.config;
  }
