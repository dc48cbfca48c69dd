-- ===== src/Http/Paths.antt =====
-- internal/adapters/api/http/utils.go: parameters in the path and in the query of a request. The
-- functions on texts of Go's library are parameters.
use pub_sub_go.Base.{String, Bool, ◌&&◌, Option, none, some, List, [], ◌∷◌, if◌then◌else◌, ◌==◌}
use pub_sub_go.Base.Int.{ℤ}

-- `strings.Split(s, "/")`, `strings.TrimPrefix(s, "/")`, `strconv.Atoi`, and the tests for "{" at the
-- start and "}" at the end.
pub record Texts : Type 0 where
  pub split : String → List String
  pub trim_slash : String → String
  pub atoi : String → Option ℤ
  pub opens : String → Bool
  pub closes : String → Bool

module _ (texts : Texts) where
  open texts use {split, trim_slash, atoi, opens, closes}

  -- The first part of the pattern in braces that the path reaches.
  unfoldable pub path_param_from : List String → List String → String
  path_param_from parts [] = ""
  path_param_from [] (p ∷ pattern) = ""
  path_param_from (part ∷ parts) (p ∷ pattern) =
      let rest = path_param_from parts pattern in if opens p && closes p then part else rest

  unfoldable pub extract_path_param : String → String → String
  unfolding path_param_from
  extract_path_param path pattern = path_param_from (split path) (split pattern)

  -- The third part of a path whose first two are `v1` and the name of a resource.
  unfoldable pub third_part : String → List String → String
  third_part resource [] = ""
  third_part resource (a ∷ []) = ""
  third_part resource (a ∷ b ∷ []) = ""
  third_part resource (a ∷ b ∷ c ∷ rest) = if a == "v1" && b == resource then c else ""

  unfoldable pub extract_topic_from_path : String → String
  unfolding third_part
  extract_topic_from_path path = third_part "topics" (split (trim_slash path))

  unfoldable pub extract_subscription_id_from_path : String → String
  unfolding third_part
  extract_subscription_id_from_path path = third_part "subscriptions" (split (trim_slash path))

  unfoldable pub extract_message_id_from_path : String → String
  unfolding third_part
  extract_message_id_from_path path = third_part "messages" (split (trim_slash path))

  unfoldable pub extract_consumer_group_from_path : String → String
  unfolding third_part
  extract_consumer_group_from_path path = third_part "consumer-groups" (split (trim_slash path))

  abbrev pub number_or : ℤ → Option ℤ → ℤ
  number_or d none = d
  number_or d (some n) = n

  -- `value` is what the query has under the key, the empty text when it has nothing.
  unfoldable pub parse_query_int : (value : String) → ℤ → ℤ
  parse_query_int value default = if value == "" then default else number_or default (atoi value)

  unfoldable pub parse_query_string : (value default : String) → String
  parse_query_string value default = if value == "" then default else value
