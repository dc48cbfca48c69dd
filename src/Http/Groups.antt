-- ===== src/Http/Groups.antt =====
-- What becomes of consumer groups over HTTP: the handlers of internal/adapters/api/http/subscriber.go
-- with the service of internal/services/subscriber.
use pub_sub_go.Base.{
  ℕ, ◌≡◌, refl, inl, inr, String, Bool, true, false, not, List, ◌==◌, Bool-cases, arith,
}
use pub_sub_go.Base.Int.{ℤ}
use pub_sub_go.Result.{Result, Error, ok, err}
use pub_sub_go.Subscriber.Types.{Env}
use pub_sub_go.Subscriber.Pull.{
  State, pull_with_consumer_group, validate_consumer_group_pull_request,
}
use pub_sub_go.Subscriber.Groups.{join_consumer_group, validate_join_group_request}
use pub_sub_go.Http.Replies.{
  Request, Reply, written, successful, refused, parse_json_request, write_error_response,
}
use pub_sub_go.Http.SubscriberRequests.{
  HttpGroupPullRequest, HttpJoinGroupRequest, group_pull_request_of, join_request_of,
}
use pub_sub_go.Http.SubscriberCalls.{
  respond, answer_join, join_parsed, handle_join_consumer_group, group_pull_parsed,
  handle_consumer_group_pull,
}

abbrev pub is_refused : {A : Type 0} → Reply A → Bool
is_refused (written status a) = false
is_refused (successful r) = false
is_refused (refused status e) = true

-- A reply that refuses, and a state that is the one of before.
abbrev pub IsRefused : {A S : Type 0} → S → Reply A × S → Type 0
IsRefused s r = (is_refused r.0 ≡ true) × (r.1 ≡ s)

module _ {V : Type 0} (env : Env V) (mentions : Error → String → Bool) where
  join_parsed-IsRefused :
      (group : String) (r : Result HttpJoinGroupRequest) (now : ℤ) (s : State env)
      → IsRefused s (join_parsed env mentions group r now s)
  unfolding join_parsed join_consumer_group join_request_of validate_join_group_request answer_join
      write_error_response
  join_parsed-IsRefused group (err e) now s = (refl, refl)
  join_parsed-IsRefused group (ok req) now s = elim (Bool-cases (req.consumer_id == "")) [
    | inl e ↦ rw e (refl, refl)
    | inr e ↦ rw e (refl, refl)
  ]

  -- Every request to join a consumer group is refused over HTTP, whatever it says, and changes
  -- nothing.
  pub handle_join_consumer_group-IsRefused :
      (group : String) (r : Request HttpJoinGroupRequest) (now : ℤ) (s : State env)
      → IsRefused s (handle_join_consumer_group env mentions group r now s)
  unfolding handle_join_consumer_group
  handle_join_consumer_group-IsRefused group r now s = elim (Bool-cases (not (r.verb == "POST"))) [
    | inl e ↦ rw e (refl, refl)
    | inr e ↦ rw e (join_parsed-IsRefused group (parse_json_request r) now s)
  ]

  group_pull_parsed-IsRefused :
      (encode : List ℕ → String) (group : String) (req : HttpGroupPullRequest) (now : ℤ)
      (s : State env)
      → req.consumer_group ≡ ""
      → IsRefused s (group_pull_parsed env mentions encode group (ok req) now s)
  unfolding group_pull_parsed pull_with_consumer_group group_pull_request_of
      validate_consumer_group_pull_request respond write_error_response
  group_pull_parsed-IsRefused encode group req now s none_named =
      elim (Bool-cases (req.consumer_id == "")) [
        | inl e ↦ rw e (refl, refl)
        | inr e ↦ rw (e, none_named) (ground arith, refl)
      ]

  -- A pull for a consumer group that is posted as JSON, whose body names no group of its own, is refused
  -- over HTTP, whatever group the path names, and changes nothing.
  pub handle_consumer_group_pull-IsRefused :
      (encode : List ℕ → String) (group : String) (req : HttpGroupPullRequest) (now : ℤ)
      (s : State env)
      → req.consumer_group ≡ ""
      → IsRefused s (
          handle_consumer_group_pull env mentions encode group
            (record { verb = "POST"; content_type = "application/json"; body = ok req })
            now
            s)
  unfolding handle_consumer_group_pull parse_json_request
  handle_consumer_group_pull-IsRefused = group_pull_parsed-IsRefused
