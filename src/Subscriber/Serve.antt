-- ===== src/Subscriber/Serve.antt =====
-- The service under any sequence of calls, tasks and ticks, each done as a whole.
use pub_sub_go.Base.{ℕ, String, Bool, false, Option, none, some, if◌then◌else◌, List, [], ◌∷◌}
use pub_sub_go.Base.Options.{◌>>=◌}
use pub_sub_go.Base.Int.{ℤ}
use pub_sub_go.Subscriber.Types.{
  SubscribeRequest, PullRequest, ConsumerGroupPullRequest, AcknowledgeRequest, NackRequest,
  JoinGroupRequest, Task, Env, Service,
}
use pub_sub_go.Subscriber.Pull.{State, pull, pull_with_consumer_group}
use pub_sub_go.Subscriber.Answers.{acknowledge, negative_acknowledge, run_task}
use pub_sub_go.Subscriber.Subscriptions.{subscribe, unsubscribe}
use pub_sub_go.Subscriber.Push.{
  process_subscription_messages, cleanup_inactive_subscriptions, cleanup_expired_messages,
}
use pub_sub_go.Subscriber.Groups.{join_consumer_group, leave_consumer_group}
use pub_sub_go.Subscriber.Workers.{process_consumer_heartbeats, process_rebalancing}

pub data Call : Type 0 where
  subscribes : SubscribeRequest → Call
  unsubscribes : String → Call
  pulls : PullRequest → Call
  group_pulls : ConsumerGroupPullRequest → Call
  acknowledges : AcknowledgeRequest → Call
  refuses : NackRequest → Call
  joins : JoinGroupRequest → Call
  leaves : String → String → Call
  runs : Task → Call
  delivery_ticks : String → (ℕ → Bool) → Call
  heartbeat_ticks : Call
  rebalance_ticks : Call
  cleanup_ticks : Call

unfoldable pub new_service : {M S C T : Type 0} → M → S → C → T → Service M S C T
new_service messages subscriptions consumers topics = record {
  messages = messages;
  subscription_store = subscriptions;
  consumer_store = consumers;
  topics = topics;
  drawn = 0;
  tasks = [];
  subscriptions = [];
  consumer_groups = [];
  panicked = false;
}

module _ {V : Type 0} (env : Env V) where
  -- A call has returned, unless it panicked.
  abbrev pub returned : State env → Option (State env)
  returned s = if s.panicked then none else some s

  -- A call at an instant; `none` is a panic.
  unfoldable pub serve : State env → Call × ℤ → Option (State env)
  serve s (subscribes req, now) = returned (subscribe env req now s).1
  serve s (unsubscribes id, now) = returned (unsubscribe env id now s).1
  serve s (pulls req, now) = returned (pull env req now s).1
  serve s (group_pulls req, now) = returned (pull_with_consumer_group env req now s).1
  serve s (acknowledges req, now) = returned (acknowledge env req now s).1
  serve s (refuses req, now) = returned (negative_acknowledge env req now s).1
  serve s (joins req, now) = returned (join_consumer_group env req now s).1
  serve s (leaves name id, now) = returned (leave_consumer_group env name id s).1
  serve s (runs task, now) = returned (run_task env task s).1
  serve s (delivery_ticks id stop, now) =
      process_subscription_messages env stop id now s >>= returned
  serve s (heartbeat_ticks, now) = returned (process_consumer_heartbeats env now s).1
  serve s (rebalance_ticks, now) = returned (process_rebalancing env now s).1
  serve s (cleanup_ticks, now) =
      returned (cleanup_expired_messages env (cleanup_inactive_subscriptions env now s)).1

  unfoldable pub serve_all : State env → List (Call × ℤ) → Option (State env)
  unfolding serve
  serve_all s [] = some s
  serve_all s (c ∷ cs) = do t ← serve s c; serve_all t cs
