-- ===== src/Subscriber/Push.antt =====
-- internal/services/subscriber/workers.go: one tick of a subscription's worker, and the cleanup of
-- idle subscriptions. `none` is the panic of a send on a closed channel.
use pub_sub_go.Base.{
  ℕ, String, Bool, true, false, not, ◌&&◌, ◌||◌, Option, none, some, List, [], ◌∷◌, ◌++◌, Dict,
  length, insert, lookup, ltb, if◌then◌else◌, ◌==◌,
}
use pub_sub_go.Base.Options.{◌>>=◌}
use pub_sub_go.Base.Int.{ℤ, pos, ◌-ℤ◌, ltb_ℤ}
use pub_sub_go.Core.Message.{Message, delivered, is_expired}
use pub_sub_go.Core.Subscription.{Subscription, is_active, increment_delivered}
use pub_sub_go.Core.Topic.{hour}
use pub_sub_go.Result.{Result, ok, err, ignoring}
use pub_sub_go.Subscriber.Types.{ActiveSubscription, Task, store, Env, with_messages}
use pub_sub_go.Subscriber.Pull.{State, Method}
use pub_sub_go.Subscriber.Subscriptions.{listed_entry}

-- Some header has the filter as its key or its value.
unfoldable pub matches_filter : Dict String → String → Bool
matches_filter [] filter = false
matches_filter ((key, value) ∷ headers) filter =
    let rest = matches_filter headers filter in
    if key == filter || value == filter then true else rest

abbrev pub channel_size : ℕ
channel_size = 100

abbrev pub as_sent : Subscription → ℤ → Message → Message
as_sent sub now m = record m {
  status = delivered;
  delivered_at = some now;
  consumer_group = sub.consumer_group;
}

-- A message that the loop goes past: it has expired, or does not meet the filter.
unfoldable pub passed_over : Subscription → ℤ → Message → Bool
unfolding matches_filter is_expired
passed_over sub now m =
    if is_expired m now
    then true
    else not (sub.filter == "") && not (matches_filter m.headers sub.filter)

-- What a `select` with the send, the cancellation and a default does to the struct: `none` is a
-- panic, `some none` that the message is skipped. A nil channel is never ready. The channel has
-- pointers to the messages, which are marked after the send.
unfoldable pub send : ℤ → Message → ActiveSubscription → Option (Option ActiveSubscription)
send now m a = elim a.message_chan [
  | none ↦ some none
  | some queue ↦
      if a.closed
      then none
      else if ltb (length queue) channel_size
      then some (
          some (record a {
            message_chan = some (queue ++ as_sent a.subscription now m ∷ []);
            subscription = increment_delivered a.subscription now;
            last_activity = now;
          }))
      else some none
]

-- What follows a `select`: the struct that it left and the tasks.
abbrev pub sent :
    ℤ → Message → ActiveSubscription → Option ActiveSubscription → ActiveSubscription × List Task
sent now m a none = (a, [])
sent now m a (some b) = (b, store (as_sent a.subscription now m) ∷ [])

-- The loop over the messages. `stop i` is whether the i-th `select` from the end takes the
-- cancellation, which the run-time system chooses.
unfoldable pub deliver :
    (stop : ℕ → Bool)
    → ℤ
    → List Message
    → ActiveSubscription
    → Option (ActiveSubscription × List Task)
unfolding passed_over send increment_delivered
deliver stop now [] a = some (a, [])
deliver stop now (m ∷ ms) a =
    if passed_over a.subscription now m
    then deliver stop now ms a
    else if stop (length ms)
    then some (a, [])
    else do
      r ← send now m a
      let step = sent now m a r
      rest ← deliver stop now ms step.0
      some (rest.0, step.1 ++ rest.1)

-- Idle for more than an hour.
abbrev pub is_idle : ℤ → ActiveSubscription → Bool
is_idle now a = ltb_ℤ (pos hour) (now -ℤ a.last_activity)

-- The entries that are idle.
unfoldable pub idle_ids : ℤ → Dict ActiveSubscription → List String
idle_ids now [] = []
idle_ids now ((id, a) ∷ rest) =
    let more = idle_ids now rest in if a.listed && is_idle now a then id ∷ more else more

-- The entries of idle subscriptions are deleted.
unfoldable pub delist_idle : ℤ → Dict ActiveSubscription → Dict ActiveSubscription
delist_idle now [] = []
delist_idle now ((id, a) ∷ rest) =
    (id, if is_idle now a then record a { listed = false } else a) ∷ delist_idle now rest

-- A worker is cancelled if the map still has its entry and it can be.
unfoldable pub cancel_listed :
    String → Dict ActiveSubscription → Option ActiveSubscription → Dict ActiveSubscription
cancel_listed id m none = m
cancel_listed id m (some a) =
    if a.can_cancel then insert id (record a { cancelled = true }) m else m

-- The loop that looks the idle entries up, to cancel their workers.
unfoldable pub cancel_workers : List String → Dict ActiveSubscription → Dict ActiveSubscription
unfolding cancel_listed listed_entry
cancel_workers [] m = m
cancel_workers (id ∷ ids) m = cancel_workers ids (cancel_listed id m (listed_entry (lookup id m)))

module _ {V : Type 0} (env : Env V) where
  open env use {message_repo}

  abbrev pub fetch : Subscription → Method env (List Message)
  fetch sub =
      if not (sub.consumer_group == "")
      then with_messages (message_repo.get_for_consumer_group sub.topic sub.consumer_group (pos 10))
      else with_messages (message_repo.get_by_topic sub.topic (pos 10) (pos 0))

  -- The fetched messages go to the struct, which its worker holds whether it is listed or not.
  unfoldable pub deliver_fetched :
      (stop : ℕ → Bool)
      → String
      → ℤ
      → ActiveSubscription
      → Result (List Message) × State env
      → Option (State env)
  unfolding deliver
  deliver_fetched stop id now a (err e, s) = some s
  deliver_fetched stop id now a (ok messages, s) = do
    done ← deliver stop now messages a
    some (record s { subscriptions = insert id done.0 s.subscriptions; tasks = s.tasks ++ done.1 })

  unfoldable pub process_found :
      (stop : ℕ → Bool) → String → ℤ → State env → Option ActiveSubscription → Option (State env)
  unfolding deliver_fetched
  process_found stop id now s none = some s
  process_found stop id now s (some a) =
      if not (is_active a.subscription)
      then some s
      else deliver_fetched stop id now a (fetch a.subscription s)

  unfoldable pub process_subscription_messages :
      (stop : ℕ → Bool) → String → ℤ → State env → Option (State env)
  unfolding process_found
  process_subscription_messages stop id now s =
      process_found stop id now s (lookup id s.subscriptions)

  unfoldable pub cleanup_inactive_subscriptions : ℤ → State env → State env
  unfolding idle_ids delist_idle cancel_workers
  cleanup_inactive_subscriptions now s = record s {
    subscriptions = cancel_workers (idle_ids now s.subscriptions) (delist_idle now s.subscriptions);
  }

  unfoldable pub cleanup_expired_messages : Method env (Unit {0})
  cleanup_expired_messages = ignoring (with_messages message_repo.delete_expired)
