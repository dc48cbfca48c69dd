-- ===== src/Subscriber/Safety.antt =====
-- What holds of the push subscriptions whatever the service serves.
use pub_sub_go.Base.{
  ◌≡◌, refl, ◌∙◌, Bool, true, false, Option, none, some, List, [], ◌∷◌, arith, if◌then◌else◌,
}
use pub_sub_go.Base.Options.{◌>>=◌ as ◌>>=?◌}
use pub_sub_go.Base.Int.{ℤ}
use pub_sub_go.Subscriber.Types.{Env}
use pub_sub_go.Subscriber.Pull.{State}
use pub_sub_go.Subscriber.Answers.{acknowledge, negative_acknowledge}
use pub_sub_go.Subscriber.Push.{
  cleanup_inactive_subscriptions, cleanup_expired_messages, idle_ids, delist_idle,
  process_subscription_messages,
}
use pub_sub_go.Subscriber.Workers.{process_consumer_heartbeats}
use pub_sub_go.Subscriber.Delivery.{
  cancel_workers_sound, is_good, good, OkState, process-ok, subscribe_sound, unsubscribe_sound,
  delist_sound,
}
use pub_sub_go.Subscriber.Serve.{
  Call, subscribes, unsubscribes, pulls, group_pulls, acknowledges, refuses, joins, leaves, runs,
  delivery_ticks, heartbeat_ticks, rebalance_ticks, cleanup_ticks, serve, serve_all, new_service,
  returned,
}
use pub_sub_go.Subscriber.Kept.{pull-Same, group_pull-Keeps, run_task-Same, join-Keeps, leave-Keeps}
use pub_sub_go.Subscriber.Regrouping.{check_groups-Keeps, process_rebalancing-Keeps}

module _ {V : Type 0} (env : Env V) where
  cleaned_good :
      (now : ℤ) (s : State env)
      → is_good env s ≡ true
      → is_good env (cleanup_inactive_subscriptions env now s) ≡ true
  unfolding cleanup_inactive_subscriptions good
  cleaned_good now s h = ground (
    arith,
    cancel_workers_sound (idle_ids now s.subscriptions) (delist_idle now s.subscriptions),
    delist_sound now s.subscriptions,
  )

  panicked_lem : (s : State env) → is_good env s ≡ true → s.panicked ≡ false
  unfolding good
  panicked_lem s h = ground (arith, h)

  returned_by :
      (s : State env) (panicked : Bool)
      → panicked ≡ false
      → is_good env s ≡ true
      → OkState env (if panicked then none else some s)
  returned_by s true e h = absurd (cc e)
  returned_by s false e h = h

  returned-ok : (s : State env) → is_good env s ≡ true → OkState env (returned env s)
  returned-ok s h = returned_by s s.panicked (panicked_lem s h) h

  delivered-ok : (o : Option (State env)) → OkState env o → OkState env (o >>=? returned env)
  delivered-ok none h = h
  delivered-ok (some s) h = returned-ok s h

  serve-ok : (s : State env) (c : Call × ℤ) → is_good env s ≡ true → OkState env (serve env s c)
  unfolding serve acknowledge negative_acknowledge process_consumer_heartbeats
      cleanup_expired_messages
  serve-ok s (subscribes req, now) h = returned-ok _ (subscribe_sound env req now s h)
  serve-ok s (unsubscribes id, now) h = returned-ok _ (unsubscribe_sound env id now s h)
  serve-ok s (pulls req, now) h = returned-ok _ (pull-Same env req now s ∙ h)
  serve-ok s (group_pulls req, now) h = returned-ok _ (group_pull-Keeps env req now s h)
  serve-ok s (acknowledges req, now) h = returned-ok _ h
  serve-ok s (refuses req, now) h = returned-ok _ h
  serve-ok s (joins req, now) h = returned-ok _ (join-Keeps env req now s h)
  serve-ok s (leaves name id, now) h = returned-ok _ (leave-Keeps env name id s h)
  serve-ok s (runs task, now) h = returned-ok _ (run_task-Same env task s ∙ h)
  serve-ok s (delivery_ticks id stop, now) h =
      delivered-ok (process_subscription_messages env stop id now s)
        (process-ok env stop id now s h)
  serve-ok s (heartbeat_ticks, now) h =
      returned-ok _ (check_groups-Keeps env now s.consumer_groups s h)
  serve-ok s (rebalance_ticks, now) h = returned-ok _ (process_rebalancing-Keeps env now s h)
  serve-ok s (cleanup_ticks, now) h = returned-ok _ (cleaned_good now s h)

  after-ok :
      (o : Option (State env)) (cs : List (Call × ℤ))
      → OkState env o
      → ((t : State env) → is_good env t ≡ true → OkState env (serve_all env t cs))
      → OkState env (o >>=? λ t. serve_all env t cs)
  after-ok none cs h k = h
  after-ok (some t) cs h k = k t h

  serve_all-ok :
      (s : State env) (cs : List (Call × ℤ))
      → is_good env s ≡ true
      → OkState env (serve_all env s cs)
  unfolding serve_all
  serve_all-ok s [] h = h
  serve_all-ok s (c ∷ cs) h = after-ok (serve env s c) cs (serve-ok s c h) (λ t. serve_all-ok t cs)

  -- Whatever whole calls, tasks and ticks a new service serves, none of them sends on a closed channel
  -- or closes one again; no channel ever has more than a hundred messages, a closed one belongs to an
  -- inactive subscription that the map has no more, and those of the consumers in the map are open.
  pub serve_all_sound :
      (messages : env.message_repo.State) (subscriptions : env.subscription_repo.State)
      (consumers : env.consumer_repo.State) (topics : env.topic_repo.State) (cs : List (Call × ℤ))
      → OkState env (serve_all env (new_service messages subscriptions consumers topics) cs)
  unfolding new_service good
  serve_all_sound messages subscriptions consumers topics cs =
      serve_all-ok (new_service messages subscriptions consumers topics) cs refl
