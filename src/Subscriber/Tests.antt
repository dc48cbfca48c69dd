-- ===== src/Subscriber/Tests.antt =====
-- The theorems on subscriptions, pulls and groups at concrete inputs.
use pub_sub_go.Base.{◌≡◌, refl, ◌^◌, true, false, some, [], ◌∷◌, ◌++◌, map, lookup, arith}
use pub_sub_go.Base.Int.{pos, ◌≤ℤ◌, ◌+ℤ◌, ◌-ℤ◌}
use pub_sub_go.Base.Words.{int64}
use pub_sub_go.Core.Consumer.{Consumer, active}
use pub_sub_go.Core.Message.{delivered}
use pub_sub_go.Result.{ok, err, plain}
use pub_sub_go.Publisher.Samples.{sent, topic_at}
use pub_sub_go.Subscriber.Types.{PullResponse, JoinGroupResponse, store}
use pub_sub_go.Subscriber.Pull.{
  pull, ensure_consumer_in_group, page, deliver_page, validate_pull_request, valid_messages,
  next_offset_of,
}
use pub_sub_go.Subscriber.Push.{cleanup_inactive_subscriptions}
use pub_sub_go.Subscriber.Subscriptions.{unsubscribe}
use pub_sub_go.Subscriber.Groups.{join_consumer_group}
use pub_sub_go.Subscriber.Workers.{process_rebalancing, is_due}
use pub_sub_go.Subscriber.Delivery.{OkState}
use pub_sub_go.Subscriber.Serve.{subscribes, delivery_ticks, unsubscribes, serve_all, new_service}
use pub_sub_go.Subscriber.Safety.{serve_all_sound}
use pub_sub_go.Subscriber.Outcome.{
  all_delivered, has_joined, pull-all_delivered, cleanup_strands, join-has_joined,
}
use pub_sub_go.Subscriber.Liveness.{IsServed, process_rebalancing-IsServed}
use pub_sub_go.Subscriber.Samples.{
  env, steady, service, subscription_request, pull_request, join_request, running, pair, member,
}
use pub_sub_go.Subscriber.Rebalance.{rebalance_consumer_group}
use pub_sub_go.Subscriber.Shares.{
  IsBalanced, all_partitions, range, rebalance-all_partitions, rebalance-IsBalanced,
}

abbrev consumer : Consumer
consumer = record {
  id = "c";
  group_id = "g";
  partitions = [];
  last_heartbeat = pos 0;
  status = active;
  metadata = [];
}

rebalance-all_partitions_example :
    all_partitions (rebalance_consumer_group (pos 5) (consumer ∷ consumer ∷ [])) ≡ range 0 5
rebalance-all_partitions_example = rebalance-all_partitions 5 consumer (consumer ∷ []) (omega arith)

rebalance-IsBalanced_example :
    IsBalanced 2 (rebalance_consumer_group (pos 5) (consumer ∷ consumer ∷ []))
rebalance-IsBalanced_example = rebalance-IsBalanced 5 consumer (consumer ∷ [])

serve_all_sound_example : OkState env (
    serve_all env (new_service (sent (1 ∷ []) ∷ []) [] [] (topic_at (pos 5))) (
      (subscribes subscription_request, pos 1)
      ∷ (delivery_ticks "id" (λ i. false), pos 2)
      ∷ (unsubscribes "id", pos 3)
      ∷ (delivery_ticks "id" (λ i. false), pos 4)
      ∷ []))
serve_all_sound_example = serve_all_sound env (sent (1 ∷ []) ∷ []) [] [] (topic_at (pos 5)) (
    (subscribes subscription_request, pos 1)
    ∷ (delivery_ticks "id" (λ i. false), pos 2)
    ∷ (unsubscribes "id", pos 3)
    ∷ (delivery_ticks "id" (λ i. false), pos 4)
    ∷ [])

abbrev answer : PullResponse
answer = record {
  messages =
      (record (sent (1 ∷ [])) {
        status = delivered;
        delivered_at = some (pos 9);
        consumer_id = "id";
      })
      ∷ [];
  next_offset = some (pos 1);
  has_more = false;
  consumer_id = "";
}

answer_eq : (pull env pull_request (pos 9) service).0 ≡ ok answer
unfolding pull page deliver_page validate_pull_request valid_messages next_offset_of int64 ◌+ℤ◌
answer_eq = refl

pull-all_delivered_example :
    (pos 1 ≤ℤ pull_request.limit)
    × (pull_request.limit ≤ℤ pos 1000)
    × (all_delivered (pos 9) answer.messages ≡ true)
    × ((pull env pull_request (pos 9) service).1.tasks ≡ service.tasks ++ map store answer.messages)
pull-all_delivered_example =
    pull-all_delivered env pull_request (pos 9) service answer (omega arith) answer_eq

cleanup_strands_example :
    (lookup "id" (cleanup_inactive_subscriptions env (pos (10 ^ 13)) service).subscriptions
      ≡ some (record running { listed = false }))
    × ((unsubscribe env "id"
          (pos (10 ^ 14))
          (cleanup_inactive_subscriptions env (pos (10 ^ 13)) service)).0
        ≡ err (plain ("subscription " ∷ "id" ∷ " not found" ∷ [])))
unfolding lookup ◌-ℤ◌
cleanup_strands_example =
    cleanup_strands env "id" (pos (10 ^ 13)) (pos (10 ^ 14)) service running refl refl

process_rebalancing-IsServed_example :
    IsServed 5 (lookup "group" (process_rebalancing steady (pos 9) service).1.consumer_groups)
unfolding lookup is_due
process_rebalancing-IsServed_example =
    process_rebalancing-IsServed steady (pos 9) "group" pair ("a", member "a")
      (("b", member "b") ∷ []) (topic_at (pos 5)) 5 service (refl, (λ s. refl), refl, omega arith)
      refl refl

abbrev joined : JoinGroupResponse
joined = record { consumer_id = "c"; consumer_group = "group"; partitions = [] }

join-has_joined_example :
    has_joined "group" "c"
      (pos 9)
      (join_consumer_group env join_request (pos 9) service).1.consumer_groups
    ≡ true
unfolding join_consumer_group ensure_consumer_in_group
join-has_joined_example = join-has_joined env join_request (pos 9) service joined refl
