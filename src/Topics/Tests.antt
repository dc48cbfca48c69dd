-- ===== src/Topics/Tests.antt =====
-- The theorems on topics at concrete inputs.
use pub_sub_go.Base.{
  ℕ, ◌*◌, ◌^◌, ◌≤◌, ◌≡◌, refl, true, none, some, [], ◌∷◌, length, arith, ◌==◌, lookup,
}
use pub_sub_go.Base.Int.{ℤ, pos, pos_part, ◌≤ℤ◌, ◌<ℤ◌, ◌-ℤ◌}
use pub_sub_go.Base.Words.{int32}
use pub_sub_go.Core.Topic.{hour}
use pub_sub_go.Publisher.Samples.{topic_at}
use pub_sub_go.Result.{ok}
use pub_sub_go.Topics.Types.{CreateTopicResponse, ListTopicsResponse, TopicStats}
use pub_sub_go.Topics.Health.{topic_health}
use pub_sub_go.Topics.Requests.{topic_info}
use pub_sub_go.Topics.Service.{create_topic, get_partitions, list_topics, get_topic_stats}
use pub_sub_go.Topics.Pages.{partition_count, list_topics-IsPage, create_topic-partition_count}
use pub_sub_go.Topics.Scores.{none_unhealthy, topic_health_meaning}
use pub_sub_go.Topics.Caching.{get_topic_stats_again}
use pub_sub_go.Topics.Samples.{env, whole, creation, first_page, service}

abbrev page : ListTopicsResponse ℕ ℤ
page = record {
  topics = topic_info (topic_at (pos 2)) "unknown" none ∷ [];
  total = pos 1;
  offset = pos 0;
  limit = pos 1;
  has_more = true;
}

page_eq : (list_topics env first_page service).0 ≡ ok page
unfolding list_topics service
page_eq = refl

list_topics-IsPage_example :
    (pos 1 ≤ℤ page.limit)
    × (page.limit ≤ℤ pos 1000)
    × (length page.topics ≤ pos_part page.limit)
    × (page.total ≡ pos (length page.topics))
    × (page.has_more ≡ true → length page.topics ≡ pos_part page.limit)
list_topics-IsPage_example = list_topics-IsPage env first_page service page page_eq

abbrev created : CreateTopicResponse
created = record {
  name = "orders";
  partitions = pos 2;
  replication = pos 1;
  retention_time = pos (24 * hour);
  max_size = pos (2 ^ 30);
  created_at = pos 5;
}

created_eq : (create_topic env creation (pos 5) service).0 ≡ ok created
unfolding create_topic service
created_eq = refl

create_topic-partition_count_example :
    partition_count env (get_partitions env "orders" (create_topic env creation (pos 5) service).1)
    ≡ some (int32 (pos 2))
create_topic-partition_count_example =
    create_topic-partition_count env creation (pos 5) service created created_eq

topic_health_meaning_example :
    (pos 0 ≤ℤ (topic_health whole (topic_at (pos 2)) none (pos 5)).total_score)
    × ((topic_health whole (topic_at (pos 2)) none (pos 5)).total_score ≤ℤ pos (100 * 3))
    × (((topic_health whole (topic_at (pos 2)) none (pos 5)).health == "green") ≡ true
        → (none_unhealthy (topic_health whole (topic_at (pos 2)) none (pos 5)).checks ≡ true)
          × (pos (80 * 3) ≤ℤ (topic_health whole (topic_at (pos 2)) none (pos 5)).total_score))
    × (((topic_health whole (topic_at (pos 2)) none (pos 5)).health == "red") ≡ true
        → (topic_health whole (topic_at (pos 2)) none (pos 5)).total_score <ℤ pos (60 * 3))
unfolding topic_health
topic_health_meaning_example = topic_health_meaning whole (topic_at (pos 2)) none (pos 5)

abbrev collected : TopicStats ℤ
collected = record {
  name = "orders";
  message_count = pos 0;
  bytes_in = pos 0;
  bytes_out = pos 0;
  messages_per_second = pos 0;
  bytes_per_second = pos 0;
  avg_message_size = pos 0;
  partitions = pos 2;
  collected_at = pos 5;
}

collected_eq : (get_topic_stats env "orders" (pos 5) service).0 ≡ ok collected
unfolding get_topic_stats service lookup
collected_eq = refl

get_topic_stats_again_example :
    get_topic_stats env "orders" (pos 9) (get_topic_stats env "orders" (pos 5) service).1
    ≡ (ok collected, (get_topic_stats env "orders" (pos 5) service).1)
unfolding ◌-ℤ◌
get_topic_stats_again_example =
    get_topic_stats_again env "orders" (pos 5) (pos 9) service collected
      (λ name s t e. ground (arith, e)) collected_eq (omega arith)
