-- ===== src/Http/Routes.antt =====
-- internal/adapters/api/http: which handler a request goes to. The patterns of the routes are chosen
-- among by Go's `ServeMux`; these are the choices after that, by the path and the verb.
-- `ends_with` and `contains` are `strings.HasSuffix` and `strings.Contains`, `joined` is the path of a
-- topic.
use pub_sub_go.Base.{String, Bool, if◌then◌else◌, ◌==◌}
use pub_sub_go.Http.Paths.{
  Texts, extract_topic_from_path, extract_subscription_id_from_path, extract_message_id_from_path,
  extract_consumer_group_from_path,
}

-- The handlers, with what the path gives them; the three others are errors.
pub data Destination : Type 0 where
  create_topic list_topics create_subscription : Destination
  topic_stats topic_health partition_info rebalance_partitions : String → Destination
  get_topic update_topic delete_topic : String → Destination
  get_subscription delete_subscription : String → Destination
  group_pull group_join group_leave : String → Destination
  pull_messages topic_subscriptions : String → Destination
  acknowledge_message refuse_message : String → Destination
  missing : (code : String) → Destination
  wrong_method not_found nothing : Destination

-- `handleTopicListOrCreate`
unfoldable pub topics_route : (verb : String) → Destination
topics_route verb =
    if verb == "GET" then list_topics else if verb == "POST" then create_topic else wrong_method

-- `handleSubscriptionListOrCreate`
unfoldable pub subscriptions_route : (verb : String) → Destination
subscriptions_route verb = if verb == "POST" then create_subscription else wrong_method

abbrev pub topic_verb_route : (verb topic : String) → Destination
topic_verb_route verb topic =
    if verb == "GET"
    then get_topic topic
    else if verb == "PUT"
    then update_topic topic
    else if verb == "DELETE"
    then delete_topic topic
    else wrong_method

module _ (texts : Texts) (ends_with contains : String → String → Bool) where
  -- `handleTopicOperations`
  unfoldable pub topic_route : (joined : String → String) → (verb path : String) → Destination
  unfolding extract_topic_from_path
  topic_route joined verb path =
      let topic = extract_topic_from_path texts path in
      if topic == ""
      then missing "MISSING_TOPIC"
      else if ends_with path "/stats"
      then topic_stats topic
      else if ends_with path "/health"
      then topic_health topic
      else if ends_with path "/partitions"
      then partition_info topic
      else if ends_with path "/rebalance"
      then rebalance_partitions topic
      else if path == joined topic
      then topic_verb_route verb topic
      else not_found

  -- `handleSubscriptionOperations`
  unfoldable pub subscription_route : (verb path : String) → Destination
  unfolding extract_subscription_id_from_path
  subscription_route verb path =
      let id = extract_subscription_id_from_path texts path in
      if id == ""
      then missing "MISSING_SUBSCRIPTION_ID"
      else if verb == "GET"
      then get_subscription id
      else if verb == "DELETE"
      then delete_subscription id
      else wrong_method

  -- `handleConsumerGroupOperations`
  unfoldable pub consumer_group_route : (path : String) → Destination
  unfolding extract_consumer_group_from_path
  consumer_group_route path =
      let group = extract_consumer_group_from_path texts path in
      if group == ""
      then missing "MISSING_CONSUMER_GROUP"
      else if ends_with path "/pull"
      then group_pull group
      else if ends_with path "/join"
      then group_join group
      else if ends_with path "/leave"
      then group_leave group
      else not_found

  -- `handleTopicSubscriberOperations`, which no pattern leads to. It may write nothing.
  unfoldable pub topic_subscriber_route : (path : String) → Destination
  unfolding extract_topic_from_path
  topic_subscriber_route path =
      let topic = extract_topic_from_path texts path in
      if topic == ""
      then nothing
      else if ends_with path "/pull"
      then pull_messages topic
      else if contains path "/subscriptions"
      then topic_subscriptions topic
      else nothing

  -- `handleMessageOperations`
  unfoldable pub message_route : (path : String) → Destination
  unfolding extract_message_id_from_path
  message_route path =
      let id = extract_message_id_from_path texts path in
      if id == ""
      then missing "MISSING_MESSAGE_ID"
      else if ends_with path "/ack"
      then acknowledge_message id
      else if ends_with path "/nack"
      then refuse_message id
      else not_found
