-- ===== src/Subscriber/Samples.antt =====
-- Stores in memory and requests, for the tests of the subscriber service.
use pub_sub_go.Base.{ℕ, String, true, false, none, some, List, [], ◌∷◌}
use pub_sub_go.Base.Int.{pos}
use pub_sub_go.Core.Message.{Message}
use pub_sub_go.Core.Topic.{Topic}
use pub_sub_go.Core.Subscription.{Subscription, push, new_subscription}
use pub_sub_go.Core.Consumer.{Consumer, active, new_consumer_group}
use pub_sub_go.Result.{plain, ok, err}
use pub_sub_go.Ports.{SubscriptionRepository, ConsumerGroupRepository}
use pub_sub_go.Publisher.Samples.{memory, one_topic, topic_at, config, sent}
use pub_sub_go.Subscriber.Types.{
  SubscribeRequest, PullRequest, JoinGroupRequest, ActiveSubscription, ActiveConsumer,
  ActiveConsumerGroup, Env, Service,
}

abbrev pub last_subscription : SubscriptionRepository
last_subscription = record {
  State = List Subscription;
  create = λ sub s. (ok tt, sub ∷ []);
  get = λ id s. (err (plain ("not found" ∷ [])), s);
  update = λ sub s. (ok tt, sub ∷ []);
  remove = λ id s. (ok tt, []);
  get_by_topic = λ topic s. (ok s, s);
  get_by_consumer_group = λ group s. (ok s, s);
  get_active = λ s. (ok s, s);
  list = λ offset limit s. (ok s, s);
}

abbrev pub last_consumer : ConsumerGroupRepository
last_consumer = record {
  State = List Consumer;
  create_group = λ g s. (ok tt, s);
  get_group = λ name s. (err (plain ("not found" ∷ [])), s);
  update_group = λ g s. (ok tt, s);
  delete_group = λ name s. (ok tt, s);
  list_groups = λ topic s. (ok [], s);
  add_consumer = λ name c s. (ok tt, c ∷ []);
  remove_consumer = λ name id s. (ok tt, []);
  update_consumer_heartbeat = λ name id s. (ok tt, s);
  get_active_consumers = λ name s. (ok s, s);
}

abbrev pub env : Env ℕ
env = record {
  message_repo = memory;
  subscription_repo = last_subscription;
  consumer_repo = last_consumer;
  topic_repo = one_topic;
  uuid = λ n. "id";
  text_bytes = λ s. 105 ∷ [];
  config = config;
}

abbrev pub subscription_request : SubscribeRequest
subscription_request = record {
  topic = "orders";
  consumer_group = "";
  consumer_id = "";
  kind = push;
  ack_deadline = pos 0;
  max_retries = pos 0;
  dead_letter_topic = "";
  filter = "";
  config = [];
}

abbrev pub pull_request : PullRequest
pull_request = record {
  topic = "orders";
  partition = none;
  offset = none;
  limit = pos 2;
  ack_deadline = pos 30;
}

abbrev pub join_request : JoinGroupRequest
join_request = record {
  topic = "orders";
  consumer_group = "group";
  consumer_id = "c";
  metadata = [];
}

abbrev pub running : ActiveSubscription
running = record {
  subscription = new_subscription "id" "orders" "" push (pos 0);
  message_chan = some [];
  closed = false;
  can_cancel = true;
  cancelled = false;
  last_activity = pos 0;
  listed = true;
}

abbrev pub member : String → ActiveConsumer
member id = record {
  consumer = record {
    id = id;
    group_id = "group";
    partitions = [];
    last_heartbeat = pos 0;
    status = active;
    metadata = [];
  };
  last_pull = pos 0;
  closed = false;
}

abbrev pub pair : ActiveConsumerGroup
pair = record {
  group = new_consumer_group "group" "orders" (pos 0);
  consumers = ("a", member "a") ∷ ("b", member "b") ∷ [];
  rebalancing = true;
  last_rebalance = none;
}

abbrev pub service : Service (List Message) (List Subscription) (List Consumer) (Topic ℕ)
service = record {
  messages = sent (1 ∷ []) ∷ [];
  subscription_store = [];
  consumer_store = [];
  topics = topic_at (pos 5);
  drawn = 0;
  tasks = [];
  subscriptions = ("id", running) ∷ [];
  consumer_groups = ("group", pair) ∷ [];
  panicked = false;
}

-- The repository of topics always answers the same topic of five partitions.
abbrev pub steady : Env ℕ
steady = record env { topic_repo = record one_topic { get = λ name s. (ok (topic_at (pos 5)), s) } }
