-- ===== src/Ack/DeadLetter.antt =====
-- internal/services/acknowledgment/dlq.go: which messages go to the dead letter queue, and in what form.
use text.Mathlib.Text.{starts_with}
use Prim.Native.String.{◌++◌}
use pub_sub_go.Base.{
  ◌*◌, ◌^◌, String, Bool, true, false, not, Option, none, some, [], ◌∷◌, Dict, insert, lookup,
  if◌then◌else◌, ◌==◌,
}
use pub_sub_go.Base.Int.{ℤ, pos, ◌+ℤ◌, leb_ℤ}
use pub_sub_go.Config.{BrokerConfig}
use pub_sub_go.Core.Message.{Message, high, at_most_once, dlq}
use pub_sub_go.Ports.{Formats}

-- `DLQStrategy`. Enriching takes the instant and the new identifier that it is given.
pub record DlqStrategy : Type 0 where
  pub should_move_to_dlq : Message → Bool
  pub get_dlq_topic : String → String
  pub enrich_dlq_message : Message → String → ℤ → String → Message

pub record DefaultDlqStrategy : Type 0 where
  pub dlq_prefix : String
  pub enable_dlq : Bool
  pub dlq_retry_limit : ℤ
  pub dlq_ttl : ℤ
  pub preserve_headers : Bool

unfoldable pub new_default_dlq_strategy : BrokerConfig → DefaultDlqStrategy
new_default_dlq_strategy c = record {
  dlq_prefix = c.dlq_prefix;
  enable_dlq = c.enable_dlq;
  dlq_retry_limit = c.max_retries;
  dlq_ttl = pos (7 * 24 * 3600 * 10 ^ 9);
  preserve_headers = true;
}

unfoldable pub should_move_to_dlq : DefaultDlqStrategy → Message → Bool
should_move_to_dlq d m =
    if not d.enable_dlq
    then false
    else if starts_with m.topic d.dlq_prefix
    then false
    else leb_ℤ d.dlq_retry_limit m.retry_count

unfoldable pub get_dlq_topic : DefaultDlqStrategy → String → String
get_dlq_topic d original_topic = d.dlq_prefix ++ original_topic

-- `for k, v := range from { to[k] = v }`. The keys of a map differ, so the order does not show.
unfoldable pub copy_headers : Dict String → Dict String → Dict String
copy_headers [] to = to
copy_headers ((k, v) ∷ from) to = insert k v (copy_headers from to)

module _ (formats : Formats) where
  open formats use {format_time, format_int}

  unfoldable pub insert_unless_empty : String → String → Dict String → Dict String
  insert_unless_empty k v m = if not (v == "") then insert k v m else m

  unfoldable pub insert_time : String → Option ℤ → Dict String → Dict String
  insert_time k none m = m
  insert_time k (some t) m = insert k (format_time t) m

  unfoldable pub dlq_headers : DefaultDlqStrategy → Message → String → ℤ → Dict String
  unfolding copy_headers insert_unless_empty insert_time
  dlq_headers d m reason now =
      let h0 = if d.preserve_headers then copy_headers m.headers [] else [] in
      let h1 = insert "dlq_reason" reason h0 in
      let h2 = insert "dlq_timestamp" (format_time now) h1 in
      let h3 = insert "original_topic" m.topic h2 in
      let h4 = insert "original_message_id" m.id h3 in
      let h5 = insert "original_retry_count" (format_int m.retry_count) h4 in
      let h6 = insert "original_created_at" (format_time m.created_at) h5 in
      let h7 = insert_unless_empty "original_consumer_id" m.consumer_id h6 in
      let h8 = insert_unless_empty "original_consumer_group" m.consumer_group h7 in
      insert_time "original_delivered_at" m.delivered_at h8

  unfoldable pub enrich_dlq_message : DefaultDlqStrategy → Message → String → ℤ → String → Message
  unfolding get_dlq_topic dlq_headers
  enrich_dlq_message d m reason now id = record {
    id = id;
    topic = get_dlq_topic d m.topic;
    partition = m.partition;
    offset = pos 0;
    key = m.key;
    payload = m.payload;
    headers = dlq_headers d m reason now;
    priority = high;
    delivery_mode = at_most_once;
    status = dlq;
    retry_count = pos 0;
    max_retries = pos 0;
    consumer_group = "";
    consumer_id = "";
    created_at = now;
    expires_at = some (now +ℤ d.dlq_ttl);
    delivered_at = none;
    acked_at = none;
    compressed = false;
    compression_type = "";
  }

  unfoldable pub default_dlq : DefaultDlqStrategy → DlqStrategy
  default_dlq d = record {
    should_move_to_dlq = should_move_to_dlq d;
    get_dlq_topic = get_dlq_topic d;
    enrich_dlq_message = enrich_dlq_message d;
  }

pub record TopicBasedDlqStrategy : Type 0 where
  pub default_strategy : DlqStrategy
  pub topic_strategies : Dict DlqStrategy

unfoldable pub new_topic_based_dlq_strategy : DlqStrategy → TopicBasedDlqStrategy
new_topic_based_dlq_strategy d = record { default_strategy = d; topic_strategies = [] }

unfoldable pub add_topic_strategy :
    TopicBasedDlqStrategy → String → DlqStrategy → TopicBasedDlqStrategy
add_topic_strategy t topic s = record t { topic_strategies = insert topic s t.topic_strategies }

-- The choice that each of the three methods begins with.
unfoldable pub strategy_for : TopicBasedDlqStrategy → String → DlqStrategy
strategy_for t topic = elim (lookup topic t.topic_strategies) [
  | some s ↦ s
  | none ↦ t.default_strategy
]

unfoldable pub topic_based : TopicBasedDlqStrategy → DlqStrategy
unfolding strategy_for
topic_based t = record {
  should_move_to_dlq = λ m. (strategy_for t m.topic).should_move_to_dlq m;
  get_dlq_topic = λ topic. (strategy_for t topic).get_dlq_topic topic;
  enrich_dlq_message = λ m. (strategy_for t m.topic).enrich_dlq_message m;
}
