-- ===== src/Redis/Tests.antt =====
-- The theorems on the repositories at concrete inputs.
use pub_sub_go.Base.{◌≡◌, refl, true, [], ◌∷◌}
use pub_sub_go.Base.Int.{ℤ, pos}
use pub_sub_go.Base.{String, lookup}
use pub_sub_go.Core.Message.{Message, Acknowledgment, failed}
use pub_sub_go.Publisher.Samples.{sent, topic_at}
use pub_sub_go.Result.{ok}
use pub_sub_go.Redis.Messages.{store, get_failed_messages, get_by_topic, read_ids, get_batch}
use pub_sub_go.Redis.Topics.{create}
use pub_sub_go.Redis.Contract.{
  IsMessageBack, store-get, all_exhausted, get_failed_messages-all_exhausted,
}
use pub_sub_go.Redis.Lookup.{IsTopicBack, create-get}
use pub_sub_go.Redis.Samples.{memory, memory_texts, single}

abbrev ack : Acknowledgment
ack = record {
  message_id = "a";
  consumer_id = "c";
  consumer_group = "";
  success = true;
  reason = "";
  timestamp = pos 0;
}

abbrev digits : ℤ → String
digits n = "0"

store-get_example :
    IsMessageBack memory
      (single (sent (1 ∷ [])))
      (single ack)
      digits
      (sent (1 ∷ []))
      (store memory (single (sent (1 ∷ []))) (single ack) digits (sent (1 ∷ [])) (pos 9) []).1
unfolding store
store-get_example =
    store-get memory (single (sent (1 ∷ []))) (single ack) digits memory_texts (sent (1 ∷ []))
      (λ text e. refl) (pos 9) [] refl

create-get_example :
    IsTopicBack memory
      (single (topic_at (pos 2)))
      (topic_at (pos 2))
      (create memory (single (topic_at (pos 2))) (topic_at (pos 2)) []).1
unfolding create
create-get_example =
    create-get memory (single (topic_at (pos 2))) memory_texts (topic_at (pos 2)) (λ text e. refl)
      [] refl

abbrev spent : Message
spent = record (sent (1 ∷ [])) { status = failed; retry_count = pos 3 }

spent_eq :
    (get_failed_messages memory
      (single spent)
      (single ack)
      digits
      "orders"
      (pos 3)
      (("msg:a", "value") ∷ [])).0
    ≡ ok (spent ∷ [])
unfolding get_failed_messages get_by_topic read_ids get_batch lookup
spent_eq = refl

get_failed_messages-all_exhausted_example : all_exhausted (pos 3) (spent ∷ []) ≡ true
get_failed_messages-all_exhausted_example =
    get_failed_messages-all_exhausted memory (single spent) (single ack) digits "orders" (pos 3)
      (("msg:a", "value") ∷ []) (spent ∷ []) spent_eq
