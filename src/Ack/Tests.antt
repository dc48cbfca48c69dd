-- ===== src/Ack/Tests.antt =====
-- The theorems on acknowledgments at concrete inputs, over a storage in memory.
use Prim.Native.Char.{nul}
use Prim.Native.String as Native
use pub_sub_go.Base.{
  ℕ, zero, suc, ◌*◌, ◌/◌, String, ◌+◌, ◌<◌, ◌≤◌, ◌≡◌, refl, ◌⊎◌, ◌↔◌, true, false, some, [], ◌∷◌,
  lookup, arith,
}
use pub_sub_go.Base.Int.{ℤ, pos, negsuc}
use pub_sub_go.Base.Words.{inc64}
use pub_sub_go.Core.Message.{Message}
use pub_sub_go.Ports.{Formats}
use pub_sub_go.Ack.Types.{Env, Service}
use pub_sub_go.Ack.Backoff.{within_retries, max_retries_of}
use pub_sub_go.Ack.DeadLetter.{new_default_dlq_strategy, enrich_dlq_message}
use pub_sub_go.Ack.Service.{remove_pending_ack}
use pub_sub_go.Ack.Steps.{requeue_message_for_retry, move_message_to_dlq, mark_message_failed}
use pub_sub_go.Ack.Methods.{metadata_reason, process_failed_acknowledgment, process_acknowledgment}
use pub_sub_go.Ack.Reprocess.{reprocessed_message}
use pub_sub_go.Ack.Setup.{new_env, new_service}
use pub_sub_go.Ack.Serve.{serve_all}
use pub_sub_go.Ack.Counters.{IsSound, serve_all-IsSound}
use pub_sub_go.Ack.Fate.{tried, tried-within, refused_fate, lost_fate}
use pub_sub_go.Ack.Authority.{IsAssigned, IsStopped, process_acknowledgment_checks}
use pub_sub_go.Ack.RoundTrip.{dlq_round_trip}
use pub_sub_go.Ack.Samples.{
  memory, whole_numbers, formats, config, letter, env, service, acked, calls,
}

serve_all-IsSound_example : IsSound (pos 0) (serve_all env service calls).stats
unfolding service
serve_all-IsSound_example = serve_all-IsSound env calls service (omega arith)

tried-within_example :
    (within_retries
        (pos 3)
        (tried formats env.retry_strategy 1 letter "busy" (pos 9))
        (inc64 (tried formats env.retry_strategy 1 letter "busy" (pos 9)).retry_count)
      ≡ true)
    ↔ (2 + 1 < 3)
unfolding max_retries_of
tried-within_example =
    tried-within formats env.retry_strategy (pos 3) letter 2 3 1 "busy" (pos 9) refl refl
      (omega arith)

refused_fate_example :
    ((2 < 3)
      × (process_failed_acknowledgment env letter acked (pos 9) service
          ≡ requeue_message_for_retry env letter
              (metadata_reason acked)
              (pos 0)
              (pos 9)
              (remove_pending_ack "m" service)))
    ⊎ ((3 ≤ 2)
        × (process_failed_acknowledgment env letter acked (pos 9) service
            ≡ move_message_to_dlq env letter
                (metadata_reason acked)
                (pos 9)
                (remove_pending_ack "m" service)))
unfolding max_retries_of
refused_fate_example =
    refused_fate whole_numbers memory formats (λ n. "id") config letter acked (pos 9) 2 3 service
      refl refl refl (omega arith) refl refl

abbrev impatient : Message
impatient = record letter { max_retries = pos 1 }

lost_fate_example :
    process_failed_acknowledgment env impatient acked (pos 9) service
    ≡ mark_message_failed env impatient
        (metadata_reason acked)
        (pos 9)
        (remove_pending_ack "m" service)
lost_fate_example =
    lost_fate whole_numbers memory formats (λ n. "id") config impatient acked (pos 9) 2 0 3 service
      refl refl refl (omega arith) (omega arith) (omega arith) refl refl

process_acknowledgment_checks_example :
    IsStopped env "m" service (process_acknowledgment env acked (pos 9) service)
    ⊎ IsAssigned env "m" "c" service
process_acknowledgment_checks_example = process_acknowledgment_checks env acked (pos 9) service

dlq_round_trip_example :
    let e =
      enrich_dlq_message formats (new_default_dlq_strategy config) letter "busy" (pos 9) "id" in
    let p = reprocessed_message formats config e "orders" "id" "new" (pos 12) in
    (lookup "original_topic" e.headers ≡ some "orders")
    × (p.topic ≡ "orders")
    × (p.partition ≡ pos 1)
    × (p.key ≡ 1 ∷ [])
    × (p.payload ≡ 2 ∷ 3 ∷ [])
    × (p.retry_count ≡ pos 0)
    × (lookup "colour" p.headers ≡ some "red")
    × (p.compressed ≡ false)
unfolding lookup new_default_dlq_strategy
dlq_round_trip_example =
    dlq_round_trip formats (new_default_dlq_strategy config) config letter "busy" "id" "new"
      "colour" (pos 9) (pos 12) refl refl refl refl refl

-- Instants in tenths, whose text has one mark for each whole unit.
abbrev tally : ℕ → String
tally zero = Native.[]
tally (suc n) = Native.◌∷◌ nul (tally n)

abbrev tallied : String → ℕ
tallied Native.[] = 0
tallied (Native.◌∷◌ c s) = suc (tallied s)

abbrev whole : ℤ → ℕ
whole (pos n) = n / 10
whole (negsuc n) = 0

abbrev whole_units : Formats
whole_units = record {
  format_time = λ t. tally (whole t);
  parse_time = λ s. some (pos (tallied s * 10));
  format_int = λ n. "1";
}

abbrev coarse : Env
coarse = new_env whole_numbers memory whole_units (λ n. "id") config

unfoldable coarse_service : Service coarse.messages.State
unfolding new_env new_service
coarse_service = new_service (("m", letter) ∷ []) (pos 0)
