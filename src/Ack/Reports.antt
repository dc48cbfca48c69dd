-- ===== src/Ack/Reports.antt =====
-- internal/services/acknowledgment/ack_handler.go: the statistics that the service reports, and the
-- start and the stop of its workers. The statistics of single topics are never filled.
use pub_sub_go.Base.{String, Bool, true, false, List, [], ◌∷◌, length, if◌then◌else◌, ◌==◌}
use pub_sub_go.Base.Int.{ℤ, pos, ltb_ℤ, quot_ℤ}
use pub_sub_go.Base.Words.{add64}
use pub_sub_go.Ack.Backoff.{Float64}
use pub_sub_go.Ack.Types.{ServiceStats}

pub record AcknowledgmentStats (F : Type 0) : Type 0 where
  pub total_acknowledged : ℤ
  pub total_nacked : ℤ
  pub total_requeued : ℤ
  pub total_dlq : ℤ
  pub total_expired : ℤ
  pub avg_processing_time : ℤ
  pub ack_rate : F
  pub generated_at : ℤ

abbrev pub total_time : ℤ → List ℤ → ℤ
total_time total [] = total
total_time total (t ∷ ts) = total_time (add64 total t) ts

-- Zero when no time was recorded.
unfoldable pub average_time : List ℤ → ℤ
average_time [] = pos 0
average_time (t ∷ ts) = quot_ℤ (total_time (pos 0) (t ∷ ts)) (length (t ∷ ts))

unfoldable pub get_acknowledgment_stats :
    (fl : Float64) → ServiceStats → ℤ → AcknowledgmentStats fl.Float
unfolding average_time
get_acknowledgment_stats fl t now =
    let messages = add64 t.acknowledged t.nacked in
    record {
      total_acknowledged = t.acknowledged;
      total_nacked = t.nacked;
      total_requeued = t.requeued;
      total_dlq = t.dlq;
      total_expired = t.expired;
      avg_processing_time = average_time t.processing_times;
      ack_rate =
          if ltb_ℤ (pos 0) messages
          then fl.div (fl.of_int t.acknowledged) (fl.of_int messages)
          else fl.of_int (pos 0);
      generated_at = now;
    }

abbrev pub mem_name : String → List String → Bool
mem_name name [] = false
mem_name name (n ∷ ns) = let rest = mem_name name ns in if n == name then true else rest

-- A worker that does not run is started.
unfoldable pub start_worker : String → List String → List String
start_worker name workers = if mem_name name workers then workers else name ∷ workers

-- The names of the workers that run.
unfoldable pub start_acknowledgment_worker : List String → List String
unfolding start_worker
start_acknowledgment_worker workers =
    start_worker "pending_cleaner"
      (start_worker "retry_processor" (start_worker "expiration_checker" workers))

unfoldable pub stop_acknowledgment_worker : List String → List String
stop_acknowledgment_worker workers = []
