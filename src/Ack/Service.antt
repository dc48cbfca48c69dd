-- ===== src/Ack/Service.antt =====
-- internal/services/acknowledgment: the service's methods. Each is an action on the service and the
-- storage behind it. `now` is the clock, read as one instant in a call; logging is left out. The
-- mutexes of the service guard single updates, so a method's updates are steps of one sequence.
use pub_sub_go.Base.{String, List, [], ◌∷◌, ◌++◌, delete, length, drop, ltb, if◌then◌else◌, ◌==◌}
use pub_sub_go.Base.Int.{ℤ, pos, ltb_ℤ}
use pub_sub_go.Base.Words.{inc64}
use pub_sub_go.Result.{Action}
use pub_sub_go.Ack.Types.{ServiceStats, Service}

unfoldable pub count_operation : String → ServiceStats → ServiceStats
count_operation operation t =
    if operation == "acknowledged"
    then record t { acknowledged = inc64 t.acknowledged }
    else if operation == "nacked"
    then record t { nacked = inc64 t.nacked }
    else if operation == "requeued"
    then record t { requeued = inc64 t.requeued }
    else if operation == "dlq"
    then record t { dlq = inc64 t.dlq }
    else if operation == "expired"
    then record t { expired = inc64 t.expired }
    else t

-- The last thousand processing times are kept.
unfoldable pub record_time : ℤ → List ℤ → List ℤ
record_time processing_time times =
    if ltb_ℤ (pos 0) processing_time
    then (let longer = times ++ processing_time ∷ [] in
        if ltb 1000 (length longer) then drop 1 longer else longer)
    else times

module _ {R : Type 0} where
  -- A call of the storage.
  abbrev pub with_repo : {A : Type 0} → Action R A → Action (Service R) A
  with_repo m s = let r = m s.repo in (r.0, record s { repo = r.1 })

  unfoldable pub remove_pending_ack : String → Service R → Service R
  remove_pending_ack id s = record s { pending_acks = delete id s.pending_acks }

  unfoldable pub update_stats : String → ℤ → Service R → Service R
  unfolding count_operation record_time
  update_stats operation processing_time s =
      let t = count_operation operation s.stats in
      record s {
        stats = record t { processing_times = record_time processing_time t.processing_times };
      }
