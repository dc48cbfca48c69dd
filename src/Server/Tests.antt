-- ===== src/Server/Tests.antt =====
-- An application that is made, started and stopped while its metrics server fails to stop.
use pub_sub_go.Base.{◌≡◌, refl, true, false, some, List, [], ◌∷◌}
use pub_sub_go.Result.{plain, ok, err}
use pub_sub_go.Server.Startup.{
  Mode, single, Resource, redis_client, adapter_client, tracer_provider, Settings, Outside,
  init_storage, init_tracing, new_client, mode_of, adapter_made, storage_made, tracing_made,
  new_tracer, assembled, new_application,
}
use pub_sub_go.Server.Running.{Answers, start, stop}
use pub_sub_go.Server.Lifecycle.{IsDown, stop-IsDown, stop-left}

abbrev cfg : Settings
cfg = record { addresses = "redis:6379" ∷ []; enable_cluster = false; tracing_enabled = true }

abbrev out : Outside
out = record { exporter = ok tt; trace_resource = ok tt; ping = ok tt; adapter_ping = λ m. ok tt }

abbrev answers : Answers
answers = record {
  http = ok tt;
  metrics = err (plain ("deadline exceeded" ∷ []));
  redis = ok tt;
  tracer = ok tt;
}

abbrev opened : List Resource
opened = adapter_client (single "redis:6379") ∷ redis_client "redis:6379" ∷ tracer_provider ∷ []

made : new_application out cfg ≡ some (ok (assembled opened), opened)
unfolding new_application init_tracing new_tracer tracing_made init_storage adapter_made new_client
    mode_of storage_made
made = refl

stop-IsDown_example : IsDown (stop answers (start (assembled opened))).1
stop-IsDown_example = stop-IsDown answers (assembled opened)

stop-left_example :
    (m : Mode) × (mode_of cfg ≡ some m)
    × ((stop answers (start (assembled opened))).1.opened ≡ adapter_client m ∷ [])
stop-left_example = stop-left out cfg answers (assembled opened) opened made
