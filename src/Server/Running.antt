-- ===== src/Server/Running.antt =====
-- `Start` and `Stop` of cmd/server/app.go. `ListenAndServe` returns as soon as `Shutdown` is called,
-- also when `Shutdown` fails. How long `Stop` waits for the goroutines changes nothing, and metrics are
-- only logged.
use pub_sub_go.Base.{String, Bool, true, false, ◌||◌, List, [], ◌∷◌, ◌++◌}
use pub_sub_go.Result.{Result, Error, wrapped, ok, err}
use pub_sub_go.Ack.Reports.{start_acknowledgment_worker, stop_acknowledgment_worker}
use pub_sub_go.Websocket.Hub.{shutdown}
use pub_sub_go.Server.Startup.{
  Resource, redis_client, adapter_client, tracer_provider, Task, serves_http, serves_metrics,
  waits_for_subscriptions, waits_for_acknowledgments, collects_metrics, Application,
}

unfoldable pub start_background_workers : List Task → List Task
start_background_workers tasks =
    waits_for_subscriptions ∷ waits_for_acknowledgments ∷ collects_metrics ∷ tasks

-- It never fails: starting the workers of acknowledgments does not.
unfoldable pub start : Application → Application
unfolding start_acknowledgment_worker start_background_workers
start a = record a {
  has_cancel = true;
  ack_workers = start_acknowledgment_worker a.ack_workers;
  tasks = start_background_workers (serves_metrics ∷ serves_http ∷ a.tasks);
}

-- Whether a goroutine has been told to end.
abbrev pub is_told : Application → Task → Bool
is_told a serves_http = a.http_stopped
is_told a serves_metrics = a.metrics_stopped
is_told a waits_for_subscriptions = a.cancelled
is_told a waits_for_acknowledgments = a.cancelled
is_told a collects_metrics = a.cancelled

-- What the libraries answer while the application stops.
pub record Answers : Type 0 where
  pub http : Result (Unit {0})
  pub metrics : Result (Unit {0})
  pub redis : Result (Unit {0})
  pub tracer : Result (Unit {0})

abbrev pub error_of : String → Result (Unit {0}) → List Error
error_of note (ok _) = []
error_of note (err e) = wrapped note e ∷ []

abbrev pub has_provider : List Resource → Bool
has_provider [] = false
has_provider (tracer_provider ∷ rs) = true
has_provider (redis_client a ∷ rs) = has_provider rs
has_provider (adapter_client m ∷ rs) = has_provider rs

-- The tracer's `Shutdown` asks its provider, if it has one.
abbrev pub tracer_errors : Bool → Result (Unit {0}) → List Error
tracer_errors true r = error_of "tracer shutdown error" r
tracer_errors false r = []

-- The application's own client and the provider are closed.
unfoldable pub closed : List Resource → List Resource
closed [] = []
closed (tracer_provider ∷ rs) = closed rs
closed (redis_client a ∷ rs) = closed rs
closed (adapter_client m ∷ rs) = adapter_client m ∷ closed rs

-- The errors of which `Stop` makes its own, which is nil when there are none.
unfoldable pub shutdown_errors : Answers → Application → List Error
shutdown_errors answers a =
    error_of "HTTP server shutdown error" answers.http
    ++ error_of "metrics server shutdown error" answers.metrics
    ++ error_of "Redis close error" answers.redis
    ++ tracer_errors (has_provider a.opened) answers.tracer

unfoldable pub stop : Answers → Application → List Error × Application
unfolding shutdown_errors shutdown stop_acknowledgment_worker closed
stop answers a = (
  shutdown_errors answers a,
  record a {
    opened = closed a.opened;
    hub = shutdown a.hub;
    ack_workers = stop_acknowledgment_worker a.ack_workers;
    cancelled = a.has_cancel || a.cancelled;
    http_stopped = true;
    metrics_stopped = true;
  },
)
