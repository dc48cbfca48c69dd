-- ===== src/Server/Startup.antt =====
-- `NewApplication` of cmd/server/app.go, with `New` of pkg/tracing/tracer.go and `NewClient` of
-- internal/adapters/storage/redis/client.go. Making the services and the servers cannot fail.
use pub_sub_go.Base.{String, Bool, false, not, Option, none, some, List, [], ◌∷◌, if◌then◌else◌}
use pub_sub_go.Result.{Result, ok, err, annotate}
use pub_sub_go.Websocket.Types.{Hub}
use pub_sub_go.Websocket.Hub.{new_server}

-- How the repositories reach Redis.
pub data Mode : Type 0 where
  cluster failover : List String → Mode
  single : String → Mode

-- What is open and has to be closed: the client that the application pings, the one of the
-- repositories, and the provider of an enabled tracer.
pub data Resource : Type 0 where
  redis_client : String → Resource
  adapter_client : Mode → Resource
  tracer_provider : Resource

-- The settings of Redis, and whether tracing is enabled.
pub record Settings : Type 0 where
  pub addresses : List String
  pub enable_cluster : Bool
  pub tracing_enabled : Bool

-- What the libraries answer: the exporter and the resource of tracing, and a ping of each client.
pub record Outside : Type 0 where
  pub exporter : Result (Unit {0})
  pub trace_resource : Result (Unit {0})
  pub ping : Result (Unit {0})
  pub adapter_ping : Mode → Result (Unit {0})

-- The goroutines that the wait group counts.
pub data Task : Type 0 where
  serves_http serves_metrics waits_for_subscriptions waits_for_acknowledgments collects_metrics :
      Task

pub record Application : Type 0 where
  pub opened : List Resource
  pub hub : Hub
  pub ack_workers : List String
  pub tasks : List Task
  pub has_cancel : Bool
  pub cancelled : Bool
  pub http_stopped : Bool
  pub metrics_stopped : Bool

abbrev pub Opening : Type 0 → Type 0
Opening A = Result A × List Resource

abbrev pub noted : {A : Type 0} → String → Opening A → Opening A
noted note r = (annotate note r.0, r.1)

-- `New` of the tracing package.
unfoldable pub new_tracer : Outside → Bool → List Resource → Opening (Unit {0})
new_tracer out enabled opened = if not enabled then (ok tt, opened) else elim out.exporter [
  | err e ↦ (annotate "failed to create OTLP exporter" (err e), opened)
  | ok u ↦ elim out.trace_resource [
    | err e ↦ (annotate "failed to create resource" (err e), opened)
    | ok v ↦ (ok tt, tracer_provider ∷ opened)
  ]
]

unfoldable pub init_tracing : Outside → Settings → List Resource → Opening (Unit {0})
unfolding new_tracer
init_tracing out cfg opened =
    noted "failed to create tracer" (new_tracer out cfg.tracing_enabled opened)

abbrev pub mode_of_addresses : List String → Option Mode
mode_of_addresses [] = none
mode_of_addresses (a ∷ []) = some (single a)
mode_of_addresses (a ∷ b ∷ rest) = some (failover (a ∷ b ∷ rest))

-- `none` is the panic of an index out of range.
unfoldable pub mode_of : Settings → Option Mode
mode_of cfg =
    if cfg.enable_cluster then some (cluster cfg.addresses) else mode_of_addresses cfg.addresses

abbrev pub pinged : Outside → List Resource → Option Mode → Option (Opening (Unit {0}))
pinged out opened none = none
pinged out opened (some m) =
    some (annotate "failed to connect to Redis" (out.adapter_ping m), adapter_client m ∷ opened)

unfoldable pub new_client : Outside → Settings → List Resource → Option (Opening (Unit {0}))
unfolding mode_of
new_client out cfg opened = pinged out opened (mode_of cfg)

abbrev pub address_of : List String → String
address_of [] = "localhost:6379"
address_of (a ∷ rest) = a

abbrev pub noted_call : String → Option (Opening (Unit {0})) → Option (Opening (Unit {0}))
noted_call note none = none
noted_call note (some r) = some (noted note r)

unfoldable pub adapter_made :
    Outside → Settings → List Resource → Result (Unit {0}) → Option (Opening (Unit {0}))
unfolding new_client
adapter_made out cfg opened (err e) = some (annotate "failed to connect to Redis" (err e), opened)
adapter_made out cfg opened (ok _) =
    noted_call "failed to create Redis adapter client" (new_client out cfg opened)

unfoldable pub init_storage : Outside → Settings → List Resource → Option (Opening (Unit {0}))
unfolding adapter_made
init_storage out cfg opened =
    adapter_made out cfg (redis_client (address_of cfg.addresses) ∷ opened) out.ping

unfoldable pub assembled : List Resource → Application
unfolding new_server
assembled opened = record {
  opened = opened;
  hub = new_server;
  ack_workers = [];
  tasks = [];
  has_cancel = false;
  cancelled = false;
  http_stopped = false;
  metrics_stopped = false;
}

unfoldable pub storage_made : Option (Opening (Unit {0})) → Option (Opening Application)
unfolding assembled
storage_made none = none
storage_made (some (err e, opened)) = some (annotate "failed to initialize storage" (err e), opened)
storage_made (some (ok _, opened)) = some (ok (assembled opened), opened)

unfoldable pub tracing_made : Outside → Settings → Opening (Unit {0}) → Option (Opening Application)
unfolding init_storage storage_made
tracing_made out cfg (err e, opened) =
    some (annotate "failed to initialize tracing" (err e), opened)
tracing_made out cfg (ok _, opened) = storage_made (init_storage out cfg opened)

-- What it gives, and what is open after it; `none` is a panic.
unfoldable pub new_application : Outside → Settings → Option (Opening Application)
unfolding init_tracing tracing_made
new_application out cfg = tracing_made out cfg (init_tracing out cfg [])
