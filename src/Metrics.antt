-- ===== src/Metrics.antt =====
-- internal/adapters/metrics/prometheus/metrics.go: metrics by their names. The library of metrics is a
-- parameter, with its registry, which `MustRegister` changes. `none` is a panic.
use Prim.Native.String.{◌++◌}
use pub_sub_go.Base.{
  String, Bool, Option, none, some, List, [], ◌∷◌, Dict, lookup, insert, if◌then◌else◌,
}
use pub_sub_go.Base.Options.{◌>>=◌}
pub mod Registered
mod Tests

pub record Options : Type 0 where
  pub namespace : String
  pub subsystem : String
  pub name : String
  pub help : String

-- What the library makes and registers, and whether a metric has the methods of an interface. A
-- summary is made with the objectives that are fixed in the source.
pub record Library : Type 1 where
  pub Metric : Type 0
  pub Vec : Type 0
  pub Registry : Type 0
  pub Function : Type 0
  pub make_counter : Options → Metric
  pub make_counter_func : Options → Function → Metric
  pub make_gauge : Options → Metric
  pub make_gauge_func : Options → Function → Metric
  pub make_summary : Options → Metric
  pub make_counter_vec : Options → List String → Vec
  pub make_gauge_vec : Options → List String → Vec
  pub make_summary_vec : Options → List String → Vec
  pub register : Metric → Registry → Option Registry
  pub register_vec : Vec → Registry → Option Registry
  pub is_counter : Metric → Bool
  pub is_gauge : Metric → Bool
  pub is_summary : Metric → Bool

-- `Metrics`, with the registry of the library.
pub record Metrics (M V R : Type 0) : Type 0 where
  pub namespace : String
  pub metrics : Dict M
  pub countervecs : Dict V
  pub guagevecs : Dict V
  pub sumvecs : Dict V
  pub registry : R

-- What is asked to be made; the functions of the library stand in place of the ones to call.
pub data Request (F : Type 0) : Type 0 where
  counter_of gauge_of summary_of : (subsystem name help : String) → Request F
  counter_func_of gauge_func_of : (subsystem name help : String) → F → Request F
  counter_vec_of gauge_vec_of summary_vec_of :
      (subsystem name help : String) → List String → Request F

unfoldable pub metric_key : (subsystem name : String) → String
metric_key subsystem name = subsystem ++ "_" ++ name

module _ (lib : Library) where
  open lib use {
    Metric, Vec, Registry, Function, make_counter, make_counter_func, make_gauge, make_gauge_func,
    make_summary, make_counter_vec, make_gauge_vec, make_summary_vec, register, register_vec,
    is_counter, is_gauge, is_summary,
  }

  abbrev pub State : Type 0
  State = Metrics Metric Vec Registry

  unfoldable pub new_metrics : String → Registry → State
  new_metrics namespace registry = record {
    namespace = namespace;
    metrics = [];
    countervecs = [];
    guagevecs = [];
    sumvecs = [];
    registry = registry;
  }

  unfoldable pub new_metrics_collector : Registry → State
  unfolding new_metrics
  new_metrics_collector registry = new_metrics "pubsubgo" registry

  abbrev pub options : (subsystem name help : String) → State → Options
  options subsystem name help s = record {
    namespace = s.namespace;
    subsystem = subsystem;
    name = name;
    help = help;
  }

  -- A metric is put into the map and registered.
  unfoldable pub keep : String → Metric → State → Option (Metric × State)
  keep key m s = register m s.registry >>= λ r.
      some (m, record s { metrics = insert key m s.metrics; registry = r })

  unfoldable pub new_counter : (subsystem name help : String) → State → Option (Metric × State)
  unfolding keep
  new_counter subsystem name help s =
      keep (metric_key subsystem name) (make_counter (options subsystem name help s)) s

  unfoldable pub new_counter_func :
      (subsystem name help : String) → Function → State → Option (Metric × State)
  unfolding keep
  new_counter_func subsystem name help f s =
      keep (metric_key subsystem name) (make_counter_func (options subsystem name help s) f) s

  unfoldable pub new_gauge : (subsystem name help : String) → State → Option (Metric × State)
  unfolding keep
  new_gauge subsystem name help s =
      keep (metric_key subsystem name) (make_gauge (options subsystem name help s)) s

  unfoldable pub new_gauge_func :
      (subsystem name help : String) → Function → State → Option (Metric × State)
  unfolding keep
  new_gauge_func subsystem name help f s =
      keep (metric_key subsystem name) (make_gauge_func (options subsystem name help s) f) s

  unfoldable pub new_summary : (subsystem name help : String) → State → Option (Metric × State)
  unfolding keep
  new_summary subsystem name help s =
      keep (metric_key subsystem name) (make_summary (options subsystem name help s)) s

  unfoldable pub new_counter_vec :
      (subsystem name help : String) → List String → State → Option (Vec × State)
  new_counter_vec subsystem name help labels s =
      let v = make_counter_vec (options subsystem name help s) labels in
      register_vec v s.registry >>= λ r. some (
        v,
        record s { countervecs = insert (metric_key subsystem name) v s.countervecs; registry = r },
      )

  unfoldable pub new_gauge_vec :
      (subsystem name help : String) → List String → State → Option (Vec × State)
  new_gauge_vec subsystem name help labels s =
      let v = make_gauge_vec (options subsystem name help s) labels in
      register_vec v s.registry >>= λ r.
      some
        (v, record s { guagevecs = insert (metric_key subsystem name) v s.guagevecs; registry = r })

  unfoldable pub new_summary_vec :
      (subsystem name help : String) → List String → State → Option (Vec × State)
  new_summary_vec subsystem name help labels s =
      let v = make_summary_vec (options subsystem name help s) labels in
      register_vec v s.registry >>= λ r.
      some (v, record s { sumvecs = insert (metric_key subsystem name) v s.sumvecs; registry = r })

  -- The assertion of an interface, which panics when nothing is found.
  abbrev pub asserted : (Metric → Bool) → Option Metric → Option Metric
  asserted test none = none
  asserted test (some m) = if test m then some m else none

  unfoldable pub counter : (subsystem name : String) → State → Option Metric
  counter subsystem name s = asserted is_counter (lookup (metric_key subsystem name) s.metrics)

  unfoldable pub gauge : (subsystem name : String) → State → Option Metric
  gauge subsystem name s = asserted is_gauge (lookup (metric_key subsystem name) s.metrics)

  unfoldable pub summary : (subsystem name : String) → State → Option Metric
  summary subsystem name s = asserted is_summary (lookup (metric_key subsystem name) s.metrics)

  -- Here `none` is the pointer nil.
  unfoldable pub counter_vec : (subsystem name : String) → State → Option Vec
  counter_vec subsystem name s = lookup (metric_key subsystem name) s.countervecs

  unfoldable pub gauge_vec : (subsystem name : String) → State → Option Vec
  gauge_vec subsystem name s = lookup (metric_key subsystem name) s.guagevecs

  unfoldable pub summary_vec : (subsystem name : String) → State → Option Vec
  summary_vec subsystem name s = lookup (metric_key subsystem name) s.sumvecs

  abbrev pub state_of : {A : Type 0} → Option (A × State) → Option State
  state_of none = none
  state_of (some (a, s)) = some s

  unfoldable pub serve : State → Request Function → Option State
  unfolding new_counter new_counter_func new_gauge new_gauge_func new_summary new_counter_vec
      new_gauge_vec new_summary_vec
  serve s (counter_of sub name help) = state_of (new_counter sub name help s)
  serve s (gauge_of sub name help) = state_of (new_gauge sub name help s)
  serve s (summary_of sub name help) = state_of (new_summary sub name help s)
  serve s (counter_func_of sub name help f) = state_of (new_counter_func sub name help f s)
  serve s (gauge_func_of sub name help f) = state_of (new_gauge_func sub name help f s)
  serve s (counter_vec_of sub name help labels) = state_of (new_counter_vec sub name help labels s)
  serve s (gauge_vec_of sub name help labels) = state_of (new_gauge_vec sub name help labels s)
  serve s (summary_vec_of sub name help labels) = state_of (new_summary_vec sub name help labels s)

  unfoldable pub serve_all : State → List (Request Function) → Option State
  unfolding serve
  serve_all s [] = some s
  serve_all s (q ∷ qs) = serve s q >>= λ t. serve_all t qs
