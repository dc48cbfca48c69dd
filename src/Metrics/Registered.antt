-- ===== src/Metrics/Registered.antt =====
-- internal/adapters/metrics/prometheus/metrics.go: what is in the maps is registered.
use pub_sub_go.Base.{
  ◌≡◌, refl, String, Bool, true, Option, none, some, List, [], ◌∷◌, Dict, lookup, insert, arith,
  lookup-insert,
}
use pub_sub_go.Base.Options.{◌>>=◌}
use pub_sub_go.Metrics.{
  Library, Request, counter_of, gauge_of, summary_of, counter_func_of, gauge_func_of,
  counter_vec_of, gauge_vec_of, summary_vec_of, State, metric_key, options, keep, state_of,
  new_metrics, new_counter, new_counter_func, new_gauge, new_gauge_func, new_summary,
  new_counter_vec, new_gauge_vec, new_summary_vec, serve, serve_all,
}

-- What a registry has after it took something in: that, and what it had.
abbrev pub IsKeeping : {M R : Type 0} → (M → R → Option R) → (M → R → Bool) → Type 0
IsKeeping {M} {R} register has =
    (m : M) (r t : R)
    → register m r ≡ some t
    → (has m t ≡ true) × ((n : M) → has n r ≡ true → has n t ≡ true)

abbrev pub AllIn : {M R : Type 0} → (M → R → Bool) → Dict M → R → Type 0
AllIn {M} has d r = (key : String) (m : M) → lookup key d ≡ some m → has m r ≡ true

later :
    {M R : Type 0} (has : M → R → Bool) (d : Dict M) (r t : R)
    → ((n : M) → has n r ≡ true → has n t ≡ true)
    → AllIn has d r
    → AllIn has d t
later has d r t grows h key m e = grows m (h key m e)

put :
    {M R : Type 0} (has : M → R → Bool) (d : Dict M) (t : R) (key : String) (m : M)
    → has m t ≡ true
    → AllIn has d t
    → AllIn has (insert key m d) t
put has d t key m there h asked n e =
    ground (arith, there, e, h asked n, lookup-insert key asked m d)

module _ (lib : Library) (has : lib.Metric → lib.Registry → Bool)
    (has_vec : lib.Vec → lib.Registry → Bool) where
  open lib use {Metric, Vec, Registry, Function, register, register_vec}

  -- Every metric in a map is in the library's registry.
  abbrev pub IsRegistered : State lib → Type 0
  IsRegistered s =
      AllIn has s.metrics s.registry
      × AllIn has_vec s.countervecs s.registry
      × AllIn has_vec s.guagevecs s.registry
      × AllIn has_vec s.sumvecs s.registry

  -- Registering a metric keeps the vectors, and the other way round.
  abbrev pub IsFaithful : Type 0
  IsFaithful =
      IsKeeping register has
      × IsKeeping register_vec has_vec
      × ((m : Metric) (r t : Registry) (v : Vec)
          → register m r ≡ some t
          → has_vec v r ≡ true
          → has_vec v t ≡ true)
      × ((v : Vec) (r t : Registry) (m : Metric)
          → register_vec v r ≡ some t
          → has m r ≡ true
          → has m t ≡ true)

  -- What is true of the state that a call leaves, if it leaves one.
  abbrev pub Whenever : (State lib → Type 0) → Option (State lib) → Type 0
  Whenever P none = Unit
  Whenever P (some s) = P s

  module _ (faithful : IsFaithful) where
    vecs_kept :
        (m : Metric) (r t : Registry) (d : Dict Vec)
        → register m r ≡ some t
        → AllIn has_vec d r
        → AllIn has_vec d t
    vecs_kept m r t d e = later has_vec d r t (λ (v : Vec). faithful.2 m r t v e)

    metrics_kept :
        (v : Vec) (r t : Registry) (d : Dict Metric)
        → register_vec v r ≡ some t
        → AllIn has d r
        → AllIn has d t
    metrics_kept v r t d e = later has d r t (λ (m : Metric). faithful.3 v r t m e)

    vecs_grow :
        (v : Vec) (r t : Registry) (d : Dict Vec)
        → register_vec v r ≡ some t
        → AllIn has_vec d r
        → AllIn has_vec d t
    vecs_grow v r t d e = later has_vec d r t (faithful.1 v r t e).1

    vec_put :
        (key : String) (v : Vec) (r t : Registry) (d : Dict Vec)
        → register_vec v r ≡ some t
        → AllIn has_vec d r
        → AllIn has_vec (insert key v d) t
    vec_put key v r t d e h = put has_vec d t key v (faithful.1 v r t e).0 (vecs_grow v r t d e h)

    -- The state after a registration, which the registry may refuse.
    abbrev Kept : {A : Type 0} → (Registry → A × State lib) → Option Registry → Type 0
    Kept next o = Whenever IsRegistered (state_of lib (o >>= λ r. some (next r)))

    keep-IsRegistered :
        (key : String) (m : Metric) (s : State lib) (o : Option Registry)
        → register m s.registry ≡ o
        → IsRegistered s
        → Kept (λ r. (m, record s { metrics = insert key m s.metrics; registry = r })) o
    keep-IsRegistered key m s none e h = tt
    keep-IsRegistered key m s (some t) e h =
        let (there, grows) = faithful.0 m s.registry t e in
        (
          put has s.metrics t key m there (later has s.metrics s.registry t grows h.0),
          vecs_kept m s.registry t s.countervecs e h.1,
          vecs_kept m s.registry t s.guagevecs e h.2,
          vecs_kept m s.registry t s.sumvecs e h.3,
        )

    counter_vec-IsRegistered :
        (key : String) (v : Vec) (s : State lib) (o : Option Registry)
        → register_vec v s.registry ≡ o
        → IsRegistered s
        → Kept (λ r. (v, record s { countervecs = insert key v s.countervecs; registry = r })) o
    counter_vec-IsRegistered key v s none e h = tt
    counter_vec-IsRegistered key v s (some t) e h = (
      metrics_kept v s.registry t s.metrics e h.0,
      vec_put key v s.registry t s.countervecs e h.1,
      vecs_grow v s.registry t s.guagevecs e h.2,
      vecs_grow v s.registry t s.sumvecs e h.3,
    )

    gauge_vec-IsRegistered :
        (key : String) (v : Vec) (s : State lib) (o : Option Registry)
        → register_vec v s.registry ≡ o
        → IsRegistered s
        → Kept (λ r. (v, record s { guagevecs = insert key v s.guagevecs; registry = r })) o
    gauge_vec-IsRegistered key v s none e h = tt
    gauge_vec-IsRegistered key v s (some t) e h = (
      metrics_kept v s.registry t s.metrics e h.0,
      vecs_grow v s.registry t s.countervecs e h.1,
      vec_put key v s.registry t s.guagevecs e h.2,
      vecs_grow v s.registry t s.sumvecs e h.3,
    )

    summary_vec-IsRegistered :
        (key : String) (v : Vec) (s : State lib) (o : Option Registry)
        → register_vec v s.registry ≡ o
        → IsRegistered s
        → Kept (λ r. (v, record s { sumvecs = insert key v s.sumvecs; registry = r })) o
    summary_vec-IsRegistered key v s none e h = tt
    summary_vec-IsRegistered key v s (some t) e h = (
      metrics_kept v s.registry t s.metrics e h.0,
      vecs_grow v s.registry t s.countervecs e h.1,
      vecs_grow v s.registry t s.guagevecs e h.2,
      vec_put key v s.registry t s.sumvecs e h.3,
    )

    kept :
        (sub name : String) (m : Metric) (s : State lib)
        → IsRegistered s
        → Whenever IsRegistered (state_of lib (keep lib (metric_key sub name) m s))
    unfolding keep
    kept sub name m s = keep-IsRegistered (metric_key sub name) m s (register m s.registry) refl

    serve-IsRegistered :
        (s : State lib) (q : Request Function)
        → IsRegistered s
        → Whenever IsRegistered (serve lib s q)
    unfolding serve new_counter new_counter_func new_gauge new_gauge_func new_summary
        new_counter_vec new_gauge_vec new_summary_vec
    serve-IsRegistered s (counter_of sub name help) =
        kept sub name (lib.make_counter (options lib sub name help s)) s
    serve-IsRegistered s (gauge_of sub name help) =
        kept sub name (lib.make_gauge (options lib sub name help s)) s
    serve-IsRegistered s (summary_of sub name help) =
        kept sub name (lib.make_summary (options lib sub name help s)) s
    serve-IsRegistered s (counter_func_of sub name help f) =
        kept sub name (lib.make_counter_func (options lib sub name help s) f) s
    serve-IsRegistered s (gauge_func_of sub name help f) =
        kept sub name (lib.make_gauge_func (options lib sub name help s) f) s
    serve-IsRegistered s (counter_vec_of sub name help labels) =
        let v = lib.make_counter_vec (options lib sub name help s) labels in
        counter_vec-IsRegistered (metric_key sub name) v s (register_vec v s.registry) refl
    serve-IsRegistered s (gauge_vec_of sub name help labels) =
        let v = lib.make_gauge_vec (options lib sub name help s) labels in
        gauge_vec-IsRegistered (metric_key sub name) v s (register_vec v s.registry) refl
    serve-IsRegistered s (summary_vec_of sub name help labels) =
        let v = lib.make_summary_vec (options lib sub name help s) labels in
        summary_vec-IsRegistered (metric_key sub name) v s (register_vec v s.registry) refl

    then_kept :
        (o : Option (State lib)) (f : State lib → Option (State lib))
        → Whenever IsRegistered o
        → ((s : State lib) → IsRegistered s → Whenever IsRegistered (f s))
        → Whenever IsRegistered (o >>= f)
    then_kept none f h k = tt
    then_kept (some s) f h k = k s h

    serve_all-kept :
        (qs : List (Request Function)) (s : State lib)
        → IsRegistered s
        → Whenever IsRegistered (serve_all lib s qs)
    unfolding serve_all
    serve_all-kept [] s h = h
    serve_all-kept (q ∷ qs) s h =
        then_kept (serve lib s q) (λ t. serve_all lib t qs) (serve-IsRegistered s q h)
          (serve_all-kept qs)

    -- Whatever new metrics are asked to make, in whatever order: if the registry refuses none, every
    -- metric that they have in a map is registered, when the registry keeps what it takes in.
    pub serve_all-IsRegistered :
        (namespace : String) (r : Registry) (qs : List (Request Function))
        → Whenever IsRegistered (serve_all lib (new_metrics lib namespace r) qs)
    unfolding new_metrics lookup
    serve_all-IsRegistered namespace r qs =
        serve_all-kept qs (new_metrics lib namespace r)
          (λ k m e. cc, λ k m e. cc, λ k m e. cc, λ k m e. cc)
