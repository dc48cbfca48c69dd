-- ===== src/Metrics/Tests.antt =====
-- Metrics over a registry of names that refuses a second metric of a name.
use Prim.Native.String.{◌++◌}
use pub_sub_go.Base.{
  ◌≡◌, String, Bool, true, false, Option, none, some, List, [], ◌∷◌, if◌then◌else◌, ◌==◌, ◌||◌, sym,
  subst, Bool-cases, inl, inr, eq_refl, arith,
}
use pub_sub_go.Metrics.{Library, Request, counter_of, gauge_vec_of, new_metrics, serve_all}
use pub_sub_go.Metrics.Registered.{IsFaithful, IsRegistered, Whenever, serve_all-IsRegistered}

abbrev holds : String → List String → Bool
holds name [] = false
holds name (n ∷ ns) = let rest = holds name ns in n == name || rest

abbrev Names : Type 0
Names = List String × List String

abbrev enter : String → Names → Option Names
enter name r = if holds name r.0 then none else some (name ∷ r.0, r.1)

abbrev enter_vec : String → Names → Option Names
enter_vec name r = if holds name r.1 then none else some (r.0, name ∷ r.1)

abbrev names : Library
names = record {
  Metric = String;
  Vec = String;
  Registry = Names;
  Function = Unit {0};
  make_counter = λ o. o.subsystem ++ o.name;
  make_counter_func = λ o f. o.subsystem ++ o.name;
  make_gauge = λ o. o.subsystem ++ o.name;
  make_gauge_func = λ o f. o.subsystem ++ o.name;
  make_summary = λ o. o.subsystem ++ o.name;
  make_counter_vec = λ o labels. o.subsystem ++ o.name;
  make_gauge_vec = λ o labels. o.subsystem ++ o.name;
  make_summary_vec = λ o labels. o.subsystem ++ o.name;
  register = enter;
  register_vec = enter_vec;
  is_counter = λ m. true;
  is_gauge = λ m. true;
  is_summary = λ m. true;
}

enter-faithful :
    (m : String) (r t : Names)
    → enter m r ≡ some t
    → (holds m t.0 ≡ true) × ((n : String) → holds n r.0 ≡ true → holds n t.0 ≡ true) × (t.1 ≡ r.1)
enter-faithful m r t e = elim (Bool-cases (holds m r.0)) [
  | inl p ↦ ground (arith, e, p)
  | inr p ↦ (ground (arith, e, p, eq_refl m), λ n h. ground (arith, e, p, h), ground (arith, e, p))
]

enter_vec-faithful :
    (m : String) (r t : Names)
    → enter_vec m r ≡ some t
    → (holds m t.1 ≡ true) × ((n : String) → holds n r.1 ≡ true → holds n t.1 ≡ true) × (t.0 ≡ r.0)
enter_vec-faithful m r t e = elim (Bool-cases (holds m r.1)) [
  | inl p ↦ ground (arith, e, p)
  | inr p ↦ (ground (arith, e, p, eq_refl m), λ n h. ground (arith, e, p, h), ground (arith, e, p))
]

abbrev has : String → Names → Bool
has m r = holds m r.0

abbrev has_vec : String → Names → Bool
has_vec v r = holds v r.1

names-IsFaithful : IsFaithful names has has_vec
names-IsFaithful = (
  λ m r t e. ((enter-faithful m r t e).0, (enter-faithful m r t e).1),
  λ v r t e. ((enter_vec-faithful v r t e).0, (enter_vec-faithful v r t e).1),
  λ m r t v e h. subst (λ ns. holds v ns ≡ true) (sym (enter-faithful m r t e).2) h,
  λ v r t m e h. subst (λ ns. holds m ns ≡ true) (sym (enter_vec-faithful v r t e).2) h,
)

abbrev asked : List (Request (Unit {0}))
asked =
    counter_of "http" "requests" "Requests."
    ∷ gauge_vec_of "topics" "size" "Messages." ("topic" ∷ [])
    ∷ []

serve_all-IsRegistered_example :
    Whenever names has has_vec
      (IsRegistered names has has_vec)
      (serve_all names (new_metrics names "pubsubgo" ([], [])) asked)
serve_all-IsRegistered_example =
    serve_all-IsRegistered names has has_vec names-IsFaithful "pubsubgo" ([], []) asked
