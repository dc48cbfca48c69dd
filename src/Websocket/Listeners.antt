-- ===== src/Websocket/Listeners.antt =====
-- internal/adapters/api/websocket/server.go: who listens to a topic after a change of the map.
use pub_sub_go.Base.{
  ℕ, ◌≡◌, refl, ap, inl, inr, String, Bool, false, ◌&&◌, ◌||◌, Option, none, some, List, [], ◌∷◌,
  Dict, length, insert, delete, lookup, if◌then◌else◌, arith, ◌==◌, eq_iff, lookup-insert,
  lookup-delete, Bool-cases,
}
use pub_sub_go.Websocket.Hub.{
  keys, or_empty, listeners, drop_found, drop_listener, drop_all, remove_all_subscriptions,
}

abbrev pub listener : String → String → Dict (Dict ℕ) → Option ℕ
listener topic id m = lookup id (listeners topic m)

abbrev pub mem_key : String → List String → Bool
mem_key key [] = false
mem_key key (k ∷ ks) = let rest = mem_key key ks in (k == key) || rest

lookup-empty : {A : Type 0} (key : String) (d : Dict A) → length d ≡ 0 → lookup key d ≡ none
unfolding lookup
lookup-empty key [] e = refl
lookup-empty key (x ∷ d) e = absurd (omega arith)

abbrev nobody : Dict ℕ
nobody = []

lookup-mem_key :
    {A : Type 0} (key : String) (d : Dict A) → mem_key key (keys d) ≡ false → lookup key d ≡ none
unfolding lookup
lookup-mem_key key [] e = refl
lookup-mem_key key ((k, a) ∷ d) e = ground (arith, e, lookup-mem_key key d)

pub listener-insert :
    (t topic i : String) (d : Dict ℕ) (m : Dict (Dict ℕ))
    → listener t i (insert topic d m) ≡ (if topic == t then lookup i d else listener t i m)
listener-insert t topic i d m =
    ground (arith, ap (λ o. lookup i (or_empty o)) (lookup-insert topic t d m))

listener-delete :
    (t topic i : String) (m : Dict (Dict ℕ))
    → listener t i (delete topic m) ≡ (if topic == t then none else listener t i m)
listener-delete t topic i m =
    ground
      (arith, ap (λ o. lookup i (or_empty o)) (lookup-delete topic t m), lookup-empty i nobody refl)

drop_found_lem :
    (id topic t i : String) (m : Dict (Dict ℕ)) (o : Option (Dict ℕ))
    → lookup topic m ≡ o
    → listener t i (drop_found id topic m o)
      ≡ (if (topic == t) && (id == i) then none else listener t i m)
unfolding drop_found
drop_found_lem id topic t i m none e =
    ground (arith, e, eq_iff topic t, ap (λ o. lookup i (or_empty o)) e, lookup-empty i nobody refl)
drop_found_lem id topic t i m (some d) e = ground (
  arith,
  e,
  eq_iff topic t,
  listener-delete t topic i m,
  listener-insert t topic i (delete id d) m,
  lookup-delete id i d,
  lookup-empty i (delete id d),
)

pub listener-drop_listener :
    (id topic t i : String) (m : Dict (Dict ℕ))
    → listener t i (drop_listener id topic m)
      ≡ (if (topic == t) && (id == i) then none else listener t i m)
unfolding drop_listener
listener-drop_listener id topic t i m = drop_found_lem id topic t i m (lookup topic m) refl

listener-drop_all :
    (id t i : String) (topics : List String) (m : Dict (Dict ℕ))
    → listener t i (drop_all id topics m)
      ≡ (if mem_key t topics && (id == i) then none else listener t i m)
unfolding drop_all
listener-drop_all id t i [] m = refl
listener-drop_all id t i (topic ∷ topics) m = ground (
  arith,
  listener-drop_all id t i topics (drop_listener id topic m),
  listener-drop_listener id topic t i m,
)

pub listener-remove_all_subscriptions :
    (id t i : String) (m : Dict (Dict ℕ))
    → listener t i (remove_all_subscriptions id m) ≡ (if id == i then none else listener t i m)
unfolding remove_all_subscriptions
listener-remove_all_subscriptions id t i m = elim (Bool-cases (mem_key t (keys m))) [
  | inl e ↦ ground (arith, e, listener-drop_all id t i (keys m) m)
  | inr e ↦ ground (
    arith,
    e,
    listener-drop_all id t i (keys m) m,
    lookup-mem_key t m,
    lookup-empty i nobody refl,
  )
]
