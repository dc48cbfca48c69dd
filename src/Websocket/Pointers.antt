-- ===== src/Websocket/Pointers.antt =====
-- internal/adapters/api/websocket: where the pointers of connections lead after a change of the maps.
use pub_sub_go.Base.{
  ℕ, zero, suc, ◌≡◌, refl, sym, ap, ◌∙◌, String, none, some, List, [], ◌∷◌, ◌++◌, Dict, length,
  insert, delete, lookup, get_elem?, if◌then◌else◌, arith, ◌==◌, eq_iff, Bool-cases, inl, inr,
  subst, lookup-insert, lookup-delete,
}
use pub_sub_go.Websocket.Types.{Connection, Subscription}
use pub_sub_go.Websocket.Hub.{own_place}
use pub_sub_go.Websocket.Consistency.{AllSound, HasSubscription, Points, held, held-insert}

pub held-delete :
    (topic asked id : String) (cs : Dict Connection)
    → held topic asked (delete id cs) ≡ (if id == asked then none else held topic asked cs)
held-delete topic asked id cs = ground (arith, ap (own_place topic) (lookup-delete id asked cs))

pub delete-AllSound : (id : String) (cs : Dict Connection) → AllSound cs → AllSound (delete id cs)
delete-AllSound id cs h asked c e = ground (arith, e, lookup-delete id asked cs, h asked c)

pub Points-delete :
    (id : String) (heap : List Subscription) (cs : Dict Connection)
    → Points heap cs
    → Points heap (delete id cs)
Points-delete id heap cs h topic asked place e =
    ground (arith, e, held-delete topic asked id cs, h topic asked place)

-- A connection that holds less.
pub Points-insert :
    (id : String) (d : Connection) (heap : List Subscription) (cs : Dict Connection)
    → ((topic : String) (place : ℕ)
        → lookup topic d.subscriptions ≡ some place
        → HasSubscription topic id (get_elem? heap place))
    → Points heap cs
    → Points heap (insert id d cs)
Points-insert id d heap cs own h topic asked place e = ground (
  arith,
  e,
  held-insert topic asked id d cs,
  h topic asked place,
  own topic place,
  eq_iff id asked,
)

pub HasSubscription-append :
    (topic id : String) (heap : List Subscription) (sub : Subscription) (place : ℕ)
    → HasSubscription topic id (get_elem? heap place)
    → HasSubscription topic id (get_elem? (heap ++ sub ∷ []) place)
HasSubscription-append topic id [] sub place h = absurd h
HasSubscription-append topic id (s ∷ heap) sub zero h = h
HasSubscription-append topic id (s ∷ heap) sub (suc place) h =
    HasSubscription-append topic id heap sub place h

pub get_elem?-length :
    (heap : List Subscription) (sub : Subscription)
    → get_elem? (heap ++ sub ∷ []) (length heap) ≡ some sub
get_elem?-length [] sub = refl
get_elem?-length (s ∷ heap) sub = get_elem?-length heap sub

pub Points-append :
    (heap : List Subscription) (sub : Subscription) (cs : Dict Connection)
    → Points heap cs
    → Points (heap ++ sub ∷ []) cs
Points-append heap sub cs h topic id place e =
    HasSubscription-append topic id heap sub place (h topic id place e)

pub own_added :
    (id topic : String) (sub : Subscription) (heap : List Subscription) (held : Dict ℕ)
    → sub.topic ≡ topic
    → sub.connection_id ≡ id
    → ((t : String) (place : ℕ)
        → lookup t held ≡ some place
        → HasSubscription t id (get_elem? heap place))
    → (t : String) (place : ℕ) → lookup t (insert topic (length heap) held) ≡ some place
    → HasSubscription t id (get_elem? (heap ++ sub ∷ []) place)
own_added id topic sub heap held named owned h t place e = elim (Bool-cases (topic == t)) [
  | inl same ↦
      subst (HasSubscription t id)
        (sym (get_elem?-length heap sub)
          ∙ ap (get_elem? (heap ++ sub ∷ []))
              (ground (arith, e, same, lookup-insert topic t (length heap) held)))
        (ground (arith, named, owned, same, eq_iff topic t))
  | inr other ↦
      HasSubscription-append t id heap sub place
        (h t place (ground (arith, e, other, lookup-insert topic t (length heap) held)))
]
