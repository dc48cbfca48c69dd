-- ===== src/Websocket/Filled.antt =====
-- internal/adapters/api/websocket/server.go: no topic is left in the map without a listener.
use pub_sub_go.Base.{
  ℕ, ◌<◌, String, Option, none, some, List, [], ◌∷◌, Dict, length, insert, delete, lookup, arith,
  lookup-insert, lookup-delete,
}
use pub_sub_go.Websocket.Hub.{keys, drop_found, drop_listener, drop_all, remove_all_subscriptions}
use pub_sub_go.Websocket.Consistency.{IsFilled}

insert-nonempty : {A : Type 0} (key : String) (a : A) (d : Dict A) → 0 < length (insert key a d)
unfolding insert
insert-nonempty key a [] = omega arith
insert-nonempty key a (x ∷ d) = ground arith

insert-IsFilled :
    (topic : String) (d : Dict ℕ) (m : Dict (Dict ℕ))
    → 0 < length d
    → IsFilled m
    → IsFilled (insert topic d m)
insert-IsFilled topic d m some_entry h t e p =
    ground (arith, some_entry, p, lookup-insert topic t d m, h t e)

pub insert-insert-IsFilled :
    (topic id : String) (place : ℕ) (d : Dict ℕ) (m : Dict (Dict ℕ))
    → IsFilled m
    → IsFilled (insert topic (insert id place d) m)
insert-insert-IsFilled topic id place d m =
    insert-IsFilled topic (insert id place d) m (insert-nonempty id place d)

delete-IsFilled : (topic : String) (m : Dict (Dict ℕ)) → IsFilled m → IsFilled (delete topic m)
delete-IsFilled topic m h t e p = ground (arith, p, lookup-delete topic t m, h t e)

drop_found-IsFilled :
    (id topic : String) (m : Dict (Dict ℕ)) (o : Option (Dict ℕ))
    → IsFilled m
    → IsFilled (drop_found id topic m o)
unfolding drop_found
drop_found-IsFilled id topic m none h t e p = h t e p
drop_found-IsFilled id topic m (some d) h t e p =
    ground (arith, p, lookup-insert topic t (delete id d) m, lookup-delete topic t m, h t e)

pub drop_listener-IsFilled :
    (id topic : String) (m : Dict (Dict ℕ)) → IsFilled m → IsFilled (drop_listener id topic m)
unfolding drop_listener
drop_listener-IsFilled id topic m = drop_found-IsFilled id topic m (lookup topic m)

drop_all-IsFilled :
    (id : String) (topics : List String) (m : Dict (Dict ℕ))
    → IsFilled m
    → IsFilled (drop_all id topics m)
unfolding drop_all
drop_all-IsFilled id [] m h = h
drop_all-IsFilled id (topic ∷ topics) m h =
    drop_all-IsFilled id topics (drop_listener id topic m) (drop_listener-IsFilled id topic m h)

pub remove_all_subscriptions-IsFilled :
    (id : String) (m : Dict (Dict ℕ)) → IsFilled m → IsFilled (remove_all_subscriptions id m)
unfolding remove_all_subscriptions
remove_all_subscriptions-IsFilled id m = drop_all-IsFilled id (keys m) m
