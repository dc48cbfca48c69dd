-- ===== src/Websocket/Registry.antt =====
-- internal/adapters/api/websocket: connections and subscriptions come and go, and the maps stay
-- consistent.
use pub_sub_go.Base.{
  ◌≡◌, refl, ap, String, false, List, some, [], ◌∷◌, ◌++◌, length, insert, delete, lookup, arith,
  eq_iff, lookup-insert, lookup-delete,
}
use pub_sub_go.Base.Int.{ℤ}
use pub_sub_go.Websocket.Types.{Connection, Subscription, Hub}
use pub_sub_go.Websocket.Connections.{create_connection}
use pub_sub_go.Websocket.Hub.{
  own_place, register_connection, unregister_connection, listeners, add_subscription,
  drop_subscription,
}
use pub_sub_go.Websocket.Listeners.{
  listener-insert, listener-drop_listener, listener-remove_all_subscriptions,
}
use pub_sub_go.Websocket.Consistency.{
  IsConsistent, among, held-insert, insert-AllSound, insert-fresh,
}
use pub_sub_go.Websocket.Filled.{
  insert-insert-IsFilled, drop_listener-IsFilled, remove_all_subscriptions-IsFilled,
}
use pub_sub_go.Websocket.Pointers.{
  held-delete, delete-AllSound, Points-delete, Points-insert, Points-append, own_added,
}

module _ (seen : List String) where
  pub unregister_connection-IsConsistent :
      (id : String) (h : Hub) → IsConsistent seen h → IsConsistent seen (unregister_connection id h)
  unfolding unregister_connection
  unregister_connection-IsConsistent id h i = record {
    agrees = λ topic asked. ground (
      arith,
      i.agrees topic asked,
      held-delete topic asked id h.connections,
      listener-remove_all_subscriptions id topic asked h.subscriptions,
    );
    sound = delete-AllSound id h.connections i.sound;
    filled = remove_all_subscriptions-IsFilled id h.subscriptions i.filled;
    points = Points-delete id h.heap h.connections i.points;
    fresh = λ k le. ground (arith, i.fresh k le, lookup-delete id k h.connections);
  }

  pub register_connection-IsConsistent :
      (id remote_addr user_agent : String) (now : ℤ) (h : Hub)
      → among id seen ≡ false
      → IsConsistent seen h
      → IsConsistent
          (id ∷ seen)
          (register_connection (create_connection id remote_addr user_agent now) h)
  unfolding register_connection create_connection lookup among
  register_connection-IsConsistent id remote_addr user_agent now h new i =
      let c = create_connection id remote_addr user_agent now in
      record {
        agrees = λ topic asked. ground (
          arith,
          i.agrees topic asked,
          held-insert topic asked id c h.connections,
          i.fresh id new,
          eq_iff id asked,
          ap (own_place topic) (i.fresh id new),
        );
        sound = insert-AllSound id c h.connections (refl, refl, refl, omega arith) i.sound;
        filled = i.filled;
        points = Points-insert id c h.heap h.connections (λ topic place e. cc) i.points;
        fresh = λ k le.
            ground
              (arith, le, i.fresh k, lookup-insert id k c h.connections, eq_iff id k, eq_iff k id);
      }

  pub add_subscription-IsConsistent :
      (id topic : String) (sub : Subscription) (h : Hub) (c : Connection)
      → lookup id h.connections ≡ some c
      → sub.topic ≡ topic
      → sub.connection_id ≡ id
      → IsConsistent seen h
      → IsConsistent seen (add_subscription id topic sub h)
  unfolding add_subscription
  add_subscription-IsConsistent id topic sub h c e named owned i =
      let place = length h.heap in
      let d = record c { subscriptions = insert topic place c.subscriptions } in
      rw e (record {
        agrees = λ t asked. ground (
          arith,
          i.agrees t asked,
          held-insert t asked id d h.connections,
          lookup-insert topic t place c.subscriptions,
          listener-insert t topic asked (insert id place (listeners topic h.subscriptions))
              h.subscriptions,
          lookup-insert id asked place (listeners topic h.subscriptions),
          eq_iff id asked,
          eq_iff topic t,
          ap (own_place t) e,
        );
        sound = insert-AllSound id d h.connections (i.sound id c e) i.sound;
        filled =
            insert-insert-IsFilled topic id place (listeners topic h.subscriptions) h.subscriptions
              i.filled;
        points =
            Points-insert id d (h.heap ++ sub ∷ []) h.connections
              (own_added id topic sub h.heap c.subscriptions named owned
                (λ t place e'. i.points t id place (cc (ap (own_place t) e, e'))))
              (Points-append h.heap sub h.connections i.points);
        fresh = λ k le. insert-fresh id k c d h.connections e (i.fresh k le);
      })

  pub drop_subscription-IsConsistent :
      (id topic : String) (h : Hub) (c : Connection)
      → lookup id h.connections ≡ some c
      → IsConsistent seen h
      → IsConsistent seen (drop_subscription id topic h)
  unfolding drop_subscription
  drop_subscription-IsConsistent id topic h c e i =
      let d = record c { subscriptions = delete topic c.subscriptions } in
      rw e (record {
        agrees = λ t asked. ground (
          arith,
          i.agrees t asked,
          held-insert t asked id d h.connections,
          lookup-delete topic t c.subscriptions,
          listener-drop_listener id topic t asked h.subscriptions,
          eq_iff id asked,
          eq_iff topic t,
          ap (own_place t) e,
        );
        sound = insert-AllSound id d h.connections (i.sound id c e) i.sound;
        filled = drop_listener-IsFilled id topic h.subscriptions i.filled;
        points =
            Points-insert id d h.heap h.connections
              (λ t place e'. ground (
                arith,
                e',
                lookup-delete topic t c.subscriptions,
                i.points t id place,
                ap (own_place t) e,
              ))
              i.points;
        fresh = λ k le. insert-fresh id k c d h.connections e (i.fresh k le);
      })
