-- ===== src/Websocket/Answers.antt =====
-- internal/adapters/api/websocket: the handlers of messages keep the server consistent and do not
-- panic, on a connection whose context is not done.
use pub_sub_go.Base.{
  ℕ, ◌≡◌, refl, ◌∙◌, inl, inr, String, List, Bool, false, Option, none, some, lookup, get_elem?,
  ◌==◌, lookup-insert_self, Bool-cases,
}
use pub_sub_go.Base.Int.{ℤ}
use pub_sub_go.Result.{Result, Error, ok, err}
use pub_sub_go.Subscriber.Types.{SubscribeResponse}
use pub_sub_go.Websocket.Types.{
  WsEnv, Hub, WsMessage, Outgoing, Connection, Subscription, SubscribePayload,
}
use pub_sub_go.Websocket.Hub.{own_place, changed, add_subscription, drop_subscription}
use pub_sub_go.Websocket.Session.{State, send, send_error}
use pub_sub_go.Websocket.Subscribing.{
  subscribed, subscribe_new, subscribe_parsed, unsubscribe_found, unsubscribe_held,
  unsubscribe_parsed, new_subscription,
}
use pub_sub_go.Websocket.Consistency.{
  IsConsistent, HasSubscription, put-IsConsistent, send_message-IsSound,
}
use pub_sub_go.Websocket.Registry.{add_subscription-IsConsistent, drop_subscription-IsConsistent}

-- A connection that is registered and whose context is not done.
abbrev pub IsOpen : String → Hub → Type 0
IsOpen id h = (c : Connection) × (lookup id h.connections ≡ some c) × (c.cancelled ≡ false)

pub changed-IsOpen :
    (id : String) (f : Connection → Connection) (h : Hub)
    → ((c : Connection) → (f c).cancelled ≡ c.cancelled)
    → IsOpen id h
    → IsOpen id (changed id f h)
changed-IsOpen id f h same (c, e, free) =
    (f c, rw e (lookup-insert_self id (f c) h.connections), same c ∙ free)

module _ {V : Type 0} (env : WsEnv V) (seen : List String) where
  open env use {formats}
  open formats use {Raw}

  abbrev pub IsKept : Hub → Type 0
  IsKept = IsConsistent seen

  abbrev pub IsFine : Option (State env) → Type 0
  IsFine none = ⊥
  IsFine (some w) = IsKept w.hub

  module _ (done_first : Bool) (now : ℤ) where
    pub send-IsFine :
        (id : String) (m : Outgoing) (w : State env)
        → IsOpen id w.hub
        → IsKept w.hub
        → IsFine (send env done_first now id m w)
    send-IsFine id m w (c, e, free) kept =
        let (d, made, same, sound) = send_message-IsSound done_first m c (kept.sound id c e) free in
        rw (e, made) (put-IsConsistent seen w.hub id c d e same sound kept)

    pub send_error-IsFine :
        (id note : String) (e : Error) (w : State env)
        → IsOpen id w.hub
        → IsKept w.hub
        → IsFine (send_error env done_first now id note e w)
    unfolding send_error
    send_error-IsFine id note e w = send-IsFine id _ w

    add-IsOpen :
        (id topic : String) (sub : Subscription) (h : Hub)
        → IsOpen id h
        → IsOpen id (add_subscription id topic sub h)
    unfolding add_subscription
    add-IsOpen id topic sub h (c, e, free) = changed-IsOpen id _ h (λ c. refl) (c, e, free)

    drop-IsOpen :
        (id topic : String) (h : Hub) → IsOpen id h → IsOpen id (drop_subscription id topic h)
    unfolding drop_subscription
    drop-IsOpen id topic h (c, e, free) = changed-IsOpen id _ h (λ c. refl) (c, e, free)

    subscribed-IsFine :
        (id : String) (msg : WsMessage Raw) (p : SubscribePayload) (w : State env)
        (r : Result SubscribeResponse)
        → IsOpen id w.hub
        → IsKept w.hub
        → IsFine (subscribed env done_first now id msg p w r)
    unfolding subscribed new_subscription
    subscribed-IsFine id msg p w (err e) open' kept = send_error-IsFine id _ e w open' kept
    subscribed-IsFine id msg p w (ok r) (c, e, free) kept =
        let sub = new_subscription r.subscription_id p id now in
        send-IsFine id _ _ (add-IsOpen id p.topic sub w.hub (c, e, free))
          (add_subscription-IsConsistent seen id p.topic sub w.hub c e refl refl kept)

    subscribe_new-IsFine :
        (id : String) (msg : WsMessage Raw) (p : SubscribePayload) (o : Option ℕ) (w : State env)
        → IsOpen id w.hub
        → IsKept w.hub
        → IsFine (subscribe_new env done_first now id msg p o w)
    unfolding subscribe_new
    subscribe_new-IsFine id msg p (some place) w open' kept = send_error-IsFine id _ _ w open' kept
    subscribe_new-IsFine id msg p none w open' kept = subscribed-IsFine id msg p _ _ open' kept

    pub subscribe_parsed-IsFine :
        (id : String) (msg : WsMessage Raw) (r : Result SubscribePayload) (w : State env)
        → IsOpen id w.hub
        → IsKept w.hub
        → IsFine (subscribe_parsed env done_first now id msg r w)
    unfolding subscribe_parsed
    subscribe_parsed-IsFine id msg (err e) w open' kept = send_error-IsFine id _ e w open' kept
    subscribe_parsed-IsFine id msg (ok p) w open' kept = elim (Bool-cases (p.topic == "")) [
      | inl e ↦ rw e (send_error-IsFine id _ _ w open' kept)
      | inr e ↦ rw e (subscribe_new-IsFine id msg p _ w open' kept)
    ]

    unsubscribe_found-IsFine :
        (id : String) (msg : WsMessage Raw) (topic : String) (o : Option Subscription)
        (w : State env)
        → IsOpen id w.hub
        → IsKept w.hub
        → HasSubscription topic id o
        → IsFine (unsubscribe_found env done_first now id msg topic o w)
    unfolding unsubscribe_found
    unsubscribe_found-IsFine id msg topic none w open' kept h = h
    unsubscribe_found-IsFine id msg topic (some sub) w (c, e, free) kept h =
        send-IsFine id _ _ (drop-IsOpen id topic w.hub (c, e, free))
          (drop_subscription-IsConsistent seen id topic w.hub c e kept)

    unsubscribe_held-IsFine :
        (id : String) (msg : WsMessage Raw) (topic : String) (o : Option ℕ) (w : State env)
        → own_place topic (lookup id w.hub.connections) ≡ o
        → IsOpen id w.hub
        → IsKept w.hub
        → IsFine (unsubscribe_held env done_first now id msg topic o w)
    unfolding unsubscribe_held
    unsubscribe_held-IsFine id msg topic none w e open' kept = send_error-IsFine id _ _ w open' kept
    unsubscribe_held-IsFine id msg topic (some place) w e open' kept =
        unsubscribe_found-IsFine id msg topic (get_elem? w.hub.heap place) w open' kept
          (kept.points topic id place e)

    pub unsubscribe_parsed-IsFine :
        (id : String) (msg : WsMessage Raw) (r : Result String) (w : State env)
        → IsOpen id w.hub
        → IsKept w.hub
        → IsFine (unsubscribe_parsed env done_first now id msg r w)
    unfolding unsubscribe_parsed
    unsubscribe_parsed-IsFine id msg (err e) w open' kept = send_error-IsFine id _ e w open' kept
    unsubscribe_parsed-IsFine id msg (ok topic) w open' kept = elim (Bool-cases (topic == "")) [
      | inl e ↦ rw e (send_error-IsFine id _ _ w open' kept)
      | inr e ↦ rw e (unsubscribe_held-IsFine id msg topic _ w refl open' kept)
    ]
