-- ===== src/Websocket/Rounds.antt =====
-- internal/adapters/api/websocket: the rounds of `writePump`, closing, and broadcasts keep the server
-- consistent.
use pub_sub_go.Base.{
  ℕ, suc, ◌≡◌, refl, ◌≤◌, inl, inr, String, Bool, Option, none, some, List, [], ◌∷◌, length, lookup,
  arith, Bool-cases,
}
use pub_sub_go.Base.Options.{◌>>=◌}
use pub_sub_go.Base.Int.{ℤ}
use pub_sub_go.Websocket.Types.{Outgoing, Connection, Hub, MessagePayload}
use pub_sub_go.Websocket.Connections.{close, end_writing, write_queued, write_round, ping_round}
use pub_sub_go.Websocket.Hub.{
  keys, changed, deliver_to, deliver_all, broadcast_to_topic, close_all, shutdown,
}
use pub_sub_go.Websocket.Consistency.{
  IsConsistent, IsSound, put-IsConsistent, changed-IsConsistent, send_message-IsSound,
  close-IsSound,
}

length-write_queued :
    (writes : ℕ → Bool) (i : ℕ) (ms : List Outgoing)
    → length (write_queued writes i ms).1 ≤ length ms
unfolding write_queued
length-write_queued writes i [] = omega arith
length-write_queued writes i (m ∷ ms) = ground (arith, length-write_queued writes (suc i) ms)

write_round-IsSound :
    (done_first : Bool) (writes : ℕ → Bool) (c : Connection)
    → IsSound c
    → IsSound (write_round done_first writes c).1
unfolding write_round end_writing close
write_round-IsSound done_first writes c h = ground (arith, h, length-write_queued writes 0 c.send)

subscriptions-write_round :
    (done_first : Bool) (writes : ℕ → Bool) (c : Connection)
    → (write_round done_first writes c).1.subscriptions ≡ c.subscriptions
unfolding write_round end_writing close
subscriptions-write_round done_first writes c = ground arith

ping_round-IsSound :
    (written : Bool) (now : ℤ) (c : Connection) → IsSound c → IsSound (ping_round written now c)
unfolding ping_round end_writing close
ping_round-IsSound written now c h = ground (arith, h)

subscriptions-ping_round :
    (written : Bool) (now : ℤ) (c : Connection)
    → (ping_round written now c).subscriptions ≡ c.subscriptions
unfolding ping_round end_writing close
subscriptions-ping_round written now c = ground arith

subscriptions-close : (c : Connection) → (close c).subscriptions ≡ c.subscriptions
unfolding close
subscriptions-close c = ground arith

module _ (seen : List String) where
  pub closed-IsConsistent :
      (id : String) (h : Hub) → IsConsistent seen h → IsConsistent seen (changed id close h)
  closed-IsConsistent id h =
      changed-IsConsistent seen h id close (λ c e s. close-IsSound c s) subscriptions-close

  pub written-IsConsistent :
      (done_first : Bool) (writes : ℕ → Bool) (id : String) (h : Hub)
      → IsConsistent seen h
      → IsConsistent seen (changed id (λ c. (write_round done_first writes c).1) h)
  written-IsConsistent done_first writes id h =
      changed-IsConsistent seen h id (λ c. (write_round done_first writes c).1)
        (λ c e. write_round-IsSound done_first writes c)
        (subscriptions-write_round done_first writes)

  pub pinged-IsConsistent :
      (written : Bool) (now : ℤ) (id : String) (h : Hub)
      → IsConsistent seen h
      → IsConsistent seen (changed id (ping_round written now) h)
  pinged-IsConsistent written now id h =
      changed-IsConsistent seen h id (ping_round written now)
        (λ c e. ping_round-IsSound written now c) (subscriptions-ping_round written now)

  close_all-IsConsistent :
      (ids : List String) (h : Hub) → IsConsistent seen h → IsConsistent seen (close_all ids h)
  unfolding close_all
  close_all-IsConsistent [] h i = i
  close_all-IsConsistent (id ∷ ids) h i =
      close_all-IsConsistent ids (changed id close h) (closed-IsConsistent id h i)

  pub shutdown-IsConsistent : (h : Hub) → IsConsistent seen h → IsConsistent seen (shutdown h)
  unfolding shutdown
  shutdown-IsConsistent h = close_all-IsConsistent (keys h.connections) h

  abbrev pub IsFineHub : Option Hub → Type 0
  IsFineHub none = ⊥
  IsFineHub (some h) = IsConsistent seen h

  deliver_to-IsFineHub :
      (done_first : Bool) (m : Outgoing) (id : String) (h : Hub) (o : Option Connection)
      → lookup id h.connections ≡ o
      → IsConsistent seen h
      → IsFineHub (deliver_to done_first m id h o)
  unfolding deliver_to
  deliver_to-IsFineHub done_first m id h none e i = i
  deliver_to-IsFineHub done_first m id h (some c) e i = elim (Bool-cases c.is_alive) [
    | inl alive ↦
        let (d, made, same, sound) =
          send_message-IsSound done_first m c (i.sound id c e)
            (ground (arith, alive, i.sound id c e)) in
        rw (made, alive) (put-IsConsistent seen h id c d e same sound i)
    | inr dead ↦ rw dead i
  ]

  then-IsFineHub :
      (o : Option Hub) (f : Hub → Option Hub)
      → IsFineHub o
      → ((h : Hub) → IsConsistent seen h → IsFineHub (f h))
      → IsFineHub (o >>= f)
  then-IsFineHub none f i k = i
  then-IsFineHub (some h) f i k = k h i

  deliver_all-IsFineHub :
      (done_first : Bool) (m : Outgoing) (ids : List String) (h : Hub)
      → IsConsistent seen h
      → IsFineHub (deliver_all done_first m ids h)
  unfolding deliver_all
  deliver_all-IsFineHub done_first m [] h i = i
  deliver_all-IsFineHub done_first m (id ∷ ids) h i =
      then-IsFineHub (deliver_to done_first m id h (lookup id h.connections))
        (deliver_all done_first m ids)
        (deliver_to-IsFineHub done_first m id h (lookup id h.connections) refl i)
        (λ next. deliver_all-IsFineHub done_first m ids next)

  pub broadcast_to_topic-IsFineHub :
      (done_first : Bool) (topic : String) (payload : MessagePayload) (now : ℤ) (h : Hub)
      → IsConsistent seen h
      → IsFineHub (broadcast_to_topic done_first topic payload now h)
  unfolding broadcast_to_topic
  broadcast_to_topic-IsFineHub done_first topic payload now h =
      deliver_all-IsFineHub done_first _ _ h
