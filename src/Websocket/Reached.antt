-- ===== src/Websocket/Reached.antt =====
-- internal/adapters/api/websocket: whatever the goroutines do, the server stays consistent and no
-- round panics.
use pub_sub_go.Base.{
  ℕ, ◌≡◌, refl, inl, inr, String, Bool, true, not, ◌&&◌, arith, Option, none, some, List, [], ◌∷◌,
  lookup, Bool-cases,
}
use pub_sub_go.Base.Options.{◌>>=◌}
use pub_sub_go.Base.Int.{ℤ}
use pub_sub_go.Subscriber.Pull
use pub_sub_go.Websocket.Types.{WsEnv, Hub, Connection}
use pub_sub_go.Websocket.Connections.{generate_connection_id}
use pub_sub_go.Websocket.Hub.{broadcast_to_topic}
use pub_sub_go.Websocket.Session.{State, in_hub}
use pub_sub_go.Websocket.Consistency.{among, new_server-IsConsistent}
use pub_sub_go.Websocket.Registry.{
  register_connection-IsConsistent, unregister_connection-IsConsistent,
}
use pub_sub_go.Websocket.Rounds.{
  IsFineHub, closed-IsConsistent, written-IsConsistent, pinged-IsConsistent, shutdown-IsConsistent,
  broadcast_to_topic-IsFineHub,
}
use pub_sub_go.Websocket.Answers.{IsKept, IsFine}
use pub_sub_go.Websocket.Messages.{handle_message-IsFine}
use pub_sub_go.Websocket.Serve.{
  Event, connects, receives, read_fails, writes, pings, leaves, broadcasts, stops, Round, start,
  leave_found, read_round, step, serve_all,
}

module _ {V : Type 0} (env : WsEnv V) where
  open env use {formats}

  -- The identifier that an event draws for a connection.
  unfoldable drawn_by : ℤ → Event → Option String
  drawn_by now (connects peer remote_addr user_agent uuid) =
      some (generate_connection_id formats peer user_agent uuid now)
  drawn_by now event = none

  unfoldable is_new : List String → Option String → Bool
  is_new seen none = true
  is_new seen (some id) = not (among id seen)

  unfoldable seen_after : List String → Option String → List String
  seen_after seen none = seen
  seen_after seen (some id) = id ∷ seen

  -- No identifier that the rounds draw is one of those or drawn before.
  unfoldable pub all_new : List String → List Round → Bool
  unfolding drawn_by is_new seen_after
  all_new seen [] = true
  all_new seen (r ∷ rs) =
      let drawn = drawn_by r.now r.event in is_new seen drawn && all_new (seen_after seen drawn) rs

  -- Those identifiers and the ones that the rounds draw.
  unfoldable pub ids_after : List String → List Round → List String
  unfolding drawn_by seen_after
  ids_after seen [] = seen
  ids_after seen (r ∷ rs) = ids_after (seen_after seen (drawn_by r.now r.event)) rs

  module _ (seen : List String) where
    read_round-IsFine :
        (done_first : Bool) (now : ℤ) (id : String) (bytes : List ℕ) (w : State env)
        (o : Option Connection)
        → lookup id w.hub.connections ≡ o
        → IsKept env seen w.hub
        → IsFine env seen (read_round env done_first now id bytes w o)
    unfolding read_round
    read_round-IsFine done_first now id bytes w none e kept = kept
    read_round-IsFine done_first now id bytes w (some c) e kept = elim (Bool-cases c.cancelled) [
      | inl done ↦ rw done (closed-IsConsistent seen id w.hub kept)
      | inr free ↦
          rw free (handle_message-IsFine env seen done_first now id bytes w (c, e, free) kept)
    ]

    leave_found-IsConsistent :
        (id : String) (h : Hub) (o : Option Connection)
        → IsKept env seen h
        → IsKept env seen (leave_found id h o)
    unfolding leave_found
    leave_found-IsConsistent id h none kept = kept
    leave_found-IsConsistent id h (some c) kept = elim (Bool-cases c.is_alive) [
      | inl alive ↦ rw alive kept
      | inr dead ↦ rw dead (unregister_connection-IsConsistent seen id h kept)
    ]

    in_hub-IsFine :
        (w : State env) (o : Option Hub) → IsFineHub seen o → IsFine env seen (in_hub w o)
    in_hub-IsFine w none h = h
    in_hub-IsFine w (some hub) h = h

    step-IsFine :
        (done_first : Bool) (now : ℤ) (event : Event) (w : State env)
        → is_new seen (drawn_by now event) ≡ true
        → IsKept env seen w.hub
        → IsFine env (seen_after seen (drawn_by now event)) (step env done_first now event w)
    unfolding step drawn_by is_new seen_after
    step-IsFine done_first now (connects peer remote_addr user_agent uuid) w new kept =
        register_connection-IsConsistent seen _ remote_addr user_agent now w.hub
          (ground (arith, new)) kept
    step-IsFine done_first now (receives id bytes) w new kept =
        read_round-IsFine done_first now id bytes w (lookup id w.hub.connections) refl kept
    step-IsFine done_first now (read_fails id) w new kept = closed-IsConsistent seen id w.hub kept
    step-IsFine done_first now (writes id written) w new kept =
        written-IsConsistent seen done_first written id w.hub kept
    step-IsFine done_first now (pings id written) w new kept =
        pinged-IsConsistent seen written now id w.hub kept
    step-IsFine done_first now (leaves id) w new kept =
        leave_found-IsConsistent id w.hub (lookup id w.hub.connections) kept
    step-IsFine done_first now (broadcasts topic payload) w new kept =
        in_hub-IsFine w (broadcast_to_topic done_first topic payload now w.hub)
          (broadcast_to_topic-IsFineHub seen done_first topic payload now w.hub kept)
    step-IsFine done_first now stops w new kept = shutdown-IsConsistent seen w.hub kept

    rest-IsFine :
        (after : List String) (o : Option (State env)) (f : State env → Option (State env))
        → IsFine env seen o
        → ((w : State env) → IsKept env seen w.hub → IsFine env after (f w))
        → IsFine env after (o >>= f)
    rest-IsFine after none f h k = absurd h
    rest-IsFine after (some w) f h k = k w h

  serve_all-kept :
      (rs : List Round) (seen : List String) (w : State env)
      → all_new seen rs ≡ true
      → IsKept env seen w.hub
      → IsFine env (ids_after seen rs) (serve_all env w rs)
  unfolding serve_all all_new ids_after
  serve_all-kept [] seen w new kept = kept
  serve_all-kept (r ∷ rs) seen w new kept =
      let after = seen_after seen (drawn_by r.now r.event) in
      rest-IsFine after (ids_after after rs) (step env r.done_first r.now r.event w)
        (λ next. serve_all env next rs)
        (step-IsFine seen r.done_first r.now r.event w (ground (arith, new)) kept)
        (λ next. serve_all-kept rs after next (ground (arith, new)))

  -- When no two connections are given the same identifier: from a new server, no round of any sequence
  -- sends on a closed channel or goes on from a subscription that is not there, and none closes the
  -- channels of a connection twice; afterwards the server's map of listeners has the pointers that the
  -- connections have, each to a subscription of that connection to that topic, no topic is without a
  -- listener, and a connection is alive exactly while its context is not done and its channel is open,
  -- with at most 256 messages in it.
  pub serve_all-IsFine :
      (service : Pull.State env.subscriber_env) (rs : List Round)
      → all_new [] rs ≡ true
      → IsFine env (ids_after [] rs) (serve_all env (start service) rs)
  unfolding start
  serve_all-IsFine service rs new =
      serve_all-kept rs [] (start service) new (new_server-IsConsistent [])
