-- ===== src/Websocket/Leaving.antt =====
-- internal/adapters/api/websocket: what is left of a client that goes, and of the messages to one that
-- cannot be written to.
use pub_sub_go.Base.{
  ℕ, zero, suc, ◌+◌, ◌<◌, ◌≤◌, ◌⊎◌, take, ◌∙◌, true, ◌≡◌, refl, ap, inl, inr, String, Bool, false,
  none, some, List, [], ◌∷◌, length, lookup, if◌then◌else◌, arith, eq_refl, lookup-insert_self,
  lookup-delete, Bool-cases,
}
use pub_sub_go.Base.Int.{ℤ}
use pub_sub_go.Websocket.Types.{WsEnv, World, Hub, Connection, Outgoing}
use pub_sub_go.Websocket.Connections.{close, end_writing, write_queued, write_round}
use pub_sub_go.Websocket.Hub.{changed, unregister_connection}
use pub_sub_go.Websocket.Session.{State}
use pub_sub_go.Websocket.Listeners.{listener, listener-remove_all_subscriptions}
use pub_sub_go.Websocket.Serve.{Round, read_fails, leaves, leave_found, step, serve_all}

fine_from :
    (writes : ℕ → Bool) (i n : ℕ)
    → writes i ≡ true
    → ((j : ℕ) → j < n → writes (suc i + j) ≡ true)
    → (j : ℕ) → j < suc n
    → writes (i + j) ≡ true
fine_from writes i n e fine zero l = ap writes (omega arith) ∙ e
fine_from writes i n e fine (suc j) l = ap writes (omega arith) ∙ fine j (omega (arith, l))

-- The writes of a pump's loop: how many succeed before the first that fails, if any does.
write_queued_lem :
    (writes : ℕ → Bool) (i : ℕ) (ms : List Outgoing)
    → (n : ℕ) × (n ≤ length ms)
      × ((j : ℕ) → j < n → writes (i + j) ≡ true)
      × ((write_queued writes i ms).0 ≡ take n ms)
      × (((n ≡ length ms)
            × ((write_queued writes i ms).1 ≡ [])
            × ((write_queued writes i ms).2 ≡ false))
          ⊎ ((n < length ms) × (writes (i + n) ≡ false) × ((write_queued writes i ms).2 ≡ true)))
unfolding write_queued
write_queued_lem writes i [] =
    (0, omega arith, (λ j l. absurd (omega (arith, l))), refl, inl (refl, refl, refl))
write_queued_lem writes i (m ∷ ms) =
    let (n, few, fine, same, ends) = write_queued_lem writes (suc i) ms in
    elim (Bool-cases (writes i)) [
      | inl e ↦ rw e (
        suc n,
        omega (arith, few),
        fine_from writes i n e fine,
        ap (◌∷◌ m) same,
        elim ends [
          | inl (all, none_left, ok') ↦ inl (omega (arith, all), none_left, ok')
          | inr (some_left, fails, bad) ↦
              inr (omega (arith, some_left), ap writes (omega arith) ∙ fails, bad)
        ],
      )
      | inr e ↦ rw e (
        0,
        omega arith,
        (λ j l. absurd (omega (arith, l))),
        refl,
        inr (omega arith, ap writes (omega arith) ∙ e, refl),
      )
    ]

-- What is known of a connection whose pump has returned: it is closed, and no round writes anything
-- to it any more.
abbrev pub IsEnded : Connection → Type 0
IsEnded d =
    (d.is_alive ≡ false)
    × ((done_first : Bool) (writes : ℕ → Bool) → write_round done_first writes d ≡ ([], d))

ended_lem : (c : Connection) → IsEnded (end_writing c)
unfolding write_round end_writing close
ended_lem c = (ground arith, λ done_first writes. refl)

-- What a round makes of the connection, when `n` of its messages are written.
abbrev pub IsLeft : (writes : ℕ → Bool) (n : ℕ) (c d : Connection) → Type 0
IsLeft writes n c d =
    ((n ≡ length c.send) × (d ≡ record c { send = [] }))
    ⊎ ((n < length c.send) × (writes n ≡ false) × IsEnded d)

ended_by :
    (writes : ℕ → Bool) (c : Connection) (n : ℕ) (failed : Bool) (ms : List Outgoing)
    → (((n ≡ length c.send) × (ms ≡ []) × (failed ≡ false))
        ⊎ ((n < length c.send) × (writes (0 + n) ≡ false) × (failed ≡ true)))
    → IsLeft writes n c
        (if failed then end_writing (record c { send = ms }) else record c { send = ms })
ended_by writes c n true ms (inl (all, none_left, ok')) = absurd (cc ok')
ended_by writes c n true ms (inr (some_left, fails, bad)) =
    inr (some_left, ap writes (omega arith) ∙ fails, ended_lem (record c { send = ms }))
ended_by writes c n false ms (inl (all, none_left, ok')) =
    inl (all, ap (λ left. record c { send = left }) none_left)
ended_by writes c n false ms (inr (some_left, fails, bad)) = absurd (cc bad)

write_round_lem :
    (done_first : Bool) (writes : ℕ → Bool) (c : Connection)
    → c.writing ≡ true
    → c.cancelled ≡ false
    → c.send_closed ≡ false
    → let r = write_queued writes 0 c.send in
      let left = record c { send = r.1 } in
      write_round done_first writes c ≡ (r.0, if r.2 then end_writing left else left)
unfolding write_round
write_round_lem done_first writes c runs free open' = ground (arith, runs, free, open')

-- A round of the pump of an open connection writes the messages that wait, in their order, up to the
-- first whose write fails. When no write fails, all are written and the connection is as before with
-- none that waits. Otherwise the connection is closed, and no later round writes anything: that
-- message and those after it are lost.
pub write_round_order :
    (done_first : Bool) (writes : ℕ → Bool) (c : Connection)
    → c.writing ≡ true
    → c.cancelled ≡ false
    → c.send_closed ≡ false
    → (n : ℕ) × (n ≤ length c.send)
      × ((j : ℕ) → j < n → writes j ≡ true)
      × ((write_round done_first writes c).0 ≡ take n c.send)
      × IsLeft writes n c (write_round done_first writes c).1
write_round_order done_first writes c runs free open' =
    let (n, few, fine, same, ends) = write_queued_lem writes 0 c.send in
    let r = write_queued writes 0 c.send in
    rw (write_round_lem done_first writes c runs free open')
      (n, few, (λ j l. ap writes (omega arith) ∙ fine j l), same, ended_by writes c n r.2 r.1 ends)

abbrev pub going : String → Bool → ℤ → List Round
going id done_first now =
    record { event = read_fails id; done_first = done_first; now = now }
    ∷ record { event = leaves id; done_first = done_first; now = now }
    ∷ []

is_alive-close : (c : Connection) → (close c).is_alive ≡ false
unfolding close
is_alive-close c = ground arith

-- What is known of a world in which a connection is gone.
abbrev pub IsGone : {S : Type 0} → String → World S → World S → Type 0
IsGone id w w' =
    (lookup id w'.hub.connections ≡ none)
    × ((topic : String) → listener topic id w'.hub.subscriptions ≡ none)
    × (w'.service ≡ w.service)

closed_leaves :
    (id : String) (h : Hub) (c : Connection)
    → lookup id h.connections ≡ some c
    → leave_found id (changed id close h) (lookup id (changed id close h).connections)
      ≡ unregister_connection id (changed id close h)
unfolding leave_found
closed_leaves id h c e =
    rw e (rw (lookup-insert_self id (close c) h.connections, is_alive-close c) refl)

forgotten : (id : String) (h : Hub) → lookup id (unregister_connection id h).connections ≡ none
unfolding unregister_connection
forgotten id h = rw (lookup-delete id id h.connections, eq_refl id) refl

silent :
    (id topic : String) (h : Hub)
    → listener topic id (unregister_connection id h).subscriptions ≡ none
unfolding unregister_connection
silent id topic h =
    ground (arith, listener-remove_all_subscriptions id topic id h.subscriptions, eq_refl id)

module _ {V : Type 0} (env : WsEnv V) where
  open env use {formats}

  -- When the client of a registered connection is gone, the server forgets the connection and that it
  -- listens to any topic; and the state of the subscriber service is the one of before.
  pub serve_all-IsGone :
      (id : String) (done_first : Bool) (now : ℤ) (w : State env) (c : Connection)
      → lookup id w.hub.connections ≡ some c
      → (w' : State env) × (serve_all env w (going id done_first now) ≡ some w') × IsGone id w w'
  unfolding serve_all step
  serve_all-IsGone id done_first now w c e =
      let h = changed id close w.hub in
      (
        record w { hub = unregister_connection id h },
        ap (λ hub. some (record w { hub = hub })) (closed_leaves id w.hub c e),
        (forgotten id h, (λ topic. silent id topic h), refl),
      )
