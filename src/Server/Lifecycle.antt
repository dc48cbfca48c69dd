-- ===== src/Server/Lifecycle.antt =====
-- What is left of the application of cmd/server/app.go after `Stop`.
use pub_sub_go.Base.{
  ◌≡◌, refl, ap, ◌∙◌, ◌⊎◌, inl, inr, String, true, false, Option, none, some, List, [], ◌∷◌, Dict,
  lookup, arith, lookup-insert, eq_iff,
}
use pub_sub_go.Result.{Result, ok, err}
use pub_sub_go.Ack.Reports.{mem_name}
use pub_sub_go.Websocket.Types.{Connection, Hub}
use pub_sub_go.Websocket.Connections.{close}
use pub_sub_go.Websocket.Hub.{keys, changed_in, changed, close_all, shutdown}
use pub_sub_go.Server.Startup.{
  Mode, adapter_client, Settings, Outside, Task, serves_http, serves_metrics,
  waits_for_subscriptions, waits_for_acknowledgments, collects_metrics, Application, mode_of,
  new_application, Resource, Opening, pinged, noted_call, adapter_made, storage_made, init_tracing,
  new_tracer, tracing_made, init_storage, new_client, assembled, redis_client, address_of,
}
use pub_sub_go.Server.Running.{is_told, Answers, start, stop, closed}

-- Every connection that is alive has its ID in a list.
abbrev IsLeft : List String → Dict Connection → Type 0
IsLeft ids d =
    (id : String) (c : Connection)
    → lookup id d ≡ some c
    → (mem_name id ids ≡ true) ⊎ (c.is_alive ≡ false)

close-dead : (c : Connection) → (close c).is_alive ≡ false
unfolding close
close-dead c = ground arith

keys-IsLeft : (d : Dict Connection) → IsLeft (keys d) d
unfolding lookup
keys-IsLeft [] id c e = cc
keys-IsLeft ((other, c0) ∷ d) id c e = ground (arith, e, keys-IsLeft d id c)

changed-IsLeft :
    (id : String) (ids : List String) (h : Hub) (o : Option Connection)
    → lookup id h.connections ≡ o
    → IsLeft (id ∷ ids) h.connections
    → IsLeft ids (changed_in id close h o).connections
changed-IsLeft id ids h none e left asked c found =
    ground (arith, e, eq_iff id asked, left asked c found)
changed-IsLeft id ids h (some c0) e left asked c found = ground (
  arith,
  found,
  eq_iff id asked,
  left asked c,
  close-dead c0,
  lookup-insert id asked (close c0) h.connections,
)

close_all-IsLeft :
    (ids : List String) (h : Hub)
    → IsLeft ids h.connections
    → IsLeft [] (close_all ids h).connections
unfolding close_all
close_all-IsLeft [] h left = left
close_all-IsLeft (id ∷ ids) h left =
    close_all-IsLeft ids (changed id close h)
      (changed-IsLeft id ids h (lookup id h.connections) refl left)

shutdown-dead :
    (h : Hub) (id : String) (c : Connection)
    → lookup id (shutdown h).connections ≡ some c
    → c.is_alive ≡ false
unfolding shutdown
shutdown-dead h id c e =
    elim (close_all-IsLeft (keys h.connections) h (keys-IsLeft h.connections) id c e) [
      | inl p ↦ cc
      | inr p ↦ p
    ]

-- Every goroutine that the wait group counts is told to end, no worker of the acknowledgments runs,
-- and no websocket connection is alive.
abbrev pub IsDown : Application → Type 0
IsDown a =
    ((t : Task) → is_told a t ≡ true)
    × (a.ack_workers ≡ [])
    × ((id : String) (c : Connection) → lookup id a.hub.connections ≡ some c → c.is_alive ≡ false)

all_told :
    (answers : Answers) (a : Application) (t : Task) → is_told (stop answers (start a)).1 t ≡ true
unfolding stop start
all_told answers a serves_http = refl
all_told answers a serves_metrics = refl
all_told answers a waits_for_subscriptions = refl
all_told answers a waits_for_acknowledgments = refl
all_told answers a collects_metrics = refl

-- An application that was started and is stopped is down, whichever of its parts fail to stop: each
-- goroutine of the wait group is told to end, no worker of the acknowledgments runs, and no websocket
-- connection is alive.
pub stop-IsDown : (answers : Answers) (a : Application) → IsDown (stop answers (start a)).1
unfolding stop start
stop-IsDown answers a = (all_told answers a, refl, shutdown-dead a.hub)

adapter_left :
    (out : Outside) (cfg : Settings) (before after : List Resource) (o : Option Mode)
    → noted_call "failed to create Redis adapter client" (pinged out before o) ≡ some (ok tt, after)
    → (m : Mode) × (o ≡ some m) × (after ≡ adapter_client m ∷ before)
adapter_left out cfg before after none e = cc
adapter_left out cfg before after (some m) e = (m, refl, ground (arith, e))

adapter_made_left :
    (out : Outside) (cfg : Settings) (before after : List Resource) (r : Result (Unit {0}))
    → adapter_made out cfg before r ≡ some (ok tt, after)
    → (m : Mode) × (mode_of cfg ≡ some m) × (after ≡ adapter_client m ∷ before)
unfolding adapter_made new_client
adapter_made_left out cfg before after (ok _) e = adapter_left out cfg before after (mode_of cfg) e
adapter_made_left out cfg before after (err x) e = cc

storage_made_lem :
    (r : Option (Opening (Unit {0}))) (a : Application) (opened : List Resource)
    → storage_made r ≡ some (ok a, opened)
    → (r ≡ some (ok tt, opened)) × (a.opened ≡ opened)
unfolding storage_made assembled
storage_made_lem none a opened e = cc
storage_made_lem (some (err x, o)) a opened e = cc
storage_made_lem (some (ok tt, o)) a opened e = (ground (arith, e), ground (arith, e))

init_tracing_left : (out : Outside) (cfg : Settings) → closed (init_tracing out cfg []).1 ≡ []
unfolding init_tracing new_tracer closed
init_tracing_left out cfg = ground arith

tracing_made_left :
    (out : Outside) (cfg : Settings) (r : Opening (Unit {0})) (a : Application)
    (opened : List Resource)
    → closed r.1 ≡ []
    → tracing_made out cfg r ≡ some (ok a, opened)
    → (m : Mode) × (mode_of cfg ≡ some m) × (closed a.opened ≡ adapter_client m ∷ [])
unfolding tracing_made init_storage closed
tracing_made_left out cfg (err x, o) a opened nothing e = cc
tracing_made_left out cfg (ok _, o) a opened nothing e =
    let (made, same) = storage_made_lem (init_storage out cfg o) a opened e in
    let (m, mode, left) =
      adapter_made_left out cfg (redis_client (address_of cfg.addresses) ∷ o) opened out.ping
        made in
    (m, mode, ap closed (same ∙ left) ∙ ap (λ rs. adapter_client m ∷ rs) nothing)

-- An application that was made, started and stopped has left one client open, the one of the
-- repositories, whichever of its parts fail to stop and however Redis is reached.
pub stop-left :
    (out : Outside) (cfg : Settings) (answers : Answers) (a : Application) (opened : List Resource)
    → new_application out cfg ≡ some (ok a, opened)
    → (m : Mode) × (mode_of cfg ≡ some m)
      × ((stop answers (start a)).1.opened ≡ adapter_client m ∷ [])
unfolding new_application stop start
stop-left out cfg answers a opened =
    tracing_made_left out cfg (init_tracing out cfg []) a opened (init_tracing_left out cfg)
