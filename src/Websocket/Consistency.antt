-- ===== src/Websocket/Consistency.antt =====
-- internal/adapters/api/websocket: the two maps of subscriptions agree, and what a connection says of
-- itself is true, through every change of the server.
use pub_sub_go.Base.{
  ℕ, ◌≡◌, refl, sym, ap, ◌∙◌, ◌<◌, ◌≤◌, inl, inr, String, Bool, false, not, ◌||◌, Option, none,
  some, List, [], ◌∷◌, ◌++◌, Dict, length, insert, lookup, get_elem?, if◌then◌else◌, ltb, arith,
  ◌==◌, eq_iff, lookup-insert, length-append, Bool-cases,
}
use pub_sub_go.Websocket.Types.{Outgoing, Connection, Subscription, Hub}
use pub_sub_go.Websocket.Connections.{close, send_message}
use pub_sub_go.Websocket.Hub.{new_server, own_place, changed, changed_in}
use pub_sub_go.Websocket.Listeners.{listener}

-- A connection is alive exactly while its context is not done and its channel open; the channel was
-- closed once at most, and takes 256 messages.
abbrev pub IsSound : Connection → Type 0
IsSound c =
    (c.send_closed ≡ not c.is_alive)
    × (c.cancelled ≡ not c.is_alive)
    × (c.panicked ≡ false)
    × (length c.send ≤ 256)

-- The subscription to the topic that the connection's own map has.
abbrev pub held : String → String → Dict Connection → Option ℕ
held topic id cs = own_place topic (lookup id cs)

abbrev pub Agrees : Hub → Type 0
Agrees h = (topic id : String) → listener topic id h.subscriptions ≡ held topic id h.connections

abbrev pub AllSound : Dict Connection → Type 0
AllSound cs = (id : String) (c : Connection) → lookup id cs ≡ some c → IsSound c

-- A place in the heap has the subscription of the connection to the topic.
abbrev pub HasSubscription : String → String → Option Subscription → Type 0
HasSubscription topic id none = ⊥
HasSubscription topic id (some sub) = (sub.topic ≡ topic) × (sub.connection_id ≡ id)

abbrev pub Points : List Subscription → Dict Connection → Type 0
Points heap cs =
    (topic id : String) (place : ℕ)
    → held topic id cs ≡ some place
    → HasSubscription topic id (get_elem? heap place)

abbrev pub IsFilled : Dict (Dict ℕ) → Type 0
IsFilled m = (topic : String) (d : Dict ℕ) → lookup topic m ≡ some d → 0 < length d

pub close-IsSound : (c : Connection) → IsSound c → IsSound (close c)
unfolding close
close-IsSound c h = ground (arith, h)

pub send_message-IsSound :
    (done_first : Bool) (m : Outgoing) (c : Connection)
    → IsSound c
    → c.cancelled ≡ false
    → (d : Connection) × (send_message done_first m c ≡ some d)
      × (d.subscriptions ≡ c.subscriptions)
      × IsSound d
unfolding send_message close
send_message-IsSound done_first m c h open' = elim (Bool-cases (ltb (length c.send) 256)) [
  | inl e ↦ (
    record c { send = c.send ++ m ∷ [] },
    ground (arith, e, h, open'),
    refl,
    ground (arith, e, h, length-append c.send (m ∷ [])),
  )
  | inr e ↦ (close c, ground (arith, e, h, open'), ground arith, ground (arith, h))
]

unfoldable pub among : String → List String → Bool
among id [] = false
among id (other ∷ ids) = id == other || among id ids

-- The invariant of the server: its map of listeners has the pointers that the connections have, each
-- to a subscription of the connection to the topic, and no topic without a listener; every connection
-- is sound; and those registered have an identifier that was seen.
pub record IsConsistent (seen : List String) (h : Hub) : Type 0 where
  pub agrees : Agrees h
  pub sound : AllSound h.connections
  pub filled : IsFilled h.subscriptions
  pub points : Points h.heap h.connections
  pub fresh : (id : String) → among id seen ≡ false → lookup id h.connections ≡ none

pub held-insert :
    (topic asked id : String) (d : Connection) (cs : Dict Connection)
    → held topic asked (insert id d cs)
      ≡ (if id == asked then lookup topic d.subscriptions else held topic asked cs)
held-insert topic asked id d cs = ground (arith, ap (own_place topic) (lookup-insert id asked d cs))

held-insert_same :
    (topic asked id : String) (c d : Connection) (cs : Dict Connection)
    → lookup id cs ≡ some c
    → d.subscriptions ≡ c.subscriptions
    → held topic asked (insert id d cs) ≡ held topic asked cs
held-insert_same topic asked id c d cs e s = ground (
  arith,
  held-insert topic asked id d cs,
  eq_iff id asked,
  ap (own_place topic) e,
  ap (lookup topic) s,
)

pub insert-AllSound :
    (id : String) (d : Connection) (cs : Dict Connection)
    → IsSound d
    → AllSound cs
    → AllSound (insert id d cs)
insert-AllSound id d cs s h asked c e = ground (arith, s, e, lookup-insert id asked d cs, h asked c)

pub insert-fresh :
    (id asked : String) (c d : Connection) (cs : Dict Connection)
    → lookup id cs ≡ some c
    → lookup asked cs ≡ none
    → lookup asked (insert id d cs) ≡ none
insert-fresh id asked c d cs e n =
    ground (arith, e, n, lookup-insert id asked d cs, eq_iff id asked)

module _ (seen : List String) where
  -- A change of one connection that leaves its subscriptions.
  pub put-IsConsistent :
      (h : Hub) (id : String) (c d : Connection)
      → lookup id h.connections ≡ some c
      → d.subscriptions ≡ c.subscriptions
      → IsSound d
      → IsConsistent seen h
      → IsConsistent seen (record h { connections = insert id d h.connections })
  put-IsConsistent h id c d e s sound i = record {
    agrees = λ topic asked.
        i.agrees topic asked ∙ sym (held-insert_same topic asked id c d h.connections e s);
    sound = insert-AllSound id d h.connections sound i.sound;
    filled = i.filled;
    points = λ topic asked place p.
        i.points topic asked place
          (sym (held-insert_same topic asked id c d h.connections e s) ∙ p);
    fresh = λ k le. insert-fresh id k c d h.connections e (i.fresh k le);
  }

  changed_found :
      (h : Hub) (id : String) (f : Connection → Connection) (o : Option Connection)
      → lookup id h.connections ≡ o
      → ((c : Connection) → lookup id h.connections ≡ some c → IsSound c → IsSound (f c))
      → ((c : Connection) → (f c).subscriptions ≡ c.subscriptions)
      → IsConsistent seen h
      → IsConsistent seen (changed_in id f h o)
  changed_found h id f none e k s i = i
  changed_found h id f (some c) e k s i =
      put-IsConsistent h id c (f c) e (s c) (k c e (i.sound id c e)) i

  pub changed-IsConsistent :
      (h : Hub) (id : String) (f : Connection → Connection)
      → ((c : Connection) → lookup id h.connections ≡ some c → IsSound c → IsSound (f c))
      → ((c : Connection) → (f c).subscriptions ≡ c.subscriptions)
      → IsConsistent seen h
      → IsConsistent seen (changed id f h)
  changed-IsConsistent h id f = changed_found h id f (lookup id h.connections) refl

  pub new_server-IsConsistent : IsConsistent seen new_server
  unfolding new_server lookup
  new_server-IsConsistent = record {
    agrees = λ topic id. refl;
    sound = λ id c e. cc;
    filled = λ topic d e. cc;
    points = λ topic id place e. cc;
    fresh = λ k le. refl;
  }
