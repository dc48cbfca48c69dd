-- ===== src/Subscriber/Delivery.antt =====
-- The channels of push subscriptions under any sequence of whole calls and ticks.
use pub_sub_go.Base.{
  ℕ, ◌≡◌, refl, ◌∙◌, String, Bool, true, not, ◌&&◌, Option, none, some, List, [], ◌∷◌, ◌++◌, Dict,
  insert, lookup, length, length-append, leb, arith, if◌then◌else◌, Bool-cases, inl, inr,
  Option-cases, subst,
}
use pub_sub_go.Base.Options.{◌>>=◌}
use pub_sub_go.Base.Int.{ℤ}
use pub_sub_go.Core.Message.{Message}
use pub_sub_go.Core.Subscription.{
  SubscriptionType, pull, push, Subscription, increment_delivered, deactivate, is_active,
}
use pub_sub_go.Result.{Result, ok, err}
use pub_sub_go.Subscriber.Types.{
  ActiveSubscription, ActiveConsumerGroup, SubscribeRequest, Task, Env,
}
use pub_sub_go.Subscriber.Pull.{State}
use pub_sub_go.Subscriber.Subscriptions.{subscribe, unsubscribe, new_active, stopped, listed_entry}
use pub_sub_go.Subscriber.Channels.{groups_open}
use pub_sub_go.Subscriber.Push.{
  channel_size, fetch, passed_over, send, sent, deliver, deliver_fetched, process_found,
  process_subscription_messages, delist_idle, cancel_listed, cancel_workers,
}

-- At most a hundred messages wait, and a closed channel has an inactive subscription that is not
-- listed.
abbrev pub is_sound : ActiveSubscription → Bool
is_sound a =
    elim a.message_chan [ none ↦ true | some queue ↦ leb (length queue) channel_size ]
    && (if a.closed then not (is_active a.subscription) && not a.listed else true)

abbrev pub all_sound : Dict ActiveSubscription → Bool
all_sound [] = true
all_sound ((id, a) ∷ rest) = let more = all_sound rest in is_sound a && more

insert_sound :
    (id : String) (a : ActiveSubscription) (m : Dict ActiveSubscription)
    → is_sound a ≡ true
    → all_sound m ≡ true
    → all_sound (insert id a m) ≡ true
unfolding insert
insert_sound id a [] ha hm = ground arith
insert_sound id a ((other, b) ∷ m) ha hm = ground (arith, insert_sound id a m)

lookup_sound :
    (id : String) (m : Dict ActiveSubscription) (a : ActiveSubscription)
    → all_sound m ≡ true
    → lookup id m ≡ some a
    → is_sound a ≡ true
unfolding lookup
lookup_sound id [] a h e = cc
lookup_sound id ((other, b) ∷ m) a h e = ground (arith, lookup_sound id m a)

pub delist_sound :
    (now : ℤ) (m : Dict ActiveSubscription)
    → all_sound m ≡ true
    → all_sound (delist_idle now m) ≡ true
unfolding delist_idle
delist_sound now [] h = refl
delist_sound now ((id, a) ∷ m) h = ground (arith, delist_sound now m)

cancelled_sound :
    (id : String) (m : Dict ActiveSubscription) (o : Option ActiveSubscription)
    → lookup id m ≡ o
    → all_sound m ≡ true
    → all_sound (cancel_listed id m (listed_entry o)) ≡ true
unfolding cancel_listed listed_entry
cancelled_sound id m none e h = h
cancelled_sound id m (some a) e h =
    grind (arith, insert_sound id (record a { cancelled = true }) m, lookup_sound id m a)

pub cancel_workers_sound :
    (ids : List String) (m : Dict ActiveSubscription)
    → all_sound m ≡ true
    → all_sound (cancel_workers ids m) ≡ true
unfolding cancel_workers
cancel_workers_sound [] m h = h
cancel_workers_sound (id ∷ ids) m h =
    cancel_workers_sound ids (cancel_listed id m (listed_entry (lookup id m)))
      (cancelled_sound id m (lookup id m) refl h)

new_active_sound :
    (kind : SubscriptionType) (sub : Subscription) (now : ℤ)
    → is_sound (new_active kind sub now) ≡ true
unfolding new_active
new_active_sound pull sub now = refl
new_active_sound push sub now = refl

stopped_sound :
    (now : ℤ) (a : ActiveSubscription) → is_sound a ≡ true → is_sound (stopped now a) ≡ true
unfolding stopped deactivate is_active
stopped_sound now a h = ground arith

-- A step of the loop: an active struct is left active and sound, and there is no panic.
abbrev pub OkStep : Option (Option ActiveSubscription) → Type 0
OkStep none = ⊥
OkStep (some none) = Unit {0}
OkStep (some (some a)) = (is_sound a ≡ true) × (is_active a.subscription ≡ true)

send-ok :
    (now : ℤ) (m : Message) (a : ActiveSubscription)
    → is_sound a ≡ true
    → is_active a.subscription ≡ true
    → OkStep (send now m a)
unfolding send is_active increment_delivered
send-ok now m a h act = grind (arith, length-append)

-- The loop does not panic and leaves the struct sound.
abbrev pub OkLoop : Option (ActiveSubscription × List Task) → Type 0
OkLoop none = ⊥
OkLoop (some r) = is_sound r.0 ≡ true

then-ok :
    (ts : List Task) (o : Option (ActiveSubscription × List Task))
    → OkLoop o
    → OkLoop (o >>= λ rest. some (rest.0, ts ++ rest.1))
then-ok ts none h = elim h [ ]
then-ok ts (some r) h = h

after-ok :
    (stop : ℕ → Bool) (now : ℤ) (m : Message) (ms : List Message) (a : ActiveSubscription)
    (o : Option (Option ActiveSubscription))
    → OkStep o
    → OkLoop (deliver stop now ms a)
    → ((b : ActiveSubscription)
        → is_sound b ≡ true
        → is_active b.subscription ≡ true
        → OkLoop (deliver stop now ms b))
    → OkLoop (
        o >>= λ r.
        let step = sent now m a r in
        deliver stop now ms step.0 >>= λ rest. some (rest.0, step.1 ++ rest.1))
after-ok stop now m ms a none h skipped went = elim h [ ]
after-ok stop now m ms a (some none) h skipped went = then-ok [] _ skipped
after-ok stop now m ms a (some (some b)) h skipped went =
    then-ok (sent now m a (some b)).1 _ (went b h.0 h.1)

deliver-ok :
    (stop : ℕ → Bool) (now : ℤ) (ms : List Message) (a : ActiveSubscription)
    → is_sound a ≡ true
    → is_active a.subscription ≡ true
    → OkLoop (deliver stop now ms a)
unfolding deliver
deliver-ok stop now [] a h act = h
deliver-ok stop now (m ∷ ms) a h act = elim (Bool-cases (passed_over a.subscription now m)) [
  | inl e ↦ rw e (deliver-ok stop now ms a h act)
  | inr e ↦ elim (Bool-cases (stop (length ms))) [
    | inl e' ↦ rw (e, e') h
    | inr e' ↦
        rw (e, e')
          (after-ok stop now m ms a (send now m a) (send-ok now m a h act)
            (deliver-ok stop now ms a h act) (deliver-ok stop now ms))
  ]
]

-- Every struct is sound, the channels of listed consumers are open, and nothing has panicked.
unfoldable pub good : Dict ActiveSubscription → Dict ActiveConsumerGroup → Bool → Bool
good subs groups panicked = all_sound subs && (groups_open groups && not panicked)

module _ {V : Type 0} (env : Env V) where
  abbrev pub is_good : State env → Bool
  is_good s = good s.subscriptions s.consumer_groups s.panicked

  -- A call does not panic and leaves a good state.
  abbrev pub OkState : Option (State env) → Type 0
  OkState none = ⊥
  OkState (some s) = is_good s ≡ true

  delivered_good :
      (id : String) (a : ActiveSubscription) (tasks : List Task) (s : State env)
      → is_sound a ≡ true
      → is_good s ≡ true
      → is_good (record s { subscriptions = insert id a s.subscriptions; tasks = tasks }) ≡ true
  unfolding good
  delivered_good id a tasks s h all = ground (arith, insert_sound id a s.subscriptions)

  fetched-ok :
      (stop : ℕ → Bool) (id : String) (now : ℤ) (a : ActiveSubscription)
      (r : Result (List Message) × State env)
      → is_sound a ≡ true
      → is_active a.subscription ≡ true
      → is_good r.1 ≡ true
      → OkState (deliver_fetched env stop id now a r)
  unfolding deliver_fetched
  fetched-ok stop id now a (err e, s) h act all = all
  fetched-ok stop id now a (ok ms, s) h act all = elim (Option-cases (deliver stop now ms a)) [
    | inl e ↦ elim (subst OkLoop e (deliver-ok stop now ms a h act)) [ ]
    | inr (done, e) ↦ rw e (
        delivered_good id done.0 (s.tasks ++ done.1) s
          (subst OkLoop e (deliver-ok stop now ms a h act)) all)
  ]

  fetch-keeps : (sub : Subscription) (s : State env) → is_good (fetch env sub s).1 ≡ is_good s
  fetch-keeps sub s = ground arith

  found-ok :
      (stop : ℕ → Bool) (id : String) (now : ℤ) (s : State env) (o : Option ActiveSubscription)
      → lookup id s.subscriptions ≡ o
      → is_good s ≡ true
      → OkState (process_found env stop id now s o)
  unfolding process_found good
  found-ok stop id now s none e all = all
  found-ok stop id now s (some a) e all = elim (Bool-cases (is_active a.subscription)) [
    | inr idle ↦ rw idle all
    | inl act ↦ rw act (
        fetched-ok stop id now a (fetch env a.subscription s)
          (lookup_sound id s.subscriptions a (ground (arith, all)) e) act
          (fetch-keeps a.subscription s ∙ all))
  ]

  pub process-ok :
      (stop : ℕ → Bool) (id : String) (now : ℤ) (s : State env)
      → is_good s ≡ true
      → OkState (process_subscription_messages env stop id now s)
  unfolding process_subscription_messages
  process-ok stop id now s all = found-ok stop id now s (lookup id s.subscriptions) refl all

  pub subscribe_sound :
      (req : SubscribeRequest) (now : ℤ) (s : State env)
      → is_good s ≡ true
      → is_good (subscribe env req now s).1 ≡ true
  unfolding subscribe good
  subscribe_sound req now s all = grind (arith, insert_sound, new_active_sound)

  pub unsubscribe_sound :
      (id : String) (now : ℤ) (s : State env)
      → is_good s ≡ true
      → is_good (unsubscribe env id now s).1 ≡ true
  unfolding unsubscribe listed_entry good
  unsubscribe_sound id now s all = grind (arith, insert_sound, stopped_sound, lookup_sound)
