-- ===== src/Subscriber/Liveness.antt =====
-- A tick of the rebalance worker, from the service's groups to the partitions of their consumers.
use pub_sub_go.Base.{
  ℕ, ◌^◌, ◌<◌, ◌≡◌, refl, sym, subst, inl, inr, String, true, false, Option, none, some, [], ◌∷◌,
  Dict, lookup, ◌==◌, Bool-cases, arith,
}
use pub_sub_go.Base.Int.{ℤ, pos}
use pub_sub_go.Core.Topic.{Topic}
use pub_sub_go.Result.{Result, ok, err, is_ok}
use pub_sub_go.Subscriber.Types.{ActiveConsumer, ActiveConsumerGroup, Env}
use pub_sub_go.Subscriber.Pull.{State}
use pub_sub_go.Subscriber.Workers.{
  is_due, rebalance_group, rebalance_if_due, rebalance_all, process_rebalancing,
}
use pub_sub_go.Subscriber.Shares.{range}
use pub_sub_go.Subscriber.Outcome.{held, rebalance_group-held}

-- The group is there and waits no more, and its consumers have the `p` partitions once each.
abbrev pub IsServed : ℕ → Option ActiveConsumerGroup → Type 0
IsServed p none = ⊥
IsServed p (some h) = (h.rebalancing ≡ false) × (held h.consumers ≡ range 0 p)

returned : {A : Type 0} (r : Result A) → is_ok r ≡ true → (a : A) × (r ≡ ok a)
returned (ok a) e = (a, refl)
returned (err x) e = absurd (ground (arith, e))

module _ {V : Type 0} (env : Env V) where
  rebalance_if_due_returns :
      (now : ℤ) (g : ActiveConsumerGroup) (s : State env)
      → is_ok (rebalance_if_due env now g s).0 ≡ true
  unfolding rebalance_if_due rebalance_group
  rebalance_if_due_returns now g s = ground arith

  rebalance_all_returns :
      (now : ℤ) (groups : Dict ActiveConsumerGroup) (s : State env)
      → is_ok (rebalance_all env now groups s).0 ≡ true
  unfolding rebalance_all
  rebalance_all_returns now [] s = refl
  rebalance_all_returns now ((name, g) ∷ groups) s =
      grind (arith, rebalance_if_due_returns now g, rebalance_all_returns now groups)

  -- What is known of a group for which a rebalance is due, and of its topic.
  abbrev pub IsReady : ℤ → ActiveConsumerGroup → Topic V → ℕ → Type 0
  IsReady now g t p =
      (is_due now g ≡ true)
      × ((s : env.topic_repo.State) → (env.topic_repo.get g.group.topic s).0 ≡ ok t)
      × (t.partitions ≡ pos p)
      × (p < 2 ^ 31)

  rebalance_if_due-IsServed :
      (now : ℤ) (g : ActiveConsumerGroup) (entry : String × ActiveConsumer)
      (rest : Dict ActiveConsumer) (t : Topic V) (p : ℕ) (s : State env)
      → IsReady now g t p
      → g.consumers ≡ entry ∷ rest
      → (h : ActiveConsumerGroup) × ((rebalance_if_due env now g s).0 ≡ ok h) × IsServed p (some h)
  unfolding rebalance_if_due
  rebalance_if_due-IsServed now g entry rest t p s (due, read, n, small) e =
      let (h, found, spread) =
        rebalance_group-held env g entry rest s t p e (read s.topics) n small in
      (
        record h { rebalancing = false; last_rebalance = some now },
        ground (arith, due, found),
        (refl, spread),
      )

  both_return :
      (now : ℤ) (name : String) (g h : ActiveConsumerGroup) (groups out : Dict ActiveConsumerGroup)
      (s : State env)
      → (rebalance_if_due env now g s).0 ≡ ok h
      → (rebalance_all env now groups (rebalance_if_due env now g s).1).0 ≡ ok out
      → (rebalance_all env now ((name, g) ∷ groups) s).0 ≡ ok ((name, h) ∷ out)
  unfolding rebalance_all
  both_return now name g h groups out s first second = ground (arith, first, second)

  rebalance_all-IsServed :
      (now : ℤ) (name : String) (g : ActiveConsumerGroup) (entry : String × ActiveConsumer)
      (rest : Dict ActiveConsumer) (t : Topic V) (p : ℕ) (groups : Dict ActiveConsumerGroup)
      (s : State env)
      → IsReady now g t p
      → g.consumers ≡ entry ∷ rest
      → lookup name groups ≡ some g
      → (out : Dict ActiveConsumerGroup) × ((rebalance_all env now groups s).0 ≡ ok out)
        × IsServed p (lookup name out)
  unfolding rebalance_all lookup
  rebalance_all-IsServed now name g entry rest t p [] s ready e found =
      absurd (ground (arith, found))
  rebalance_all-IsServed now name g entry rest t p ((other, g') ∷ groups) s ready e found =
      let s1 = (rebalance_if_due env now g' s).1 in
      elim (Bool-cases (other == name)) [
        | inl same ↦
            let is_g : g' ≡ g = ground (arith, found, same) in
            let (h, first, served) = rebalance_if_due-IsServed now g entry rest t p s ready e in
            let (out, second) =
              returned (rebalance_all env now groups s1).0 (rebalance_all_returns now groups s1) in
            (
              (other, h) ∷ out,
              both_return now other g' h groups out s
                  (subst (λ x. (rebalance_if_due env now x s).0 ≡ ok h) (sym is_g) first) second,
              rw same served,
            )
        | inr different ↦
            let (h, first) =
              returned (rebalance_if_due env now g' s).0 (rebalance_if_due_returns now g' s) in
            let (out, second, served) =
              rebalance_all-IsServed now name g entry rest t p groups s1 ready e
                (ground (arith, found, different)) in
            (
              (other, h) ∷ out,
              both_return now other g' h groups out s first second,
              rw different served,
            )
      ]

  -- A tick of the rebalance worker at which a group is due serves it: when the group has a consumer
  -- and the repository answers its topic with `p` partitions whenever it is asked, the group waits no
  -- more after the tick, and its consumers together have each of the partitions exactly once.
  pub process_rebalancing-IsServed :
      (now : ℤ) (name : String) (g : ActiveConsumerGroup) (entry : String × ActiveConsumer)
      (rest : Dict ActiveConsumer) (t : Topic V) (p : ℕ) (s : State env)
      → IsReady now g t p
      → g.consumers ≡ entry ∷ rest
      → lookup name s.consumer_groups ≡ some g
      → IsServed p (lookup name (process_rebalancing env now s).1.consumer_groups)
  unfolding process_rebalancing
  process_rebalancing-IsServed now name g entry rest t p s ready e found =
      let (out, done, served) =
        rebalance_all-IsServed now name g entry rest t p s.consumer_groups s ready e found in
      let after : (process_rebalancing env now s).1.consumer_groups ≡ out = ground (arith, done) in
      subst (λ groups. IsServed p (lookup name groups)) (sym after) served
