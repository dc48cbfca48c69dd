-- ===== src/Queue/Refine.antt =====
-- Any sequence of calls on a queue against the same calls on a plain list.
use native.Mathlib.Decide.{dec_lt}
use pub_sub_go.Base.{
  ℕ, ◌+◌, ◌-◌, ◌≡◌, refl, ap, ◌∙◌, ◌⊎◌, inl, inr, Option, none, some, List, [], ◌∷◌, ◌++◌, arith,
}
use pub_sub_go.Base.Int.{ℤ, pos, ◌<ℤ◌}
use pub_sub_go.Base.Options.{◌>>=◌}
use pub_sub_go.Queue.{Queue, new_queue, push, pop, peek}
use pub_sub_go.Queue.Window.{items}
use pub_sub_go.Queue.Invariant.{IsFresh, IsValid, contents}
use pub_sub_go.Queue.Push.{HasRoom, push_appends}
use pub_sub_go.Queue.Pop.{pop_takes, pop_empty, peek_front}

pub data Call {ℓ} (A : Type ℓ) : Type ℓ where
  put : A → Call A
  get front : Call A

-- No `put` of the sequence meets `cap` entries.
abbrev pub Within {ℓ} : {A : Type ℓ} → ℤ → ℕ → List (Call A) → Type 0
Within cap n [] = Unit
Within cap n (put x ∷ calls) = (pos n <ℤ cap) × Within cap (n + 1) calls
Within cap n (get ∷ calls) = Within cap (n - 1) calls
Within cap n (front ∷ calls) = Within cap n calls

module _ {ℓ} {A : Type ℓ} (nil : A) where
  -- What the calls return; `none` is a panic.
  unfoldable pub run : Queue A → List (Call A) → Option (List A)
  run q [] = some []
  run q (put x ∷ calls) = push nil q x >>= λ q'. run q' calls
  run q (get ∷ calls) = pop nil q >>= λ r. run r.1 calls >>= λ rest. some (r.0 ∷ rest)
  run q (front ∷ calls) = peek nil q >>= λ x. run q calls >>= λ rest. some (x ∷ rest)

  abbrev pub head_or : List A → A
  head_or [] = nil
  head_or (x ∷ xs) = x

  abbrev pub rest_of : List A → List A
  rest_of [] = []
  rest_of (x ∷ xs) = xs

  -- The specification: a first-in first-out list.
  unfoldable pub fifo : List A → List (Call A) → List A
  fifo l [] = []
  fifo l (put x ∷ calls) = fifo (l ++ x ∷ []) calls
  fifo l (get ∷ calls) = head_or l ∷ fifo (rest_of l) calls
  fifo l (front ∷ calls) = head_or l ∷ fifo l calls

  emptied : (q : Queue A) → q.count ≡ 0 → contents nil q ≡ []
  emptied q e = ap (items nil q.buf q.head) e

  one_less : (q q' : Queue A) → q'.count + 1 ≡ q.count → q'.count ≡ q.count - 1
  one_less q q' e = omega arith

  still_none : (q : Queue A) → q.count ≡ 0 → q.count ≡ q.count - 1
  still_none q e = omega arith

  room : (q : Queue A) → IsValid q → pos q.count <ℤ q.maxlen → IsFresh q ⊎ HasRoom q
  room q v h = inr (inr h)

  -- The loop invariant's step is one of the lemmas; the contents are the list.
  run-fifo :
      (calls : List (Call A)) (q : Queue A)
      → IsValid q
      → Within q.maxlen q.count calls
      → run q calls ≡ some (fifo (contents nil q) calls)
  unfolding run fifo
  run-fifo [] q v h = refl
  run-fifo (put x ∷ calls) q v h =
      let (q', returned, appended, count, maxlen, valid) = push_appends nil q x v (room q v h.0) in
      rw (returned, ← appended) (run-fifo calls q' valid (rw (maxlen, count) h.1))
  run-fifo (get ∷ calls) q v h = elim (dec_lt 0 q.count) [
    | yes some_left ↦
        let (x, q', returned, parts, count, maxlen, valid) = pop_takes nil q v some_left in
        rw (returned, parts)
          (ap (λ o. o >>= λ rest. some (x ∷ rest))
            (run-fifo calls q' valid (rw (maxlen, one_less q q' count) h)))
    | no none_left ↦
        rw ((pop_empty nil q (omega arith)).0, emptied q (omega arith))
          (ap (λ o. o >>= λ rest. some (nil ∷ rest))
            (run-fifo calls q v (rw (still_none q (omega arith)) h)
              ∙ ap (λ l. some (fifo l calls)) (emptied q (omega arith))))
  ]
  run-fifo (front ∷ calls) q v h = elim (dec_lt 0 q.count) [
    | yes some_left ↦
        let (x, shown, parts) = peek_front nil q v some_left in
        rw (shown, parts)
          (ap (λ o. o >>= λ rest. some (x ∷ rest))
            (run-fifo calls q v h ∙ ap (λ l. some (fifo l calls)) parts))
    | no none_left ↦
        rw ((pop_empty nil q (omega arith)).1, emptied q (omega arith))
          (ap (λ o. o >>= λ rest. some (nil ∷ rest))
            (run-fifo calls q v h ∙ ap (λ l. some (fifo l calls)) (emptied q (omega arith))))
  ]

  new_queue-IsValid : (m : Option ℤ) → IsValid (new_queue {A = A} m)
  unfolding new_queue
  new_queue-IsValid none = inl (record { no_buf = refl; at_start = (refl, refl, refl) })
  new_queue-IsValid (some m) = inl (record { no_buf = refl; at_start = (refl, refl, refl) })

  -- From a new queue with a given `maxlen`, any sequence of `Push`, `Pop` and `Peek` in which no
  -- push meets `maxlen` entries panics nowhere and returns what a first-in first-out list returns.
  pub run_refines :
      (m : ℤ) (calls : List (Call A))
      → Within m 0 calls
      → run (new_queue (some m)) calls ≡ some (fifo [] calls)
  unfolding new_queue
  run_refines m calls h = run-fifo calls (new_queue (some m)) (new_queue-IsValid (some m)) h
