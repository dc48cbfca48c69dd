-- ===== src/Queue/Tests.antt =====
-- Runs of the queue at small inputs, and its theorems at concrete ones.
use pub_sub_go.Base.{ℕ, ◌+◌, ◌≡◌, refl, inl, inr, none, some, List, [], ◌∷◌, arith}
use pub_sub_go.Base.Int.{pos}
use pub_sub_go.Queue.{Queue, new_queue, push, pop, grow_if_full, shrink_if_excess, next}
use pub_sub_go.Queue.Invariant.{IsSized, IsValid, contents}
use pub_sub_go.Queue.Push.{push_appends}
use pub_sub_go.Queue.Pop.{pop_takes}
use pub_sub_go.Queue.Refine.{Call, put, get, front, run, fifo, run_refines}

-- `NewQueue()` is documented as unbounded, and its third push writes over the first entry.
unbounded_loses :
    (a b c : ℕ) → run 0 (new_queue none) (put a ∷ put b ∷ put c ∷ get ∷ []) ≡ some (c ∷ [])
unfolding run new_queue push pop grow_if_full shrink_if_excess next
unbounded_loses a b c = refl

-- Entries 7, 8, 9 round the end of a buffer of four.
abbrev wrapped : Queue ℕ
wrapped = record { buf = 9 ∷ 0 ∷ 7 ∷ 8 ∷ []; head = 2; tail = 1; count = 3; maxlen = pos 100 }

wrapped-IsSized : IsSized wrapped 2
wrapped-IsSized = record {
  ring = record { head_in = omega arith; count_in = omega arith; tail_at = refl };
  power = refl;
  least = omega arith;
}

push_appends_example :
    (q : Queue ℕ) × (push 0 wrapped 5 ≡ some q)
    × (contents 0 q ≡ 7 ∷ 8 ∷ 9 ∷ 5 ∷ [])
    × (q.count ≡ 4)
    × (q.maxlen ≡ pos 100)
    × IsValid q
push_appends_example = push_appends 0 wrapped 5 (inr (2, wrapped-IsSized)) (inr (inl (omega arith)))

pop_takes_example :
    (x : ℕ) × (q : Queue ℕ) × (pop 0 wrapped ≡ some (x, q))
    × (7 ∷ 8 ∷ 9 ∷ [] ≡ x ∷ contents 0 q)
    × (q.count + 1 ≡ 3)
    × (q.maxlen ≡ pos 100)
    × IsValid q
pop_takes_example = pop_takes 0 wrapped (inr (2, wrapped-IsSized)) (omega arith)

abbrev script : List (Call ℕ)
script = put 1 ∷ put 2 ∷ put 3 ∷ get ∷ front ∷ put 4 ∷ get ∷ get ∷ get ∷ get ∷ []

run_refines_example : run 0 (new_queue (some (pos 3))) script ≡ some (fifo 0 [] script)
run_refines_example = run_refines 0 (pos 3) script (omega arith)
