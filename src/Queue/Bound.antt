-- ===== src/Queue/Bound.antt =====
-- What a push does once the buffer is full and `maxlen` forbids it to grow: it is not refused.
use pub_sub_go.Base.{
  ℕ, ◌+◌, ◌≡◌, ap, ◌∙◌, some, arith, length, set, get_or-set_self, get_elem?-eq-get_or, length-set,
  eq→eqb, ne→not_eqb, le→not_ltb, lt→ltb, lt→not_leb,
}
use pub_sub_go.Base.Int.{pos, ◌≤ℤ◌, pos_part, neg_part}
use pub_sub_go.Queue.{Queue, push, peek, next, grow_if_full}
use pub_sub_go.Queue.Window.{mod_cases}
use pub_sub_go.Queue.Invariant.{IsSized}

module _ {ℓ} {A : Type ℓ} (nil : A) where
  -- On a full buffer with `maxlen` entries or more, `Push` does not refuse: it writes over the
  -- oldest entry, counts one entry more than the buffer has cells, and `Peek` then shows the newest
  -- entry in the place of the oldest.
  push_overwrites :
      (q : Queue A) (k : ℕ) (x : A)
      → IsSized q k
      → q.count ≡ length q.buf
      → q.maxlen ≤ℤ pos q.count
      → (q' : Queue A) × (push nil q x ≡ some q')
        × (q'.buf ≡ set q.buf q.head x)
        × (q'.count ≡ length q'.buf + 1)
        × (peek nil q' ≡ some x)
  unfolding push grow_if_full peek
  push_overwrites q k x v full limit = (
    record q { buf = set q.buf q.tail x; tail = next q q.tail; count = q.count + 1 },
    rw (
      ne→not_eqb (length q.buf) 0 (λ e. omega arith),
      eq→eqb q.count (length q.buf) full,
      le→not_ltb (pos_part q.maxlen + 0) (q.count + neg_part q.maxlen) (omega arith),
      lt→ltb q.tail (length q.buf) (omega (arith, at_head)),
    ),
    ap (λ i. set q.buf i x) at_head,
    omega (arith, length-set q.buf q.tail x),
    rw (lt→not_leb 0 (q.count + 1) (omega arith), at_head)
        (get_elem?-eq-get_or (set q.buf q.head x) q.head nil
            (omega (arith, length-set q.buf q.head x))
          ∙ ap some (get_or-set_self q.buf q.head x nil v.ring.head_in)),
  )
    where
      at_head : q.tail ≡ q.head
      at_head =
          omega (arith, v.ring.tail_at, mod_cases (q.head + q.count) (length q.buf) (omega arith))
