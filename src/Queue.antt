-- ===== src/Queue.antt =====
-- pkg/collections/ringbuffer.go: the ring buffer behind a queue, with its resizing.
-- `none` is a panic: an index or a slice out of range. Each exported method takes the queue's lock
-- for its whole body, so a call is one step on the record.
mod Window
pub mod Invariant
pub mod Push
pub mod Pop
pub mod Refine
mod Bound
pub mod Tests
use pub_sub_go.Base.{
  ℕ, ◌+◌, ◌-◌, ◌*◌, ◌≤◌, bit_and, Bool, true, false, ◌&&◌, Option, none, some, List, [], ◌∷◌, ◌++◌,
  ltb, leb, eqb, if◌then◌else◌, length, get_elem?, set, take, drop, replicate, min,
}
use pub_sub_go.Base.Options.{◌>>=◌}
use pub_sub_go.Base.Int.{ℤ, pos, ltb_ℤ, eqb_ℤ}

-- Positions and counts are below the length of a slice, far inside `int`; `maxlen` is what the
-- caller gave, of either sign.
pub record Queue {ℓ} (A : Type ℓ) : Type ℓ where
  pub buf : List A
  pub head : ℕ
  pub tail : ℕ
  pub count : ℕ
  pub maxlen : ℤ

abbrev pub min_capacity : ℕ
min_capacity = 2

module _ {ℓ} {A : Type ℓ} where
  -- buf[i] = v
  abbrev pub write_at : List A → ℕ → A → Option (List A)
  write_at buf i v = if ltb i (length buf) then some (set buf i v) else none

  -- buf[i:j]
  abbrev pub slice : List A → ℕ → ℕ → Option (List A)
  slice buf i j = if leb i j && leb j (length buf) then some (take (j - i) (drop i buf)) else none

  -- The builtin `copy`: what `dst` holds afterwards. Its result is the smaller length.
  pub copy : List A → List A → List A
  copy [] src = []
  copy (d ∷ dst) [] = d ∷ dst
  copy (d ∷ dst) (s ∷ src) = s ∷ copy dst src

  abbrev pub copied : List A → List A → ℕ
  copied dst src = min (length dst) (length src)

module _ {ℓ} {A : Type ℓ} where
  -- `NewQueue()` and `NewQueue(maxlen)`
  pub new_queue : Option ℤ → Queue A
  new_queue none = record { buf = []; head = 0; tail = 0; count = 0; maxlen = pos 0 }
  new_queue (some m) = record { buf = []; head = 0; tail = 0; count = 0; maxlen = m }

  pub len : Queue A → ℕ
  len q = q.count

  pub size : Queue A → ℕ
  size q = length q.buf

  pub empty : Queue A → Bool
  empty q = eqb q.count 0

  pub full : Queue A → Bool
  full q = eqb_ℤ (pos q.count) q.maxlen

  -- Called on a non-empty buffer only, so `len(q.buf) - 1` is no negative number.
  pub next : Queue A → ℕ → ℕ
  next q i = bit_and (i + 1) (length q.buf - 1)

-- `nil` is what an unused cell holds and what an empty queue returns.
module _ {ℓ} {A : Type ℓ} (nil : A) where
  resized : Queue A → List A → Queue A
  resized q buf = record q { head = 0; tail = q.count; buf = buf }

  pub resize : Queue A → Option (Queue A)
  unfolding resized copy
  resize q =
      let new_buf = replicate (q.count * 2) nil in
      if ltb q.head q.tail
      then (do front ← slice q.buf q.head q.tail; some (resized q (copy new_buf front)))
      else do
        front ← slice q.buf q.head (length q.buf)
        back ← slice q.buf 0 q.tail
        let n = copied new_buf front
        let filled = copy new_buf front
        some (resized q (take n filled ++ copy (drop n filled) back))

  pub grow_if_full : Queue A → Option (Queue A)
  grow_if_full q =
      if eqb (length q.buf) 0
      then some (record q { buf = replicate min_capacity nil })
      else if eqb q.count (length q.buf) && ltb_ℤ (pos q.count) q.maxlen
      then resize q
      else some q

  pub shrink_if_excess : Queue A → Option (Queue A)
  shrink_if_excess q =
      if ltb min_capacity (length q.buf) && eqb (q.count * 4) (length q.buf)
      then resize q
      else some q

  pub push : Queue A → A → Option (Queue A)
  push q elem = do
    q' ← grow_if_full q
    buf ← write_at q'.buf q'.tail elem
    some (record q' { buf = buf; tail = next q' q'.tail; count = q'.count + 1 })

  pub pop : Queue A → Option (A × Queue A)
  pop q = if leb q.count 0 then some (nil, q) else do
    ret ← get_elem? q.buf q.head
    buf ← write_at q.buf q.head nil
    q' ← shrink_if_excess (record q { buf = buf; head = next q q.head; count = q.count - 1 })
    some (ret, q')

  pub peek : Queue A → Option A
  peek q = if leb q.count 0 then some nil else get_elem? q.buf q.head
