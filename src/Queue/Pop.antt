-- ===== src/Queue/Pop.antt =====
-- `Pop` and `Peek`: they take and show the oldest entry, whether the buffer shrinks or not.
use native.Mathlib.Numerals.{add-one}
use native.Mathlib.Nat.{pow-suc, mod-add-mod, mod-lt, mod-eq_of_lt}
use pub_sub_go.Base.{
  ℕ, zero, suc, ◌+◌, ◌-◌, ◌*◌, ◌%◌, ◌^◌, ◌≤◌, ◌<◌, ◌≡◌, refl, sym, ap, ap₂, ◌∙◌, inl, inr, some,
  ◌∷◌, arith, length, get_or, set, length-set, Bool-cases, true, ltb, eqb, ◌&&◌,
  get_elem?-eq-get_or, lt→ltb, lt→not_leb, le→leb,
}
use pub_sub_go.Queue.{Queue, pop, peek, next, shrink_if_excess}
use pub_sub_go.Queue.Window.{items, items-mod, items-set_front}
use pub_sub_go.Queue.Invariant.{
  IsSized, IsValid, compacted, contents, resize-compacted, contents-compacted, compacted-IsSized,
}
use pub_sub_go.Queue.Push.{next_lem}

-- the test of `shrinkIfExcess`
excess : (c n : ℕ) → (ltb 2 n && eqb (c * 4) n) ≡ true → (2 < n) × (n ≡ c * 4)
excess c n e = ground arith

quarter_power : (k c : ℕ) → 2 ^ k ≡ c * 4 → 2 < 2 ^ k → (j : ℕ) × (c ≡ 2 ^ j)
quarter_power zero c e h = absurd (omega arith)
quarter_power (suc zero) c e h = absurd (omega arith)
quarter_power (suc (suc j)) c e h = (j, omega (arith, pow-suc 2 (suc j), pow-suc 2 j))

module _ {ℓ} {A : Type ℓ} (nil : A) where
  -- what is left when the front cell is cleared
  abbrev cleared : Queue A → Queue A
  cleared q = record q { buf = set q.buf q.head nil; head = next q q.head; count = q.count - 1 }

  clear_lem :
      (q : Queue A) (k : ℕ)
      → IsSized q k
      → 1 ≤ q.count
      → (contents nil q ≡ get_or q.buf q.head nil ∷ contents nil (cleared q))
        × IsSized (cleared q) k
  clear_lem q k v some_left = (
    ap (items nil q.buf q.head) one_more
        ∙ ap₂ ◌∷◌ (ap (λ i. get_or q.buf i nil) (mod-eq_of_lt v.ring.head_in)) (sym rest),
    record {
      ring = record {
        head_in = rw (wide, moved) (mod-lt (q.head + 1) {m = length q.buf} (omega arith));
        count_in = omega (arith, wide);
        tail_at =
            v.ring.tail_at
            ∙ sym (
                rw (wide, moved)
                  (mod-add-mod (q.head + 1) (length q.buf) (q.count - 1)
                    ∙ ap (λ n. n % length q.buf) (omega arith)));
      };
      power = wide ∙ v.power;
      least = v.least;
    },
  )
    where
      one_more : q.count ≡ suc (q.count - 1)
      one_more = omega arith

      wide : length (set q.buf q.head nil) ≡ length q.buf
      wide = length-set q.buf q.head nil

      moved : next q q.head ≡ (q.head + 1) % length q.buf
      moved = next_lem q k q.head v.power

      rest : contents nil (cleared q) ≡ items nil q.buf (suc q.head) (q.count - 1)
      rest =
          ap (λ h. items nil (set q.buf q.head nil) h (q.count - 1))
            (moved ∙ ap₂ ◌%◌ (add-one q.head) (sym wide))
          ∙ items-mod nil (set q.buf q.head nil) (suc q.head) (q.count - 1)
          ∙ items-set_front nil q.buf q.head (q.count - 1) nil v.ring.head_in (omega arith)

  shrink_lem :
      (q : Queue A) (k : ℕ)
      → IsSized q k
      → (q' : Queue A) × (shrink_if_excess nil q ≡ some q')
        × (contents nil q' ≡ contents nil q)
        × (q'.count ≡ q.count)
        × (q'.maxlen ≡ q.maxlen)
        × IsValid q'
  unfolding shrink_if_excess
  shrink_lem q k v = elim (Bool-cases (ltb 2 (length q.buf) && eqb (q.count * 4) (length q.buf))) [
    | inl e ↦
        let (wide, quarter) = excess q.count (length q.buf) e in
        let (j, power) = quarter_power k q.count (omega arith) (omega arith) in
        (
          compacted nil q,
          rw e (resize-compacted nil q v.ring (omega arith)),
          contents-compacted nil q,
          refl,
          refl,
          inr (suc j, compacted-IsSized nil q j power (omega arith)),
        )
    | inr e ↦ (q, rw e, refl, refl, refl, inr (k, v))
  ]

  -- On a well-formed queue that is not empty, `Pop` does not panic, returns the oldest entry,
  -- leaves the others in order, and keeps the queue well formed.
  pub pop_takes :
      (q : Queue A)
      → IsValid q
      → 1 ≤ q.count
      → (x : A) × (q' : Queue A) × (pop nil q ≡ some (x, q'))
        × (contents nil q ≡ x ∷ contents nil q')
        × (q'.count + 1 ≡ q.count)
        × (q'.maxlen ≡ q.maxlen)
        × IsValid q'
  unfolding pop
  pop_takes q (inl f) some_left = absurd (omega (arith, f.at_start))
  pop_takes q (inr (k, v)) some_left =
      let c = clear_lem q k v some_left in
      let (q', returned, same, count, maxlen, valid) = shrink_lem (cleared q) k c.1 in
      (
        get_or q.buf q.head nil,
        q',
        rw (
          lt→not_leb 0 q.count some_left,
          get_elem?-eq-get_or q.buf q.head nil v.ring.head_in,
          lt→ltb q.head (length q.buf) v.ring.head_in,
          returned,
        ),
        c.0 ∙ ap (λ l. get_or q.buf q.head nil ∷ l) (sym same),
        omega (arith, count),
        maxlen,
        valid,
      )

  -- `Pop` and `Peek` on an empty queue return `nil` and change nothing.
  pub pop_empty :
      (q : Queue A) → q.count ≡ 0 → (pop nil q ≡ some (nil, q)) × (peek nil q ≡ some nil)
  unfolding pop peek
  pop_empty q e = (rw (le→leb q.count 0 (omega arith)), rw (le→leb q.count 0 (omega arith)))

  -- On a well-formed queue that is not empty, `Peek` shows what `Pop` would return.
  pub peek_front :
      (q : Queue A)
      → IsValid q
      → 1 ≤ q.count
      → (x : A) × (peek nil q ≡ some x)
        × (contents nil q ≡ x ∷ items nil q.buf (suc q.head) (q.count - 1))
  unfolding peek
  peek_front q (inl f) some_left = absurd (omega (arith, f.at_start))
  peek_front q (inr (k, v)) some_left = (
    get_or q.buf q.head nil,
    rw (lt→not_leb 0 q.count some_left) (get_elem?-eq-get_or q.buf q.head nil v.ring.head_in),
    ap (items nil q.buf q.head) one_more
        ∙ ap (λ i. get_or q.buf i nil ∷ items nil q.buf (suc q.head) (q.count - 1))
            (mod-eq_of_lt v.ring.head_in),
  )
    where
      one_more : q.count ≡ suc (q.count - 1)
      one_more = omega arith
