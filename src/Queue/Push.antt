-- ===== src/Queue/Push.antt =====
-- `Push` while the buffer has a free cell or may grow: it appends.
use native.Mathlib.Decide.{dec_lt}
use native.Mathlib.Numerals.{add-one}
use native.Mathlib.Nat.{mod-add-mod, mod-lt}
use pub_sub_go.Base.{
  ℕ, suc, ◌+◌, ◌%◌, ◌^◌, ◌<◌, ◌≡◌, refl, sym, ap, ap₂, ◌∙◌, ◌⊎◌, inl, inr, Option, some, [], ◌∷◌,
  ◌++◌, arith, length, get_or, set, length-set, get_or-set_self, eq→eqb, ne→not_eqb, lt→ltb,
}
use pub_sub_go.Base.Bits.{bit_and_mask}
use pub_sub_go.Base.Int.{pos, ◌<ℤ◌, pos_part, neg_part}
use pub_sub_go.Queue.{Queue, push, next, write_at, grow_if_full}
use pub_sub_go.Queue.Window.{items, items-suc, items-set_end}
use pub_sub_go.Queue.Invariant.{
  IsSized, IsFresh, IsValid, compacted, contents, resize-compacted, contents-compacted,
  compacted-IsSized, length-compacted,
}

module _ {ℓ} {A : Type ℓ} where
  -- On a power of two the mask of `next` is the remainder.
  pub next_lem : (q : Queue A) (k i : ℕ) → length q.buf ≡ 2 ^ k → next q i ≡ (i + 1) % length q.buf
  unfolding next
  next_lem q k i e = rw e (bit_and_mask k (i + 1))

  -- The room that `Push` relies on: a free cell, or the right to grow.
  abbrev pub HasRoom : Queue A → Type 0
  HasRoom q = (q.count < length q.buf) ⊎ (pos q.count <ℤ q.maxlen)

module _ {ℓ} {A : Type ℓ} (nil : A) where
  -- what growing leaves: the same entries, and a free cell
  record Grown (q g : Queue A) : Type ℓ where
    width : ℕ
    sized : IsSized g width
    free : g.count < length g.buf
    same : (contents nil g ≡ contents nil q) × (g.count ≡ q.count) × (g.maxlen ≡ q.maxlen)

  grow_fresh : (q : Queue A) → IsFresh q → (g : Queue A) × (grow_if_full nil q ≡ some g) × Grown q g
  unfolding grow_if_full
  grow_fresh q f = (
    record q { buf = nil ∷ nil ∷ [] },
    rw (eq→eqb (length q.buf) 0 (ap length f.no_buf)) refl,
    record {
      width = 1;
      sized = record {
        ring = record {
          head_in = omega (arith, f.at_start);
          count_in = omega (arith, f.at_start);
          tail_at = omega (arith, f.at_start);
        };
        power = refl;
        least = omega arith;
      };
      free = omega (arith, f.at_start);
      same = (
        ap (items nil (nil ∷ nil ∷ []) q.head) f.at_start.2
            ∙ sym (ap (items nil q.buf q.head) f.at_start.2),
        refl,
        refl,
      );
    },
  )

  grow_sized :
      (q : Queue A) (k : ℕ)
      → IsSized q k
      → HasRoom q
      → (g : Queue A) × (grow_if_full nil q ≡ some g) × Grown q g
  unfolding grow_if_full
  grow_sized q k v room = elim (dec_lt q.count (length q.buf)) [
    | yes free ↦ (
      q,
      rw
          (
            ne→not_eqb (length q.buf) 0 (λ e. omega arith),
            ne→not_eqb q.count (length q.buf) (λ e. omega arith),
          )
          refl,
      record { width = k; sized = v; free = free; same = (refl, refl, refl) },
    )
    | no full ↦ (
      compacted nil q,
      rw
          (
            ne→not_eqb (length q.buf) 0 (λ e. omega arith),
            eq→eqb q.count (length q.buf) (omega arith),
            lt→ltb (q.count + neg_part q.maxlen) (pos_part q.maxlen + 0) (omega arith),
          )
          (resize-compacted nil q v.ring (omega arith)),
      record {
        width = suc k;
        sized = compacted-IsSized nil q k (omega arith) (omega arith);
        free = omega (arith, length-compacted nil q);
        same = (contents-compacted nil q, refl, refl);
      },
    )
  ]

  -- A push into a free cell.
  store_lem :
      (g : Queue A) (k : ℕ) (x : A)
      → IsSized g k
      → g.count < length g.buf
      → let q = record g { buf = set g.buf g.tail x; tail = next g g.tail; count = g.count + 1 } in
        (write_at g.buf g.tail x ≡ some (set g.buf g.tail x))
        × (contents nil q ≡ contents nil g ++ x ∷ [])
        × IsSized q k
  store_lem g k x v free = (
    rw (lt→ltb g.tail (length g.buf) tail_in),
    ap (items nil (set g.buf g.tail x) g.head) (add-one g.count)
        ∙ items-suc nil (set g.buf g.tail x) g.head g.count
        ∙ ap₂ ◌++◌ kept (ap (λ a. a ∷ []) written),
    record {
      ring = record {
        head_in = omega (arith, wide);
        count_in = omega (arith, wide);
        tail_at =
            next_lem g k g.tail v.power
            ∙ ap (λ t. (t + 1) % length g.buf) v.ring.tail_at
            ∙ mod-add-mod (g.head + g.count) (length g.buf) 1
            ∙ ap₂ ◌%◌ (omega arith) (sym wide);
      };
      power = wide ∙ v.power;
      least = v.least;
    },
  )
    where
      wide : length (set g.buf g.tail x) ≡ length g.buf
      wide = length-set g.buf g.tail x

      tail_in : g.tail < length g.buf
      tail_in = omega (arith, mod-lt (g.head + g.count) {m = length g.buf} (omega arith))

      written :
          get_or (set g.buf g.tail x) ((g.head + g.count) % length (set g.buf g.tail x)) nil ≡ x
      written = rw (wide, ← v.ring.tail_at) (get_or-set_self g.buf g.tail x nil tail_in)

      kept : items nil (set g.buf g.tail x) g.head g.count ≡ contents nil g
      kept = rw v.ring.tail_at (items-set_end nil g.buf g.head g.count x v.ring.head_in free)

  record Appended (q : Queue A) (x : A) (r : Option (Queue A)) : Type ℓ where
    pub after : Queue A
    pub returned : r ≡ some after
    pub appended : contents nil after ≡ contents nil q ++ x ∷ []
    pub count : after.count ≡ q.count + 1
    pub maxlen : after.maxlen ≡ q.maxlen
    pub valid : IsValid after

  push-Grown :
      (q g : Queue A) (x : A)
      → grow_if_full nil q ≡ some g
      → Grown q g
      → Appended q x (push nil q x)
  unfolding push
  push-Grown q g x e w =
      let s = store_lem g w.width x w.sized w.free in
      record {
        after = record g { buf = set g.buf g.tail x; tail = next g g.tail; count = g.count + 1 };
        returned = rw (e, s.0);
        appended = s.1 ∙ ap (λ l. l ++ x ∷ []) w.same.0;
        count = ap (λ n. n + 1) w.same.1;
        maxlen = w.same.2;
        valid = inr (w.width, s.2);
      }

  push-Appended :
      (q : Queue A) (x : A) → IsValid q → (IsFresh q ⊎ HasRoom q) → Appended q x (push nil q x)
  push-Appended q x (inl f) room = let g = grow_fresh q f in push-Grown q g.0 x g.1 g.2
  push-Appended q x (inr (k, v)) (inr room) =
      let g = grow_sized q k v room in push-Grown q g.0 x g.1 g.2
  push-Appended q x (inr (k, v)) (inl f) =
      absurd (omega (arith, ap length f.no_buf, v.ring.head_in))

  -- On a well-formed queue with no buffer yet, a free cell, or fewer entries than `maxlen`, `Push`
  -- does not panic, puts its argument behind the entries in order, counts it, leaves `maxlen`
  -- alone, and keeps the queue well formed.
  pub push_appends :
      (q : Queue A) (x : A)
      → IsValid q
      → (IsFresh q ⊎ HasRoom q)
      → (q' : Queue A) × (push nil q x ≡ some q')
        × (contents nil q' ≡ contents nil q ++ x ∷ [])
        × (q'.count ≡ q.count + 1)
        × (q'.maxlen ≡ q.maxlen)
        × IsValid q'
  push_appends q x v room =
      let a = push-Appended q x v room in
      (a.after, a.returned, a.appended, a.count, a.maxlen, a.valid)
