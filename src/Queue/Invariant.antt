-- ===== src/Queue/Invariant.antt =====
-- What holds of a queue between two calls, and what `resize` does to it.
use native.Mathlib.Nat.{pow-suc, mod-eq_of_lt}
use pub_sub_go.Base.{
  ℕ, suc, ◌+◌, ◌-◌, ◌*◌, ◌%◌, ◌^◌, ◌≤◌, ◌<◌, ◌≡◌, sym, ap, ◌∙◌, ◌⊎◌, inl, inr, some, List, [], ◌++◌,
  append_assoc, arith, length, take, drop, replicate, length-append, length-take, length-drop,
  length-replicate, min, le→leb, le→not_ltb,
}
use pub_sub_go.Queue.{Queue, copy, resize}
use pub_sub_go.Queue.Window.{
  items, copy_fits, take-append_exact, drop-append_exact, drop-replicate, mod_cases, slice_straight,
  slice_around, length-items, items-front,
}

-- The positions of a ring over a buffer: `tail` stands `count` places behind `head`.
pub record IsRing {ℓ} {A : Type ℓ} (q : Queue A) : Type 0 where
  pub head_in : q.head < length q.buf
  pub count_in : q.count ≤ length q.buf
  pub tail_at : q.tail ≡ (q.head + q.count) % length q.buf

-- A ring over a power of two, at least `minCapacity`.
pub record IsSized {ℓ} {A : Type ℓ} (q : Queue A) (k : ℕ) : Type 0 where
  pub ring : IsRing q
  pub power : length q.buf ≡ 2 ^ k
  pub least : 1 ≤ k

-- No buffer is made before the first push.
pub record IsFresh {ℓ} {A : Type ℓ} (q : Queue A) : Type ℓ where
  pub no_buf : q.buf ≡ []
  pub at_start : (q.head ≡ 0) × (q.tail ≡ 0) × (q.count ≡ 0)

abbrev pub IsValid {ℓ} : {A : Type ℓ} → Queue A → Type ℓ
IsValid q = IsFresh q ⊎ ((k : ℕ) × IsSized q k)

module _ {ℓ} {A : Type ℓ} (nil : A) where
  -- what `resize` leaves: the entries at the front of a buffer of twice their number
  abbrev pub compacted : Queue A → Queue A
  compacted q = record q {
    buf = items nil q.buf q.head q.count ++ replicate q.count nil;
    head = 0;
    tail = q.count;
  }

  paste_one :
      (src : List A) (n : ℕ)
      → length src ≡ n
      → copy (replicate (n * 2) nil) src ≡ src ++ replicate n nil
  paste_one src n e =
      copy_fits _ src (omega (arith, length-replicate (n * 2) nil))
      ∙ ap (λ r. src ++ r)
          (drop-replicate (length src) (n * 2) nil ∙ ap (λ m. replicate m nil) (omega arith))

  paste_two :
      (front back : List A) (n : ℕ)
      → length front + length back ≡ n
      → (let new = replicate (n * 2) nil in
          let k = min (length new) (length front) in
          take k (copy new front) ++ copy (drop k (copy new front)) back)
        ≡ (front ++ back) ++ replicate n nil
  paste_two front back n e =
      rw
        (
          cut,
          copy_fits (replicate (n * 2) nil) front fits,
          take-append_exact,
          drop-append_exact,
          spare,
        )
        (ap (λ r. front ++ r)
            (copy_fits _ back (omega (arith, length-replicate (n * 2 - length front) nil))
              ∙ ap (λ r. back ++ r)
                  (drop-replicate (length back) (n * 2 - length front) nil
                    ∙ ap (λ m. replicate m nil) (omega arith)))
          ∙ sym (append_assoc front back (replicate n nil)))
    where
      fits : length front ≤ length (replicate (n * 2) nil)
      fits = omega (arith, length-replicate (n * 2) nil)

      cut : min (length (replicate (n * 2) nil)) (length front) ≡ length front
      cut = omega (arith, fits)

      spare : drop (length front) (replicate (n * 2) nil) ≡ replicate (n * 2 - length front) nil
      spare = drop-replicate (length front) (n * 2) nil

  resize_straight :
      (q : Queue A)
      → q.head + q.count < length q.buf
      → 1 ≤ q.count
      → q.tail ≡ q.head + q.count
      → resize nil q ≡ some (compacted q)
  unfolding resize
  resize_straight q lt some_left e = ground (
    arith,
    slice_straight nil q.buf q.head q.count (omega arith),
    paste_one (items nil q.buf q.head q.count) q.count (length-items nil q.buf q.head q.count),
    ap (λ n. take n (drop q.head q.buf)) width,
  )
    where
      width : q.tail - q.head ≡ q.count
      width = omega arith

  resize_around :
      (q : Queue A)
      → q.head < length q.buf
      → q.tail ≤ q.head
      → q.count ≡ length q.buf - q.head + q.tail
      → resize nil q ≡ some (compacted q)
  unfolding resize
  resize_around q lt le e =
      rw
        (
          le→not_ltb q.tail q.head le,
          le→leb q.head (length q.buf) (omega arith),
          le→leb (length q.buf) (length q.buf) (omega arith),
        )
        (rw (le→leb 0 q.tail (omega arith), le→leb q.tail (length q.buf) (omega arith), whole)
          (ap (λ b. some (record q { buf = b; head = 0; tail = q.count }))
            (paste_two (take (length q.buf - q.head) (drop q.head q.buf)) (take q.tail q.buf)
                q.count sizes
              ∙ ap (λ b. b ++ replicate q.count nil)
                  (slice_around nil q.buf q.head q.tail lt (omega arith)
                    ∙ ap (items nil q.buf q.head) (sym e)))))
    where
      whole : q.tail - 0 ≡ q.tail
      whole = omega arith

      sizes :
          length (take (length q.buf - q.head) (drop q.head q.buf)) + length (take q.tail q.buf)
          ≡ q.count
      sizes = omega (
        arith,
        length-take (length q.buf - q.head) (drop q.head q.buf),
        length-drop q.head q.buf,
        length-take q.tail q.buf,
      )

  -- From a ring that is not empty, `resize` panics on no slice and moves the entries to the front.
  pub resize-compacted : (q : Queue A) → IsRing q → 1 ≤ q.count → resize nil q ≡ some (compacted q)
  resize-compacted q v some_left =
      elim (mod_cases (q.head + q.count) (length q.buf) (omega arith)) [
        | inl h ↦ resize_straight q h.0 some_left (omega arith)
        | inr h ↦ resize_around q v.head_in (omega arith) (omega arith)
      ]

  abbrev pub contents : Queue A → List A
  contents q = items nil q.buf q.head q.count

  pub contents-compacted : (q : Queue A) → contents (compacted q) ≡ contents q
  contents-compacted q =
      ap (items nil (contents q ++ replicate q.count nil) 0)
        (sym (length-items nil q.buf q.head q.count))
      ∙ items-front nil (contents q) (replicate q.count nil)

  pub length-compacted : (q : Queue A) → length (compacted q).buf ≡ q.count * 2
  length-compacted q = omega (
    arith,
    length-append (contents q) (replicate q.count nil),
    length-items nil q.buf q.head q.count,
    length-replicate q.count nil,
  )

  -- With a power of two of entries, the compacted queue is well formed and half full.
  pub compacted-IsSized :
      (q : Queue A) (k : ℕ) → q.count ≡ 2 ^ k → 1 ≤ q.count → IsSized (compacted q) (suc k)
  compacted-IsSized q k e some_left = record {
    ring = record {
      head_in = omega (arith, length-compacted q);
      count_in = omega (arith, length-compacted q);
      tail_at = sym (
          mod-eq_of_lt {n = 0 + q.count} {m = length (compacted q).buf}
            (omega (arith, length-compacted q))
          ∙ zero_plus q.count);
    };
    power = omega (arith, length-compacted q, pow-suc 2 k);
    least = omega arith;
  }
    where
      zero_plus : (n : ℕ) → 0 + n ≡ n
      zero_plus n = omega arith
