-- ===== src/Queue/Window.antt =====
-- The entries that a ring holds, oldest first, and what writing and copying make of them.
use native.Mathlib.Decide.{dec_lt}
use native.Mathlib.Nat.{mod-eq_of_lt, mod-eq-sub-mod, mod-add-mod}
use pub_sub_go.Base.{
  ℕ, zero, suc, ◌+◌, ◌-◌, ◌%◌, ◌≤◌, ◌<◌, ◌≡◌, refl, sym, ap, ap₂, ◌∙◌, ◌≢◌, inl, inr, ◌⊎◌, List, [],
  ◌∷◌, ◌++◌, arith, length, get_or, set, take, drop, replicate, length-append, length-take,
  length-drop, length-set, get_or-set_ne, get_or-drop, get_or-take, List-ext,
}
use pub_sub_go.Queue.{copy}

module _ {ℓ} {A : Type ℓ} where
  pub length-copy : (dst src : List A) → length (copy dst src) ≡ length dst
  unfolding copy
  length-copy [] src = refl
  length-copy (d ∷ dst) [] = refl
  length-copy (d ∷ dst) (s ∷ src) = ap suc (length-copy dst src)

  -- A copy that fits replaces the front and keeps the rest.
  pub copy_fits :
      (dst src : List A) → length src ≤ length dst → copy dst src ≡ src ++ drop (length src) dst
  unfolding copy
  copy_fits [] [] h = refl
  copy_fits [] (s ∷ src) h = absurd (omega arith)
  copy_fits (d ∷ dst) [] h = refl
  copy_fits (d ∷ dst) (s ∷ src) h = ap (λ r. s ∷ r) (copy_fits dst src (omega arith))

  pub take-append_exact : (xs ys : List A) → take (length xs) (xs ++ ys) ≡ xs
  take-append_exact [] ys = refl
  take-append_exact (x ∷ xs) ys = ap (λ r. x ∷ r) (take-append_exact xs ys)

  pub drop-replicate : (n m : ℕ) (a : A) → drop n (replicate m a) ≡ replicate (m - n) a
  drop-replicate zero m a = ap (λ k. replicate k a) (all_left m)
    where
      all_left : (m : ℕ) → m ≡ m - 0
      all_left m = omega arith
  drop-replicate (suc n) zero a = ap (λ k. replicate k a) (none_left n)
    where
      none_left : (n : ℕ) → 0 ≡ 0 - suc n
      none_left n = omega arith
  drop-replicate (suc n) (suc m) a = drop-replicate n m a ∙ ap (λ k. replicate k a) (one_less n m)
    where
      one_less : (n m : ℕ) → m - n ≡ suc m - suc n
      one_less n m = omega arith

  pub drop-append_exact : (xs ys : List A) → drop (length xs) (xs ++ ys) ≡ ys
  drop-append_exact [] ys = refl
  drop-append_exact (x ∷ xs) ys = drop-append_exact xs ys

-- Below twice the size a remainder is the number itself or the number less the size.
pub mod_cases :
    (x cap : ℕ) → x < cap + cap → ((x < cap) × (x % cap ≡ x)) ⊎ ((cap ≤ x) × (x % cap ≡ x - cap))
mod_cases x cap h = elim (dec_lt x cap) [
  | yes p ↦ inl (p, mod-eq_of_lt p)
  | no p ↦ inr (
    omega arith,
    mod-eq-sub-mod {n = x} {m = cap} (omega arith)
        ∙ mod-eq_of_lt {n = x - cap} {m = cap} (omega arith),
  )
]

-- Fewer than `cap` steps round the ring do not come back to the start.
step_ne : {cap h i n : ℕ} → h < cap → i < n → n < cap → (h + n) % cap ≢ (h + i) % cap
step_ne {cap} {h} {i} {n} hh hi hn e =
    omega (arith, mod_cases (h + i) cap (omega arith), mod_cases (h + n) cap (omega arith))

front_ne : {cap h i : ℕ} → h < cap → suc i < cap → h ≢ (suc h + i) % cap
front_ne {cap} {h} {i} hh hi e = omega (arith, mod_cases (suc h + i) cap (omega arith))

module _ {ℓ} {A : Type ℓ} (nil : A) where
  -- the `n` entries from position `h` on, going round the end
  abbrev pub items : List A → ℕ → ℕ → List A
  items buf h zero = []
  items buf h (suc n) = get_or buf (h % length buf) nil ∷ items buf (suc h) n

  pub length-items : (buf : List A) (h n : ℕ) → length (items buf h n) ≡ n
  length-items buf h zero = refl
  length-items buf h (suc n) = ap suc (length-items buf (suc h) n)

  pub get_or-items :
      (buf : List A) (h n i : ℕ)
      → i < n
      → get_or (items buf h n) i nil ≡ get_or buf ((h + i) % length buf) nil
  get_or-items buf h zero i lt = absurd (omega arith)
  get_or-items buf h (suc n) zero lt = ap (λ k. get_or buf (k % length buf) nil) (omega arith)
  get_or-items buf h (suc n) (suc i) lt =
      get_or-items buf (suc h) n i (omega arith)
      ∙ ap (λ k. get_or buf (k % length buf) nil) (omega arith)

  -- Positions may be taken modulo the size.
  pub items-mod : (buf : List A) (h n : ℕ) → items buf (h % length buf) n ≡ items buf h n
  items-mod buf h n =
      List-ext nil _ _ (omega (arith, length-items buf h n, length-items buf (h % length buf) n))
        λ i lt. step i (omega (arith, lt, length-items buf (h % length buf) n))
    where
      step :
          (i : ℕ)
          → i < n
          → get_or (items buf (h % length buf) n) i nil ≡ get_or (items buf h n) i nil
      step i lt =
          rw (get_or-items buf (h % length buf) n i lt, get_or-items buf h n i lt)
            (ap (λ k. get_or buf k nil) (mod-add-mod h (length buf) i))

  -- One more entry stands behind the others.
  pub items-suc :
      (buf : List A) (h n : ℕ)
      → items buf h (suc n) ≡ items buf h n ++ get_or buf ((h + n) % length buf) nil ∷ []
  items-suc buf h zero = ap (λ k. get_or buf (k % length buf) nil ∷ []) (omega arith)
  items-suc buf h (suc n) =
      ap (λ r. get_or buf (h % length buf) nil ∷ r)
        (items-suc buf (suc h) n
          ∙ ap (λ k. items buf (suc h) n ++ get_or buf (k % length buf) nil ∷ []) (omega arith))

  -- A write at a position that no entry has leaves the entries alone.
  items-set_ne :
      (buf : List A) (h n p : ℕ) (v : A)
      → ((i : ℕ) → i < n → p ≢ (h + i) % length buf)
      → items (set buf p v) h n ≡ items buf h n
  items-set_ne buf h n p v ne =
      List-ext nil _ _ (omega (arith, length-items buf h n, length-items (set buf p v) h n))
        λ i lt. step i (omega (arith, lt, length-items (set buf p v) h n))
    where
      step : (i : ℕ) → i < n → get_or (items (set buf p v) h n) i nil ≡ get_or (items buf h n) i nil
      step i lt =
          rw (get_or-items (set buf p v) h n i lt, get_or-items buf h n i lt, length-set buf p v)
            (get_or-set_ne buf v nil (ne i lt))

  pub items-set_end :
      (buf : List A) (h n : ℕ) (v : A)
      → h < length buf
      → n < length buf
      → items (set buf ((h + n) % length buf) v) h n ≡ items buf h n
  items-set_end buf h n v hh hn = items-set_ne buf h n _ v λ i lt e. step_ne hh lt hn (e)

  pub items-set_front :
      (buf : List A) (h n : ℕ) (v : A)
      → h < length buf
      → n < length buf
      → items (set buf h v) (suc h) n ≡ items buf (suc h) n
  items-set_front buf h n v hh hn =
      items-set_ne buf (suc h) n h v λ i lt e. front_ne hh (omega arith) (e)

module _ {ℓ} {A : Type ℓ} (nil : A) where
  -- Entries that do not go round the end are a slice.
  pub slice_straight :
      (buf : List A) (h n : ℕ) → h + n ≤ length buf → take n (drop h buf) ≡ items nil buf h n
  slice_straight buf h n le =
      List-ext nil _ _ (omega (arith, sizes)) λ i lt. step i (omega (arith, sizes))
    where
      sizes : (length (take n (drop h buf)) ≡ n) × (length (items nil buf h n) ≡ n)
      sizes =
          (omega (arith, length-take n (drop h buf), length-drop h buf), length-items nil buf h n)

      step : (i : ℕ) → i < n → get_or (take n (drop h buf)) i nil ≡ get_or (items nil buf h n) i nil
      step i lt =
          get_or-take n (drop h buf) i nil lt
          ∙ get_or-drop h buf i nil
          ∙ ap (λ k. get_or buf k nil)
              (sym (mod-eq_of_lt {n = h + i} {m = length buf} (omega arith)))
          ∙ sym (get_or-items nil buf h n i lt)

  -- Entries from `h` on are those up to `m`, then those behind.
  pub items-add :
      (buf : List A) (h m n : ℕ)
      → items nil buf h (m + n) ≡ items nil buf h m ++ items nil buf (h + m) n
  items-add buf h zero n =
      cc (ap (λ k. items nil buf k n) (plus_zero h), ap (items nil buf h) (zero_plus n))
    where
      plus_zero : (k : ℕ) → k + 0 ≡ k
      plus_zero k = omega arith

      zero_plus : (k : ℕ) → 0 + k ≡ k
      zero_plus k = omega arith
  items-add buf h (suc m) n =
      ap (items nil buf h) (suc_plus m n)
      ∙ ap (λ r. get_or buf (h % length buf) nil ∷ r)
          (items-add buf (suc h) m n
            ∙ ap (λ k. items nil buf (suc h) m ++ items nil buf k n) (omega arith))
    where
      suc_plus : (a b : ℕ) → suc a + b ≡ suc (a + b)
      suc_plus a b = omega arith

  pub items-length :
      (buf : List A) (n : ℕ) → 0 < length buf → items nil buf (length buf) n ≡ items nil buf 0 n
  items-length buf n pos =
      sym (items-mod nil buf (length buf) n)
      ∙ ap (λ k. items nil buf k n)
          (omega (arith, mod_cases (length buf) (length buf) (omega arith)))

  -- Entries that go round the end are the rest of the buffer and a front of it.
  pub slice_around :
      (buf : List A) (h t : ℕ)
      → h < length buf
      → t ≤ length buf
      → take (length buf - h) (drop h buf) ++ take t buf ≡ items nil buf h (length buf - h + t)
  slice_around buf h t lt le =
      ap₂ ◌++◌ (slice_straight buf h (length buf - h) (omega arith))
        (slice_straight buf 0 t (omega arith))
      ∙ ap (λ r. items nil buf h (length buf - h) ++ r)
          (sym (items-length buf t (omega arith)) ∙ ap (λ k. items nil buf k t) (omega arith))
      ∙ sym (items-add buf h (length buf - h) t)

  -- A buffer that begins with `xs` holds `xs` from position 0 on.
  pub items-front : (xs ys : List A) → items nil (xs ++ ys) 0 (length xs) ≡ xs
  items-front xs ys =
      sym (slice_straight (xs ++ ys) 0 (length xs) (omega (arith, length-append xs ys)))
      ∙ take-append_exact xs ys
