-- ===== src/Subscriber/Shares.antt =====
-- The partitions that `rebalanceConsumerGroup` gives to the consumers of a group.
use native.Mathlib.Nat.{div-add-mod, mod-lt}
use pub_sub_go.Base.{
  ℕ, zero, suc, ◌+◌, ◌-◌, ◌*◌, ◌/◌, ◌%◌, ◌^◌, ◌<◌, ◌≤◌, ◌≡◌, refl, ap, ap₂, ◌∙◌, ◌⊎◌, inl, inr,
  List, [], ◌∷◌, ◌++◌, length, length-append, ltb, if◌then◌else◌, arith, Bool-cases, true,
}
use pub_sub_go.Base.Int.{ℤ, pos, ◌+ℤ◌}
use pub_sub_go.Base.Words.{int32}
use pub_sub_go.Core.Consumer.{Consumer}
use pub_sub_go.Subscriber.Rebalance.{
  base_partitions, share, shares, rebalance_consumer_group, inc32,
}

-- `n` partitions from `k` on.
abbrev pub range : ℕ → ℕ → List ℤ
range k zero = []
range k (suc n) = pos k ∷ range (suc k) n

-- The partitions of some consumers, one after the other.
abbrev pub all_partitions : List Consumer → List ℤ
all_partitions [] = []
all_partitions (c ∷ cs) = c.partitions ++ all_partitions cs

range-append : (k a b : ℕ) → range k a ++ range (k + a) b ≡ range k (a + b)
range-append k zero b = ap₂ range (omega arith) (omega arith)
range-append k (suc a) b =
    let shift : range (k + suc a) b ≡ range (suc k + a) b = ap (λ j. range j b) (omega arith) in
    let same : suc (a + b) ≡ suc a + b = omega arith in
    ap (λ r. pos k ∷ (range (suc k) a ++ r)) shift
    ∙ ap (λ r. pos k ∷ r) (range-append (suc k) a b)
    ∙ ap (range k) same

inc32_pos : (k : ℕ) → suc k < 2 ^ 31 → inc32 (pos k) ≡ pos (suc k)
unfolding int32 ◌+ℤ◌
inc32_pos k h = ground arith

base-range : (n k : ℕ) → k + n < 2 ^ 31 → base_partitions n (pos k) ≡ (range k n, pos (k + n))
unfolding base_partitions
base-range zero k h = ap (λ j. ([], pos j)) (omega arith)
base-range (suc n) k h =
    rw (inc32_pos k (omega (arith, h)), base-range n (suc k) (omega (arith, h)))
      (ap (λ j. (pos k ∷ range (suc k) n, pos j)) (omega arith))

-- How many partitions consumer number `i` is given, and how many the ones from it on.
abbrev pub extra_of : ℕ → ℕ → ℕ
extra_of e i = if ltb i e then 1 else 0

abbrev total : ℕ → ℕ → ℕ → List Consumer → ℕ
total q e i [] = 0
total q e i (c ∷ cs) = q + extra_of e i + total q e (suc i) cs

share-range :
    (q e i k : ℕ)
    → k + (q + extra_of e i) < 2 ^ 31
    → share q e i (pos k) ≡ (range k (q + extra_of e i), pos (k + (q + extra_of e i)))
unfolding share
share-range q e i k h = elim (Bool-cases (ltb i e)) [
  | inl t ↦
      rw (t, base-range q k (omega (arith, h)), inc32_pos (k + q) (more t))
        (ap₂ pair (range-append k q 1) (ap pos (omega arith)))
  | inr t ↦
      rw (t, base-range q k (omega (arith, h)))
        (ap₂ pair (ap (range k) (omega arith)) (ap pos (omega arith)))
]
  where
    pair : List ℤ → ℤ → List ℤ × ℤ
    pair a b = (a, b)

    more : ltb i e ≡ true → suc (k + q) < 2 ^ 31
    more t = ground (arith, h, t)

shares-range :
    (q e i k : ℕ) (cs : List Consumer)
    → k + total q e i cs < 2 ^ 31
    → all_partitions (shares q e i (pos k) cs) ≡ range k (total q e i cs)
unfolding shares
shares-range q e i k [] h = refl
shares-range q e i k (c ∷ cs) h =
    let size = q + extra_of e i in
    rw
      (
        share-range q e i k (omega (arith, h)),
        shares-range q e (suc i) (k + size) cs (omega (arith, h)),
      )
      (range-append k size (total q e (suc i) cs))

total-eq :
    (q e i : ℕ) (cs : List Consumer) → e ≤ i + length cs → total q e i cs ≡ length cs * q + (e - i)
total-eq q e i [] h = omega (arith, h)
total-eq q e i (c ∷ cs) h = ground (arith, total-eq q e (suc i) cs (omega (arith, h)))

-- The consumers of a group, one or more, together are given each partition of the topic exactly
-- once, in order, when the number of partitions is an `int32`.
pub rebalance-all_partitions :
    (p : ℕ) (c : Consumer) (cs : List Consumer)
    → p < 2 ^ 31
    → all_partitions (rebalance_consumer_group (pos p) (c ∷ cs)) ≡ range 0 p
unfolding rebalance_consumer_group shares
rebalance-all_partitions p c cs small =
    let n = suc (length cs) in
    let sum : total (p / n) (p % n) 0 (c ∷ cs) ≡ p =
      total-eq (p / n) (p % n) 0 (c ∷ cs) (omega (arith, mod-lt p {m = n} (omega arith)))
      ∙ omega (arith, div-add-mod p n) in
    shares-range (p / n) (p % n) 0 0 (c ∷ cs) (omega (arith, sum, small)) ∙ ap (range 0) sum

-- Each consumer has `q` partitions or one more.
abbrev pub IsBalanced : ℕ → List Consumer → Type 0
IsBalanced q [] = Unit {0}
IsBalanced q (c ∷ cs) =
    ((length c.partitions ≡ q) ⊎ (length c.partitions ≡ suc q)) × IsBalanced q cs

base-length : (n : ℕ) (k : ℤ) → length (base_partitions n k).0 ≡ n
unfolding base_partitions
base-length zero k = refl
base-length (suc n) k = ap suc (base-length n (inc32 k))

shares-IsBalanced : (q e i : ℕ) (k : ℤ) (cs : List Consumer) → IsBalanced q (shares q e i k cs)
unfolding shares share
shares-IsBalanced q e i k [] = tt
shares-IsBalanced q e i k (c ∷ cs) = (
  ground (
    arith,
    base-length q k,
    length-append (base_partitions q k).0 ((base_partitions q k).1 ∷ []),
  ),
  shares-IsBalanced q e (suc i) (share q e i k).1 cs,
)

-- No consumer of a group, one or more, is given more than one partition more than another: each has the whole
-- part of the partitions' number by the consumers', or one more.
pub rebalance-IsBalanced :
    (p : ℕ) (c : Consumer) (cs : List Consumer)
    → IsBalanced (p / suc (length cs)) (rebalance_consumer_group (pos p) (c ∷ cs))
unfolding rebalance_consumer_group
rebalance-IsBalanced p c cs =
    shares-IsBalanced (p / suc (length cs)) (p % suc (length cs)) 0 (pos 0) (c ∷ cs)
