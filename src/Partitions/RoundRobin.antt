-- ===== src/Partitions/RoundRobin.antt =====
-- Which partition a message is given, and which partitions a consumer is given.
use native.Mathlib.Nat.{mod-lt}
use pub_sub_go.Base.{
  ℕ, suc, ◌%◌, ◌^◌, ◌<◌, ◌≡◌, refl, sym, ap, ◌∙◌, String, some, List, [], ◌∷◌, ◌++◌, Dict, insert,
  lookup, lookup-insert, append_assoc, append-nil, length, get_or, ltb, if◌then◌else◌, ◌==◌, eq_iff,
  Bool-cases, inl, inr, arith,
}
use pub_sub_go.Base.Int.{ℤ, pos, negsuc, ◌+ℤ◌, ◌≤ℤ◌, ◌<ℤ◌, ltb_ℤ, rem_ℤ}
use pub_sub_go.Base.Words.{int32}
use pub_sub_go.Partitions.Assign.{
  Partition, reduced, assign_partition, partitions_of, initialised, distribute,
  calculate_optimal_assignment,
}

adjusted_range :
    (n : ℕ) (r : ℤ)
    → suc n < 2 ^ 31
    → negsuc n <ℤ r
    → r <ℤ pos (suc n)
    → let x = if ltb_ℤ r (pos 0) then int32 (r +ℤ pos (suc n)) else r in
      (pos 0 ≤ℤ x) × (x <ℤ pos (suc n))
unfolding int32 ◌+ℤ◌
adjusted_range n r small low high = ground arith

rem_bounds : (h : ℤ) (n : ℕ) → (negsuc n <ℤ rem_ℤ h (suc n)) × (rem_ℤ h (suc n) <ℤ pos (suc n))
unfolding rem_ℤ
rem_bounds (pos a) n = ground (arith, mod-lt a {m = suc n} (omega arith))
rem_bounds (negsuc a) n = ground (arith, mod-lt (suc a) {m = suc n} (omega arith))

reduced_range :
    (h : ℤ) (n : ℕ)
    → suc n < 2 ^ 31
    → (r : ℤ) × (reduced h (pos (suc n)) ≡ some r) × (pos 0 ≤ℤ r) × (r <ℤ pos (suc n))
unfolding reduced
reduced_range h n small =
    let r = rem_ℤ h (suc n) in
    let b = rem_bounds h n in
    let x = adjusted_range n r small b.0 b.1 in
    (if ltb_ℤ r (pos 0) then int32 (r +ℤ pos (suc n)) else r, refl, x.0, x.1)

-- Whatever the key, the hash and the clock, a message is given one of the topic's partitions, when
-- their number is a positive `int32`.
pub assign_partition_range :
    (fnv32a : List ℕ → ℕ) (key : List ℕ) (n : ℕ) (nano : ℤ)
    → suc n < 2 ^ 31
    → (r : ℤ) × (assign_partition fnv32a key (pos (suc n)) nano ≡ some r)
      × (pos 0 ≤ℤ r)
      × (r <ℤ pos (suc n))
unfolding assign_partition
assign_partition_range fnv32a key n nano small = elim (Bool-cases (ltb 0 (length key))) [
  | inl e ↦ rw e (reduced_range (int32 (pos (fnv32a key))) n small)
  | inr e ↦ rw e (reduced_range (int32 nano) n small)
]

-- The partitions of `ps`, numbered from `i` on, whose turn is the consumer's.
abbrev pub turns_of : List String → ℕ → String → List Partition → List ℤ
turns_of consumers i consumer_id [] = []
turns_of consumers i consumer_id (p ∷ ps) =
    let rest = turns_of consumers (suc i) consumer_id ps in
    if get_or consumers (i % length consumers) "" == consumer_id then p.id ∷ rest else rest

partitions_of-insert :
    (c d : String) (ids : List ℤ) (m : Dict (List ℤ))
    → partitions_of d (insert c ids m) ≡ (if c == d then ids else partitions_of d m)
unfolding partitions_of
partitions_of-insert c d ids m = ground (arith, lookup-insert c d ids m)

-- One turn.
turn-partitions_of :
    (c d : String) (x : ℤ) (t : List ℤ) (m : Dict (List ℤ))
    → partitions_of d (insert c (partitions_of c m ++ x ∷ []) m) ++ t
      ≡ partitions_of d m ++ (if c == d then x ∷ t else t)
turn-partitions_of c d x t m = elim (Bool-cases (c == d)) [
  | inl e ↦
      rw (partitions_of-insert, e)
        (append_assoc (partitions_of c m) (x ∷ []) t
          ∙ ap (λ k. partitions_of k m ++ x ∷ t) ((eq_iff c d).0 e))
  | inr e ↦ rw (partitions_of-insert, e)
]

distribute-turns_of :
    (consumers : List String) (i : ℕ) (d : String) (ps : List Partition) (m : Dict (List ℤ))
    → partitions_of d (distribute consumers i ps m) ≡ partitions_of d m ++ turns_of consumers i d ps
unfolding distribute
distribute-turns_of consumers i d [] m = sym (append-nil (partitions_of d m))
distribute-turns_of consumers i d (p ∷ ps) m =
    let c = get_or consumers (i % length consumers) "" in
    distribute-turns_of consumers (suc i) d ps (insert c (partitions_of c m ++ p.id ∷ []) m)
    ∙ turn-partitions_of c d p.id (turns_of consumers (suc i) d ps) m

initialised-nil :
    (cs : List String) (d : String) (m : Dict (List ℤ))
    → partitions_of d m ≡ []
    → partitions_of d (initialised cs m) ≡ []
unfolding initialised
initialised-nil [] d m e = e
initialised-nil (c ∷ cs) d m e =
    initialised-nil cs d (insert c [] m) (ground (arith, e, partitions_of-insert c d [] m))

partitions_of-nil : (d : String) → partitions_of d [] ≡ []
unfolding partitions_of lookup
partitions_of-nil d = refl

-- A consumer is given exactly the partitions whose turn is its own, the turns going round the
-- consumers in order, and in the order of the partitions.
pub optimal-turns_of :
    (c : String) (cs : List String) (d : String) (ps : List Partition)
    → partitions_of d (calculate_optimal_assignment ps (c ∷ cs)) ≡ turns_of (c ∷ cs) 0 d ps
unfolding calculate_optimal_assignment
optimal-turns_of c cs d ps =
    distribute-turns_of (c ∷ cs) 0 d ps (initialised (c ∷ cs) [])
    ∙ ap (λ ids. ids ++ turns_of (c ∷ cs) 0 d ps)
        (initialised-nil (c ∷ cs) d [] (partitions_of-nil d))
