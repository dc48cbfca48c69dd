-- ===== src/Partitions/Safety.antt =====
-- Rebalancing reads and writes no partition out of range.
use pub_sub_go.Base.{
  ℕ, zero, suc, ◌+◌, ◌<◌, ◌≤◌, ◌%◌, ◌≡◌, refl, sym, subst, ◌∙◌, ap, String, Bool, true, false, some,
  List, [], ◌∷◌, ◌++◌, Dict, insert, lookup, length, get_elem?, get_or, set, length-set, ◌==◌,
  if◌then◌else◌, Bool-cases, Option-cases, inl, inr, arith,
}
use pub_sub_go.Base.Int.{ℤ, pos, negsuc, ◌≤ℤ◌, ◌<ℤ◌}
use pub_sub_go.Result.{Result}
use pub_sub_go.Partitions.Assign.{
  Partition, partitions_of, initialised, distribute, calculate_optimal_assignment,
}
use pub_sub_go.Partitions.Manager.{PartitionAssignment, PartitionManager, fresh_partitions}
use pub_sub_go.Partitions.Rebalance.{
  PartitionRebalance, RebalanceResult, mem_id, moved, referred, apply_assignment, rebalance_found,
  rebalance_partitions, consumers_of,
}

-- Numbers of partitions of a topic with `n`.
abbrev pub AllIn : ℕ → List ℤ → Type 0
AllIn n [] = Unit {0}
AllIn n (id ∷ ids) = ((pos 0 ≤ℤ id) × (id <ℤ pos n)) × AllIn n ids

abbrev pub MapIn : ℕ → Dict (List ℤ) → Type 0
MapIn n [] = Unit {0}
MapIn n ((c, ids) ∷ m) = AllIn n ids × MapIn n m

abbrev pub PartitionsIn : ℕ → List Partition → Type 0
PartitionsIn n [] = Unit {0}
PartitionsIn n (p ∷ ps) = ((pos 0 ≤ℤ p.id) × (p.id <ℤ pos n)) × PartitionsIn n ps

partitions_of-entry :
    (c d : String) (ids : List ℤ) (m : Dict (List ℤ))
    → partitions_of c ((d, ids) ∷ m) ≡ (if d == c then ids else partitions_of c m)
unfolding partitions_of lookup
partitions_of-entry c d ids m = ground arith

module _ (n : ℕ) where
  append-AllIn :
      (ids : List ℤ) (id : ℤ)
      → AllIn n ids
      → (pos 0 ≤ℤ id) × (id <ℤ pos n)
      → AllIn n (ids ++ id ∷ [])
  append-AllIn [] id h e = (e, tt)
  append-AllIn (j ∷ ids) id h e = (h.0, append-AllIn ids id h.1 e)

  insert-MapIn :
      (c : String) (ids : List ℤ) (m : Dict (List ℤ))
      → AllIn n ids
      → MapIn n m
      → MapIn n (insert c ids m)
  unfolding insert
  insert-MapIn c ids [] h g = (h, tt)
  insert-MapIn c ids ((d, js) ∷ m) h g = elim (Bool-cases (d == c)) [
    | inl e ↦ rw e (h, g.1)
    | inr e ↦ rw e (g.0, insert-MapIn c ids m h g.1)
  ]

  if-AllIn :
      (b : Bool) (ids js : List ℤ) → AllIn n ids → AllIn n js → AllIn n (if b then ids else js)
  if-AllIn true ids js h g = h
  if-AllIn false ids js h g = g

  partitions_of-AllIn : (c : String) (m : Dict (List ℤ)) → MapIn n m → AllIn n (partitions_of c m)
  unfolding partitions_of lookup
  partitions_of-AllIn c [] g = tt
  partitions_of-AllIn c ((d, js) ∷ m) g =
      subst (AllIn n) (sym (partitions_of-entry c d js m))
        (if-AllIn (d == c) js (partitions_of c m) g.0 (partitions_of-AllIn c m g.1))

  initialised-MapIn :
      (cs : List String) (m : Dict (List ℤ)) → MapIn n m → MapIn n (initialised cs m)
  unfolding initialised
  initialised-MapIn [] m g = g
  initialised-MapIn (c ∷ cs) m g = initialised-MapIn cs (insert c [] m) (insert-MapIn c [] m tt g)

  distribute-MapIn :
      (cs : List String) (i : ℕ) (ps : List Partition) (m : Dict (List ℤ))
      → PartitionsIn n ps
      → MapIn n m
      → MapIn n (distribute cs i ps m)
  unfolding distribute
  distribute-MapIn cs i [] m h g = g
  distribute-MapIn cs i (p ∷ ps) m h g =
      let c = get_or cs (i % length cs) "" in
      let ids = partitions_of c m ++ p.id ∷ [] in
      distribute-MapIn cs (suc i) ps (insert c ids m) h.1 (
        insert-MapIn c ids m (append-AllIn (partitions_of c m) p.id (partitions_of-AllIn c m g) h.0)
          g)

  optimal-MapIn :
      (ps : List Partition) (cs : List String)
      → PartitionsIn n ps
      → MapIn n (calculate_optimal_assignment ps cs)
  unfolding calculate_optimal_assignment
  optimal-MapIn ps [] h = tt
  optimal-MapIn ps (c ∷ cs) h =
      distribute-MapIn (c ∷ cs) 0 ps (initialised (c ∷ cs) []) h (initialised-MapIn (c ∷ cs) [] tt)

get_elem?-some :
    {A : Type 0} (xs : List A) (i : ℕ) → i < length xs → (x : A) × (get_elem? xs i ≡ some x)
get_elem?-some [] i h = absurd (omega (arith, h))
get_elem?-some (x ∷ xs) zero h = (x, refl)
get_elem?-some (x ∷ xs) (suc i) h = get_elem?-some xs i (omega (arith, h))

moved-some :
    (c : String) (old : List ℤ) (ps : List Partition) (m : Dict (List ℤ)) (ids : List ℤ)
    → AllIn (length ps) ids
    → (ds : List PartitionRebalance) × (moved c old ps m ids ≡ some ds)
unfolding moved
moved-some c old ps m [] h = ([], refl)
moved-some c old ps m (negsuc i ∷ ids) h = absurd (omega (arith, h.0))
moved-some c old ps m (pos i ∷ ids) h =
    let rest = moved-some c old ps m ids h.1 in
    let p = get_elem?-some ps i (omega (arith, h.0)) in
    elim (Bool-cases (mem_id (pos i) old)) [
      | inl e ↦ rw e rest
      | inr e ↦ rw (e, p.1, rest.1) (_, refl)
    ]

referred-some :
    (c : String) (ids : List ℤ) (n : ℕ) (ps : List Partition)
    → AllIn n ids
    → (qs : List Partition) × (referred c ids ps ≡ some qs) × (length qs ≡ length ps)
unfolding referred
referred-some c [] n ps h = (ps, refl, refl)
referred-some c (negsuc i ∷ ids) n ps h = absurd (omega (arith, h.0))
referred-some c (pos i ∷ ids) n ps h = elim (Option-cases (get_elem? ps i)) [
  | inl e ↦ rw e (referred-some c ids n ps h.1)
  | inr (p, e) ↦
      let rest = referred-some c ids n (set ps i (record p { consumers = c ∷ [] })) h.1 in
      rw e (rest.0, rest.1, rest.2 ∙ length-set ps i (record p { consumers = c ∷ [] }))
]

apply-some :
    (new : Dict (List ℤ)) (a : PartitionAssignment) (ds : List PartitionRebalance)
    → MapIn (length a.partitions) new
    → (r : PartitionAssignment × List PartitionRebalance) × (apply_assignment new a ds ≡ some r)
unfolding apply_assignment
apply-some [] a ds h = ((a, ds), refl)
apply-some ((c, ids) ∷ new) a ds h =
    let f = moved-some c (partitions_of c a.consumer_map) a.partitions a.consumer_map ids h.0 in
    let q = referred-some c ids (length a.partitions) a.partitions h.0 in
    let next : PartitionAssignment = record a {
      consumer_map = insert c ids a.consumer_map;
      partitions = q.0;
    } in
    rw (f.1, q.1) (apply-some new next (ds ++ f.0) (subst (λ k. MapIn k new) (sym q.2) h.1))

-- Rebalancing a topic whose partitions have their numbers in range does not panic: no partition is
-- read or written out of range, whatever consumers there are.
pub rebalance_partitions-some :
    (topic_name : String) (started completed : ℤ) (pm : PartitionManager) (a : PartitionAssignment)
    → lookup topic_name pm.assignments ≡ some a
    → PartitionsIn (length a.partitions) a.partitions
    → (r : Result RebalanceResult × PartitionManager) × (rebalance_partitions topic_name started
          completed pm
        ≡ some r)
unfolding rebalance_partitions
rebalance_partitions-some topic_name started completed pm a found numbered =
    let done =
      apply-some (calculate_optimal_assignment a.partitions (consumers_of a.consumer_map)) a []
        (optimal-MapIn (length a.partitions) a.partitions (consumers_of a.consumer_map) numbered) in
    subst
      (λ o.
        (r : Result RebalanceResult × PartitionManager) × (rebalance_found topic_name started
            completed pm o
          ≡ some r))
      (sym found)
      (elim (Bool-cases a.rebalancing) [
        | inl e ↦ rw e (_, refl)
        | inr e ↦ rw (done.1, e) (_, refl)
      ])

widen : (ps : List Partition) (n m : ℕ) → n ≤ m → PartitionsIn n ps → PartitionsIn m ps
widen [] n m h e = tt
widen (p ∷ ps) n m h e = ((e.0.0, omega (arith, e.0.1, h)), widen ps n m h e.1)

fresh-PartitionsIn :
    (topic_name : String) (now : ℤ) (i n : ℕ)
    → PartitionsIn (i + n) (fresh_partitions topic_name now i n)
unfolding fresh_partitions
fresh-PartitionsIn topic_name now i zero = tt
fresh-PartitionsIn topic_name now i (suc n) = (
  (omega arith, omega arith),
  widen (fresh_partitions topic_name now (suc i) n) (suc i + n) (i + suc n) (omega arith)
      (fresh-PartitionsIn topic_name now (suc i) n),
)

fresh-length :
    (topic_name : String) (now : ℤ) (i n : ℕ) → length (fresh_partitions topic_name now i n) ≡ n
unfolding fresh_partitions
fresh-length topic_name now i zero = refl
fresh-length topic_name now i (suc n) = ap suc (fresh-length topic_name now (suc i) n)

-- The partitions that `InitializePartitions` makes have their numbers in range, as rebalancing needs.
pub fresh_partitions-PartitionsIn :
    (topic_name : String) (now : ℤ) (n : ℕ)
    → PartitionsIn
        (length (fresh_partitions topic_name now 0 n))
        (fresh_partitions topic_name now 0 n)
fresh_partitions-PartitionsIn topic_name now n =
    let ps = fresh_partitions topic_name now 0 n in
    subst (λ k. PartitionsIn k ps) (sym (fresh-length topic_name now 0 n))
      (widen ps (0 + n) n (omega arith) (fresh-PartitionsIn topic_name now 0 n))
