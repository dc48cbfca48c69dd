-- ===== src/Publisher/Hash.antt =====
-- internal/services/publisher/publisher.go: the partition of a message, chosen by a hash of its key.
use native.Mathlib.Nat.{mod-lt}
use pub_sub_go.Base.{
  ℕ, zero, suc, ◌^◌, ◌<◌, ◌%◌, ◌≡◌, ◌⊎◌, inl, inr, Option, none, some, List, [], ◌∷◌, if◌then◌else◌,
  arith, refl,
}
use pub_sub_go.Base.Int.{ℤ, pos, negsuc, ◌-ℤ◌, ◌+ℤ◌, ◌*ℤ◌, ◌≤ℤ◌, ◌<ℤ◌, ltb_ℤ, rem_ℤ}
use pub_sub_go.Base.Words.{int64, int32, add64, min_int64, max_int64, InInt64, int64-InInt64}

unfoldable pub hash_from : ℤ → List ℕ → ℤ
hash_from h [] = h
hash_from h (b ∷ bytes) = hash_from (add64 (int64 (h *ℤ pos 31)) (pos b)) bytes

-- `hash`: the negation wraps at the smallest number, which is its own negation.
unfoldable pub hash : List ℕ → ℤ
unfolding hash_from
hash bytes = let h = hash_from (pos 0) bytes in if ltb_ℤ h (pos 0) then int64 (pos 0 -ℤ h) else h

abbrev pub magnitude : ℤ → ℕ
magnitude (pos n) = n
magnitude (negsuc n) = suc n

-- `int32(hash(bytes) % int(partitions))`; `none` is the panic of a division by zero.
unfoldable pub hash_partition : List ℕ → ℤ → Option ℤ
unfolding hash
hash_partition bytes partitions = elim (magnitude partitions) [
  | zero ↦ none
  | suc n ↦ some (int32 (rem_ℤ (hash bytes) (suc n)))
]

hash_from-InInt64 : (h : ℤ) (bytes : List ℕ) → InInt64 h → InInt64 (hash_from h bytes)
unfolding hash_from
hash_from-InInt64 h [] e = e
hash_from-InInt64 h (b ∷ bytes) e =
    let next = add64 (int64 (h *ℤ pos 31)) (pos b) in
    hash_from-InInt64 next bytes (int64-InInt64 (int64 (h *ℤ pos 31) +ℤ pos b))

-- The absolute value as the program takes it.
abs_range :
    (h : ℤ)
    → InInt64 h
    → let r = if ltb_ℤ h (pos 0) then int64 (pos 0 -ℤ h) else h in
      ((pos 0 ≤ℤ r) × (r ≤ℤ max_int64)) ⊎ (r ≡ min_int64)
unfolding int64 ◌-ℤ◌
abs_range h e = ground arith

hash_range :
    (bytes : List ℕ)
    → ((pos 0 ≤ℤ hash bytes) × (hash bytes ≤ℤ max_int64)) ⊎ (hash bytes ≡ min_int64)
unfolding hash
hash_range bytes =
    abs_range (hash_from (pos 0) bytes) (hash_from-InInt64 (pos 0) bytes (omega arith, omega arith))

int32_small : (a n : ℕ) → a < n → n < 2 ^ 31 → (pos 0 ≤ℤ int32 (pos a)) × (int32 (pos a) <ℤ pos n)
unfolding int32
int32_small a n h small = ground arith

rem_range :
    (h : ℤ) (n : ℕ)
    → suc n < 2 ^ 31
    → pos 0 ≤ℤ h
    → (pos 0 ≤ℤ int32 (rem_ℤ h (suc n))) × (int32 (rem_ℤ h (suc n)) <ℤ pos (suc n))
unfolding rem_ℤ
rem_range (pos a) n small e = int32_small (a % suc n) (suc n) (mod-lt a (omega arith)) small
rem_range (negsuc a) n small e = omega (arith, e)

-- When the number of partitions is a positive `int32`, a key gets one of them, unless the hash of the key is the
-- smallest number, which the program's negation leaves negative.
pub hash_partition_range :
    (bytes : List ℕ) (n : ℕ)
    → suc n < 2 ^ 31
    → ((p : ℤ) × (hash_partition bytes (pos (suc n)) ≡ some p) × (pos 0 ≤ℤ p) × (p <ℤ pos (suc n)))
      ⊎ (hash bytes ≡ min_int64)
unfolding hash_partition
hash_partition_range bytes n small = elim (hash_range bytes) [
  | inl e ↦
      let r = rem_range (hash bytes) n small e.0 in
      inl (int32 (rem_ℤ (hash bytes) (suc n)), refl, r.0, r.1)
  | inr e ↦ inr e
]

-- A key whose hash is the smallest number goes to a negative partition of a topic with three.
pub overflow_partition :
    (bytes : List ℕ) → hash bytes ≡ min_int64 → hash_partition bytes (pos 3) ≡ some (negsuc 1)
unfolding hash_partition rem_ℤ int32
overflow_partition bytes e = rw e
