-- ===== src/Publisher/Entropy.antt =====
-- internal/services/publisher/compression.go and publisher.go: whether data look compressed already,
-- the statistics of a compression, and sizes as texts. `float64` is a parameter.
use native.Mathlib.Nat.{pow-succ'}
use Prim.Native.String.{◌++◌}
use pub_sub_go.Base.{
  ℕ, zero, suc, ◌+◌, ◌*◌, ◌/◌, ◌^◌, ◌<◌, ◌≡◌, arith, String, Bool, true, false, ◌&&◌, ◌||◌, List,
  [], ◌∷◌, length, take, get_or, eqb, ltb, leb, if◌then◌else◌, ◌==◌, min,
}
use pub_sub_go.Base.Int.{ℤ, pos, negsuc, ltb_ℤ}

-- `float64` and what the code does with it; `decimal` is the number of a literal, and `one_digit` the
-- text with one digit after the point.
pub record Reals : Type 1 where
  pub Float : Type 0
  pub of_int : ℤ → Float
  pub decimal : String → Float
  pub add : Float → Float → Float
  pub sub : Float → Float → Float
  pub mul : Float → Float → Float
  pub div : Float → Float → Float
  pub gt : Float → Float → Bool
  pub le : Float → Float → Bool
  pub one_digit : Float → String

pub record CompressionStats (F : Type 0) : Type 0 where
  pub original_size : ℕ
  pub compressed_size : ℕ
  pub compression_ratio : F
  pub kind : String

-- The data start with the bytes.
unfoldable pub starts : List ℕ → List ℕ → Bool
starts [] data_bytes = true
starts (m ∷ magic) [] = false
starts (m ∷ magic) (b ∷ data_bytes) = let rest = starts magic data_bytes in eqb m b && rest

-- How often a byte is there.
abbrev pub count_of : ℕ → List ℕ → ℕ
count_of x [] = zero
count_of x (b ∷ bs) = let n = count_of x bs in if eqb x b then suc n else n

-- The counts of the bytes below `n` that are there. The source adds them up in the order of a map.
abbrev pub counts_below : ℕ → List ℕ → List ℕ
counts_below zero bs = []
counts_below (suc n) bs =
    let rest = counts_below n bs in let c = count_of n bs in if eqb c 0 then rest else c ∷ rest

-- The loop of `formatBytes` on fuel: the divisor and the exponent. An `int64` is below 1024 to the
-- seventh power, so seven rounds are enough.
unfoldable pub scale : ℕ → ℕ → ℕ → ℕ → ℕ × ℕ
scale zero n divisor exp = (divisor, exp)
scale (suc fuel) n divisor exp =
    let rest = scale fuel (n / 1024) (divisor * 1024) (exp + 1) in
    if leb 1024 n then rest else (divisor, exp)

quotient_bound : (n m bound : ℕ) → bound ≡ 1024 * m → n < bound → n / 1024 < m
quotient_bound n m bound product small = omega arith

-- Below 1024 to the power `fuel + 1`, further fuel makes no difference.
scale_enough :
    (fuel n divisor exp : ℕ)
    → n < 1024 ^ suc fuel
    → scale (suc fuel) n divisor exp ≡ scale fuel n divisor exp
unfolding scale
scale_enough zero n divisor exp small = ground arith
scale_enough (suc fuel) n divisor exp small = ground (
  arith,
  scale_enough fuel (n / 1024) (divisor * 1024) (exp + 1) (
      quotient_bound n (1024 ^ suc fuel) (1024 ^ suc (suc fuel)) (pow-succ' 1024 (suc fuel)) small),
)

module _ (reals : Reals) where
  open reals use {Float, of_int, decimal, add, sub, mul, div, gt, le, one_digit}

  unfoldable pub get_compression_stats : List ℕ → List ℕ → String → CompressionStats Float
  get_compression_stats original compressed kind = record {
    original_size = length original;
    compressed_size = length compressed;
    compression_ratio =
        if ltb 0 (length original)
        then div (of_int (pos (length compressed))) (of_int (pos (length original)))
        else of_int (pos 0);
    kind = kind;
  }

  -- An approximation of the natural logarithm by four terms of a series.
  unfoldable pub log_natural : Float → Float
  log_natural x =
      let one = of_int (pos 1) in
      let y = div (sub x one) (add x one) in
      let y2 = mul y y in
      if le x (of_int (pos 0))
      then of_int (pos 0)
      else mul (mul (of_int (pos 2)) y) (
          add (add (add one (div y2 (of_int (pos 3)))) (div (mul y2 y2) (of_int (pos 5))))
            (div (mul (mul y2 y2) y2) (of_int (pos 7))))

  -- As the source has it: the product with the logarithm of 2, not the quotient.
  unfoldable pub log2 : Float → Float
  unfolding log_natural
  log2 x = mul (decimal "0.6931471805599453") (log_natural x)

  unfoldable pub entropy_of : Float → List ℕ → Float → Float
  unfolding log2
  entropy_of size [] sum = sum
  entropy_of size (c ∷ cs) sum =
      let p = div (of_int (pos c)) size in entropy_of size cs (sub sum (mul p (log2 p)))

  unfoldable pub calculate_entropy : List ℕ → Float
  unfolding entropy_of
  calculate_entropy [] = of_int (pos 0)
  calculate_entropy (b ∷ bs) =
      entropy_of (of_int (pos (length (b ∷ bs)))) (counts_below 256 (b ∷ bs)) (of_int (pos 0))

  -- The first bytes of GZIP, PNG, JPEG and ZIP data, or a high entropy of the first kilobyte.
  unfoldable pub is_likely_compressed : List ℕ → Bool
  unfolding starts calculate_entropy
  is_likely_compressed data_bytes =
      if ltb (length data_bytes) 10
      then false
      else if starts (31 ∷ 139 ∷ []) data_bytes
      then true
      else if starts (137 ∷ 80 ∷ 78 ∷ 71 ∷ 13 ∷ 10 ∷ 26 ∷ 10 ∷ []) data_bytes
      then true
      else if starts (255 ∷ 216 ∷ []) data_bytes
      then true
      else if starts (80 ∷ 75 ∷ 3 ∷ 4 ∷ []) data_bytes
      then true
      else gt (calculate_entropy (take (min (length data_bytes) 1024) data_bytes)) (decimal "7.0")

  -- `ShouldCompress`, which nothing in the service calls.
  unfoldable pub worth_compressing : List ℕ → String → ℤ → Bool
  unfolding is_likely_compressed
  worth_compressing data_bytes kind min_size =
      if kind == "none" || kind == ""
      then false
      else if ltb_ℤ (pos (length data_bytes)) min_size
      then false
      else if is_likely_compressed data_bytes
      then false
      else true

  abbrev pub unit_name : ℕ → String
  unit_name exp = get_or ("K" ∷ "M" ∷ "G" ∷ "T" ∷ "P" ∷ "E" ∷ []) exp ""

  unfoldable pub format_bytes : (ℤ → String) → ℤ → String
  unfolding scale
  format_bytes format_int (negsuc n) = format_int (negsuc n) ++ " B"
  format_bytes format_int (pos n) =
      let r = scale 7 (n / 1024) 1024 0 in
      if ltb n 1024
      then format_int (pos n) ++ " B"
      else one_digit (div (of_int (pos n)) (of_int (pos r.0))) ++ " " ++ unit_name r.1 ++ "B"
