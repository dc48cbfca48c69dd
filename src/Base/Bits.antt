-- ===== src/Base/Bits.antt =====
-- `x & (2 ^ k - 1)` is the remainder by `2 ^ k`, at every width.
use Prim.Native.Nat.{
  ℕ, zero, suc, ◌+◌, ◌-◌, ◌*◌, ◌/◌, ◌%◌, ◌^◌, ◌≤◌, ◌<◌, min, bit_and, digits, bit_and-bitwise,
}
use mathlib.Core.Path.{◌≡◌, ◌∙◌, ap}
use native.Mathlib.Nat.{pow-suc, one-le-pow}
use native.Mathlib.Omega.{arith}

-- The digits that two numbers share, at most `steps` of them.
abbrev common : (steps x mask : ℕ) → ℕ
common steps x mask = digits (λ rest. zero) min steps x mask

-- With k ones for a mask, the part of a number below `2 ^ k` is what is left of it.
common-low :
    (steps x k high low : ℕ)
    → x ≤ steps
    → x ≡ high * 2 ^ k + low
    → low < 2 ^ k
    → common steps x (2 ^ k - 1) ≡ low
common-low zero zero k high low enough e fits = omega (arith, e)
common-low zero (suc x) k high low enough e fits = absurd (omega (arith, enough))
common-low (suc steps) zero k high low enough e fits = omega (arith, e)
common-low (suc steps) (suc x) zero high low enough e fits =
    let halved =
      common-low steps (suc x / 2) zero (suc x / 2) 0 (omega (arith, enough)) (omega arith)
        (omega arith) in
    omega (arith, halved, fits)
common-low (suc steps) (suc x) (suc k) high low enough e fits =
    let double : high * 2 ^ suc k ≡ 2 * (high * 2 ^ k) =
      ap (λ w. high * w) (pow-suc 2 k) ∙ omega arith in
    let halved =
      common-low steps (suc x / 2) k high (low / 2) (omega (arith, enough))
        (omega (arith, e, double)) (omega (arith, fits, pow-suc 2 k)) in
    ground (arith, halved, double, e, fits, pow-suc 2 k, one-le-pow k 2)

pub bit_and_mask : (k x : ℕ) → bit_and x (2 ^ k - 1) ≡ x % 2 ^ k
bit_and_mask k x =
    bit_and-bitwise x (2 ^ k - 1)
    ∙ common-low x x k (x / 2 ^ k) (x % 2 ^ k) (omega arith) (ground (arith, one-le-pow k 2))
        (ground (arith, one-le-pow k 2))
