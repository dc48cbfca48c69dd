-- ===== src/Base/Words.antt =====
-- Go's `int`, `int64` and `int32`: an integer is taken modulo a power of two into the signed range.
use Prim.Native.Nat.{ℕ, ◌-◌, ◌%◌, ◌^◌}
use mathlib.Core.Path.{◌≡◌}
use native.Mathlib.Omega.{arith}
use pub_sub_go.Base.Tests.{ltb, if◌then◌else◌}
use pub_sub_go.Base.Int.{ℤ, pos, negsuc, ◌+ℤ◌, ◌≤ℤ◌}

-- The bit pattern of an integer in 64 bits, and the number that a pattern stands for.
abbrev pub bits64 : ℤ → ℕ
bits64 (pos n) = n % 2 ^ 64
bits64 (negsuc n) = 2 ^ 64 - 1 - n % 2 ^ 64

abbrev pub signed64 : ℕ → ℤ
signed64 w = if ltb w (2 ^ 63) then pos w else negsuc (2 ^ 64 - 1 - w)

abbrev pub bits32 : ℤ → ℕ
bits32 (pos n) = n % 2 ^ 32
bits32 (negsuc n) = 2 ^ 32 - 1 - n % 2 ^ 32

abbrev pub signed32 : ℕ → ℤ
signed32 w = if ltb w (2 ^ 31) then pos w else negsuc (2 ^ 32 - 1 - w)

-- The conversions `int64(z)` and `int32(z)`, which every machine operation ends in.
unfoldable pub int64 : ℤ → ℤ
int64 z = signed64 (bits64 z)

unfoldable pub int32 : ℤ → ℤ
int32 z = signed32 (bits32 z)

abbrev pub max_int64 : ℤ
max_int64 = pos (2 ^ 63 - 1)

abbrev pub min_int64 : ℤ
min_int64 = negsuc (2 ^ 63 - 1)

abbrev pub InInt64 : ℤ → Type 0
InInt64 z = (min_int64 ≤ℤ z) × (z ≤ℤ max_int64)

-- `x++`
abbrev pub inc64 : ℤ → ℤ
inc64 z = int64 (z +ℤ pos 1)

-- `a + b` on `int64`
abbrev pub add64 : ℤ → ℤ → ℤ
add64 a b = int64 (a +ℤ b)

-- A number in range is left alone, and every result is in range.
pub int64-eq : (z : ℤ) → InInt64 z → int64 z ≡ z
unfolding int64
int64-eq z h = ground arith

pub int64-InInt64 : (z : ℤ) → InInt64 (int64 z)
unfolding int64
int64-InInt64 z = ground arith
