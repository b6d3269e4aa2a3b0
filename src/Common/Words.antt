-- ===== src/Common/Words.antt =====
-- Machine integers. A `size_t` is a number below 2 ^ 64. An `int32_t` is its bit pattern, a number
-- below 2 ^ 32; -1 is the pattern with all bits set.
use Prim.Native.Nat.{ℕ, ◌+◌, ◌-◌, ◌%◌, ◌^◌}
use mathlib.Core.Bool.{Bool}
use bicycletub.Common.Tests.{ltb, leb}

abbrev pub word64 : ℕ
word64 = 2 ^ 64

abbrev pub add64 : ℕ → ℕ → ℕ
add64 a b = (a + b) % word64

abbrev pub sub64 : ℕ → ℕ → ℕ
sub64 a b = (a + word64 - b) % word64

abbrev pub word32 : ℕ
word32 = 2 ^ 32

abbrev pub half32 : ℕ
half32 = 2 ^ 31

-- The pattern of -1.
abbrev pub minus_one : ℕ
minus_one = 0xffff_ffff

abbrev pub is_negative : ℕ → Bool
is_negative a = leb half32 a

-- `a < b` on `int32_t`: shifted by 2 ^ 31, the signed order is that of the numbers.
abbrev pub signed_lt : ℕ → ℕ → Bool
signed_lt a b = ltb ((a + half32) % word32) ((b + half32) % word32)
