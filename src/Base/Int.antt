-- ===== src/Base/Int.antt =====
-- Go's int64: signed integers with wrap-around, over the native numbers.
use Prim.Native.Nat.{ℕ, ◌≤◌, zero, suc, ◌+◌, ◌-◌, ◌/◌, ◌%◌, ◌<◌}
use mathlib.Core.Path.{◌≡◌}
use mathlib.Core.Bool.{Bool}
use native.Mathlib.Omega.{arith}
use frag_kv.Base.Tests.{ltb, leb, if◌then◌else◌}

-- `negsuc n` is -(n + 1).
pub data ℤ : Type 0 where
  pos : ℕ → ℤ
  negsuc : ℕ → ℤ

abbrev pub pos_part : ℤ → ℕ
pos_part (pos n) = n
pos_part (negsuc n) = 0

abbrev pub neg_part : ℤ → ℕ
neg_part (pos n) = 0
neg_part (negsuc n) = suc n

-- a - b, as an integer.
abbrev pub sub_ℕ : ℕ → ℕ → ℤ
sub_ℕ a b = if leb b a then pos (a - b) else negsuc (b - a - 1)

abbrev half_range : ℕ
half_range = 9223372036854775808

abbrev full_range : ℕ
full_range = 18446744073709551616

-- The value of the low 64 bits.
unfoldable pub wrap64 : ℤ → ℤ
wrap64 (pos n) =
    let low = n % full_range in
    if ltb low half_range then pos low else negsuc (full_range - 1 - low)
wrap64 (negsuc n) =
    let low = n % full_range in
    if ltb low half_range then negsuc low else pos (full_range - 1 - low)

infixl 65 ◌+ℤ◌ ◌-ℤ◌
-- a + b and a - b on int64.
unfoldable pub ◌+ℤ◌ : ℤ → ℤ → ℤ
unfolding wrap64
a +ℤ b = wrap64 (sub_ℕ (pos_part a + pos_part b) (neg_part a + neg_part b))

unfoldable pub ◌-ℤ◌ : ℤ → ℤ → ℤ
unfolding wrap64
a -ℤ b = wrap64 (sub_ℕ (pos_part a + neg_part b) (neg_part a + pos_part b))

abbrev negate : ℕ → ℤ
negate zero = pos zero
negate (suc n) = negsuc n

-- a / b and a % b for a divisor b > 0: truncated towards zero, the remainder with the sign of a.
unfoldable pub div_pos : ℤ → ℕ → ℤ
div_pos (pos n) b = pos (n / b)
div_pos (negsuc n) b = negate (suc n / b)

unfoldable pub mod_pos : ℤ → ℕ → ℤ
mod_pos (pos n) b = pos (n % b)
mod_pos (negsuc n) b = negate (suc n % b)

abbrev pub ltb_ℤ : ℤ → ℤ → Bool
ltb_ℤ a b = ltb (pos_part a + neg_part b) (pos_part b + neg_part a)

-- A value of type int64.
abbrev pub IsInt64 : ℤ → Type 0
IsInt64 (pos n) = n < half_range
IsInt64 (negsuc n) = n < half_range

pub wrap64-IsInt64 : (a : ℤ) → IsInt64 (wrap64 a)
unfolding wrap64
wrap64-IsInt64 (pos n) = ground arith
wrap64-IsInt64 (negsuc n) = ground arith

pub wrap64_id : (a : ℤ) → IsInt64 a → wrap64 a ≡ a
unfolding wrap64
wrap64_id (pos n) h = ground arith
wrap64_id (negsuc n) h = ground arith

-- The largest int64.
abbrev pub max_int64 : ℕ
max_int64 = 9223372036854775807

-- Sums and differences of lengths do not wrap.
pub +ℤ-pos : (a b : ℕ) → a + b ≤ max_int64 → pos a +ℤ pos b ≡ pos (a + b)
unfolding ◌+ℤ◌
+ℤ-pos a b h = ground arith

pub -ℤ-pos : (a b : ℕ) → b ≤ a → a ≤ max_int64 → pos a -ℤ pos b ≡ pos (a - b)
unfolding ◌-ℤ◌
-ℤ-pos a b h k = ground arith
