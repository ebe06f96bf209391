-- ===== src/Prelude/Int.antt =====
-- Go's `int`: 64 bits, two's complement, as signed numbers whose sums wrap around.
use Prim.Native.Nat.{ℕ, suc, ◌+◌, ◌-◌, ◌%◌, ◌^◌, ◌≤◌}
use mathlib.Core.Path.{◌≡◌, refl}
use mathlib.Core.Bool.{Bool}
use native.Mathlib.Omega.{arith}
use majordomo_steward.Prelude.Tests.{ltb, leb, if◌then◌else◌}

-- `negsuc n` is -(n + 1).
pub data ℤ : Type 0 where
  pos : ℕ → ℤ
  negsuc : ℕ → ℤ

abbrev pub pos_part : ℤ → ℕ
pos_part (pos n) = n
pos_part (negsuc n) = 0

abbrev pub neg_part : ℤ → ℕ
neg_part (pos n) = 0
neg_part (negsuc n) = suc n

-- a - b, as an integer.
abbrev pub sub_ℕ : ℕ → ℕ → ℤ
sub_ℕ a b = if leb b a then pos (a - b) else negsuc (b - a - 1)

abbrev pub int_mod : ℕ
int_mod = 2 ^ 64

abbrev pub int_max : ℕ
int_max = 2 ^ 63 - 1

-- The `int` whose bit pattern is `n % 2 ^ 64`.
abbrev pub of_bits : ℕ → ℤ
of_bits n = let r = n % int_mod in if leb r int_max then pos r else negsuc (int_mod - 1 - r)

-- The bit pattern of an `int`, a number below 2 ^ 64.
abbrev pub to_bits : ℤ → ℕ
to_bits (pos n) = n % int_mod
to_bits (negsuc n) = int_mod - 1 - n % int_mod

infixl 65 ◌+ℤ◌ ◌-ℤ◌
-- `a + b` and `a - b` of the source.
unfoldable pub ◌+ℤ◌ : ℤ → ℤ → ℤ
a +ℤ b = of_bits (to_bits a + to_bits b)

unfoldable pub ◌-ℤ◌ : ℤ → ℤ → ℤ
a -ℤ b = of_bits (to_bits a + (int_mod - to_bits b))

-- `a < b`, `a <= b`
abbrev pub ltb_ℤ : ℤ → ℤ → Bool
ltb_ℤ a b = ltb (pos_part a + neg_part b) (pos_part b + neg_part a)

-- Sums and differences of counts that stay in range do not wrap.
pub +ℤ_pos : (a b : ℕ) → a + b ≤ int_max → pos a +ℤ pos b ≡ pos (a + b)
unfolding ◌+ℤ◌
+ℤ_pos a b h = ground arith

pub -ℤ_pos : (a b : ℕ) → b ≤ a → a ≤ int_max → pos a -ℤ pos b ≡ pos (a - b)
unfolding ◌-ℤ◌
-ℤ_pos a b h k = ground arith

-- The wrap-around beyond the largest value.
+ℤ_wraps : pos int_max +ℤ pos 1 ≡ negsuc int_max
unfolding ◌+ℤ◌
+ℤ_wraps = refl
