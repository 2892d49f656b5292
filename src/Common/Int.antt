-- ===== src/Common/Int.antt =====
-- Go's signed `int`, where an offset may be negative: only what the code asks of it, over the native
-- numbers.
use Prim.Native.Nat.{ℕ, suc, ◌+◌, ◌-◌}
use mathlib.Core.Bool.{Bool}
use alfa_hakaton.Common.Bools.{ltb, leb, if◌then◌else◌}

-- `negsuc n` is -(n + 1).
pub data ℤ : Type 0 where
  pos : ℕ → ℤ
  negsuc : ℕ → ℤ

abbrev pub pos_part : ℤ → ℕ
pos_part (pos n) = n
pos_part (negsuc n) = 0

abbrev pub neg_part : ℤ → ℕ
neg_part (pos n) = 0
neg_part (negsuc n) = suc n

abbrev pub ltb_ℤ : ℤ → ℤ → Bool
ltb_ℤ a b = ltb (pos_part a + neg_part b) (pos_part b + neg_part a)

infixl 65 ◌+ℤ◌
-- a + n, for a natural n.
abbrev pub ◌+ℤ◌ : ℤ → ℕ → ℤ
pos a +ℤ n = pos (a + n)
negsuc a +ℤ n = if leb (suc a) n then pos (n - suc a) else negsuc (a - n)
