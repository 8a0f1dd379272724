-- ===== src/Base/Int.antt =====
-- Signed integers over the native numbers, as far as the program compares them (its int32 values).
use leilfs_operator.Base.Tests.{ltb, ◌==◌}
use Prim.Native.Nat.{ℕ, suc, ◌≤◌, ◌+◌}
use mathlib.Core.Bool.{Bool, false}

-- `negsuc n` is -(n + 1).
pub data ℤ : Type 0 where
  pos : ℕ → ℤ
  negsuc : ℕ → ℤ

abbrev pub pos_part : ℤ → ℕ
pos_part (pos n) = n
pos_part (negsuc n) = 0

abbrev pub neg_part : ℤ → ℕ
neg_part (pos n) = 0
neg_part (negsuc n) = suc n

infix 50 ◌≤ℤ◌
abbrev pub ◌≤ℤ◌ : ℤ → ℤ → Type 0
a ≤ℤ b = pos_part a + neg_part b ≤ pos_part b + neg_part a

abbrev pub ltb_ℤ : ℤ → ℤ → Bool
ltb_ℤ a b = ltb (pos_part a + neg_part b) (pos_part b + neg_part a)

abbrev pub is_zero_ℤ : ℤ → Bool
is_zero_ℤ (pos n) = n == 0
is_zero_ℤ (negsuc n) = false
