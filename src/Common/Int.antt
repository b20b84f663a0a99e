-- ===== src/Common/Int.antt =====
-- Integers over the native numbers, and those that a pattern of 32 bits stands for.
use Prim.Native.Nat.{ℕ, ◌-◌, ◌^◌}
use open_anti_cheat.Common.Tests.{ltb, if◌then◌else◌}

-- `negsuc n` is -(n + 1).
pub data ℤ : Type 0 where
  pos : ℕ → ℤ
  negsuc : ℕ → ℤ

-- The value of an int32.
abbrev pub int32_value : ℕ → ℤ
int32_value v = if ltb v (2 ^ 31) then pos v else negsuc (2 ^ 32 - v - 1)
