-- ===== src/Base/Int.antt =====
-- Integers over the native numbers, for the `int` results of the code.
use Prim.Native.Nat.{ℕ, ◌-◌, ◌^◌}
use tyto_h.Base.Tests.{leb, if◌then◌else◌}

-- A number that is not negative, or the number below zero by one more than the field says.
pub data ℤ : Type 0 where
  pos negsuc : ℕ → ℤ

-- The `int` of a 32-bit pattern: the top bit counts negatively.
abbrev pub signed32 : ℕ → ℤ
signed32 pattern = if leb (2 ^ 31) pattern then negsuc (2 ^ 32 - 1 - pattern) else pos pattern
