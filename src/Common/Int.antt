-- ===== src/Common/Int.antt =====
-- Integers over the native numbers: `negsuc n` is -(n + 1).
use Prim.Native.Nat.{ℕ, zero, suc, ◌-◌}
use mathlib.Core.Bool.{Bool, true, false}
use demo_hybrid_microservice.Common.Tests.{leb, if◌then◌else◌}

pub data ℤ : Type 0 where
  pos : ℕ → ℤ
  negsuc : ℕ → ℤ

-- a - b, as an integer.
abbrev pub sub_ℕ : ℕ → ℕ → ℤ
sub_ℕ a b = if leb b a then pos (a - b) else negsuc (b - a - 1)

abbrev pub increment_ℤ : ℤ → ℤ
increment_ℤ (pos n) = pos (suc n)
increment_ℤ (negsuc zero) = pos 0
increment_ℤ (negsuc (suc n)) = negsuc n

abbrev pub decrement_ℤ : ℤ → ℤ
decrement_ℤ (pos zero) = negsuc 0
decrement_ℤ (pos (suc n)) = pos n
decrement_ℤ (negsuc n) = negsuc (suc n)

abbrev pub is_zero_ℤ : ℤ → Bool
is_zero_ℤ (pos zero) = true
is_zero_ℤ (pos (suc n)) = false
is_zero_ℤ (negsuc n) = false
