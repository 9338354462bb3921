-- ===== src/Base/Word.antt =====
-- The Go type int32: a conversion keeps the low 32 bits and reads them as two's complement.
use Prim.Native.Nat.{ℕ, ◌-◌, ◌%◌, ◌<◌}
use mathlib.Core.Path.{◌≡◌}
use native.Mathlib.Omega.{arith}
use di_orchestrator.Base.Tests.{ltb, if◌then◌else◌}
use di_orchestrator.Base.Int.{ℤ, pos, negsuc, ◌≤ℤ◌}

abbrev low_bits : ℤ → ℕ
low_bits (pos n) = n % 4294967296
low_bits (negsuc n) = 4294967295 - n % 4294967296

abbrev of_bits : ℕ → ℤ
of_bits m = if ltb m 2147483648 then pos m else negsuc (4294967295 - m)

-- `int32(z)`
unfoldable pub int32 : ℤ → ℤ
int32 z = of_bits (low_bits z)

pub int32-pos : (n : ℕ) → n < 2147483648 → int32 (pos n) ≡ pos n
unfolding int32
int32-pos n h = ground arith

-- A converted value lies in the range of the type.
pub int32_range : (z : ℤ) → (negsuc 2147483647 ≤ℤ int32 z) × (int32 z ≤ℤ pos 2147483647)
unfolding int32
int32_range z = ground arith
