-- ===== src/Common/Integers.antt =====
-- Integers over the native numbers.
use Prim.Native.Nat.{ℕ}
use private_onyx_app.Common.Tests.{ltb, if◌then◌else◌}

-- `negsuc n` is the integer -(n + 1).
pub data ℤ : Type 0 where
  pos negsuc : ℕ → ℤ

-- max(low, min(high, i)), for bounds that are not negative
unfoldable pub clamp : ℕ → ℕ → ℤ → ℕ
clamp low high (negsuc n) = low
clamp low high (pos n) = if ltb n low then low else if ltb high n then high else n
