-- ===== src/Base/Int.antt =====
-- Python's `int`, under the library's names, with the orders that the program uses.
use Prim.Native.Nat.{ℕ, suc, ◌+◌, ◌-◌}
use mathlib.Core.Bool.{Bool, true, false}
use beiran.Base.Tests.{ltb, leb, ◌==◌}

-- `negsuc n` is -(n + 1).
pub data ℤ : Type 0 where
  pos : ℕ → ℤ
  negsuc : ℕ → ℤ

-- `-n`
unfoldable pub negate : ℕ → ℤ
negate Prim.Native.Nat.zero = pos 0
negate (suc n) = negsuc n

-- `a <= b`
unfoldable pub leb_ℤ : ℤ → ℤ → Bool
leb_ℤ (pos m) (pos n) = leb m n
leb_ℤ (pos m) (negsuc n) = false
leb_ℤ (negsuc m) (pos n) = true
leb_ℤ (negsuc m) (negsuc n) = leb n m

-- `a == n`, for a natural number `n`
unfoldable pub eqb_ℤ : ℤ → ℕ → Bool
eqb_ℤ (pos m) n = m == n
eqb_ℤ (negsuc m) n = false

-- `n < a`, for a natural number `n`
unfoldable pub above_ℤ : ℤ → ℕ → Bool
above_ℤ (pos m) n = ltb n m
above_ℤ (negsuc m) n = false

-- `n - a`, for a natural number `n` that is not below `a`
unfoldable pub offset_ℤ : ℤ → ℕ → ℕ
offset_ℤ (pos m) n = n - m
offset_ℤ (negsuc m) n = n + suc m
