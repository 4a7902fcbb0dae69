-- ===== src/Base/Int.antt =====
-- Signed integers over the native numbers, and the range of a `long long`.
use Prim.Native.Nat.{ℕ, ◌^◌, ◌-◌, ◌≤◌}
use mathlib.Core.Bool.{Bool, true, false}
use qbm_redis.Base.Tests.{ltb, ◌==◌}

-- `negsuc n` is -(n + 1).
pub data ℤ : Type 0 where
  pos : ℕ → ℤ
  negsuc : ℕ → ℤ

-- `std::numeric_limits<long long>::max()`; the least value is `negsuc max_int64`.
abbrev pub max_int64 : ℕ
max_int64 = 2 ^ 63 - 1

abbrev pub InInt64 : ℤ → Type 0
InInt64 (pos n) = n ≤ max_int64
InInt64 (negsuc n) = n ≤ max_int64

-- `<` and `==` of two signed integers.
unfoldable pub ltb_ℤ : ℤ → ℤ → Bool
ltb_ℤ (pos a) (pos b) = ltb a b
ltb_ℤ (pos a) (negsuc b) = false
ltb_ℤ (negsuc a) (pos b) = true
ltb_ℤ (negsuc a) (negsuc b) = ltb b a

unfoldable pub eqb_ℤ : ℤ → ℤ → Bool
eqb_ℤ (pos a) (pos b) = a == b
eqb_ℤ (pos a) (negsuc b) = false
eqb_ℤ (negsuc a) (pos b) = false
eqb_ℤ (negsuc a) (negsuc b) = a == b
