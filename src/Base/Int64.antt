-- ===== src/Base/Int64.antt =====
-- Go's `int64`: integers wrapped into [-2^63, 2^63) after each operation, and the remainder that
-- takes the sign of the dividend.
use Prim.Native.Nat.{suc, ◌+◌, ◌-◌, ◌%◌, ◌^◌, ◌≤◌, ◌<◌}
use mathlib.Core.Path.{◌≡◌}
use native.Mathlib.Omega.{arith}
use storage_fsm.Base.Tests.{ltb, if◌then◌else◌}
use storage_fsm.Base.Int.{ℤ, pos, negsuc, pos_part, neg_part, ◌+ℤ◌, ◌-ℤ◌}

abbrev pub IsInt64 : ℤ → Type 0
IsInt64 z = (pos_part z < 2 ^ 63) × (neg_part z ≤ 2 ^ 63)

unfoldable pub wrap64 : ℤ → ℤ
wrap64 (pos n) = let r = n % 2 ^ 64 in if ltb r (2 ^ 63) then pos r else negsuc (2 ^ 64 - r - 1)
wrap64 (negsuc n) = let r = n % 2 ^ 64 in if ltb r (2 ^ 63) then negsuc r else pos (2 ^ 64 - 1 - r)

unfoldable pub add64 : ℤ → ℤ → ℤ
add64 a b = wrap64 (a +ℤ b)

unfoldable pub sub64 : ℤ → ℤ → ℤ
sub64 a b = wrap64 (a -ℤ b)

-- `a % m`: the sign is that of `a`. Go panics at `m == 0`; the period is positive wherever it is
-- used.
unfoldable pub rem64 : ℤ → ℤ → ℤ
rem64 (pos n) m = pos (n % (pos_part m + neg_part m))
rem64 (negsuc n) m =
    let r = suc n % (pos_part m + neg_part m) in if ltb 0 r then negsuc (r - 1) else pos 0

pub wrap64-IsInt64 : (z : ℤ) → IsInt64 (wrap64 z)
unfolding wrap64
wrap64-IsInt64 (pos n) = ground arith
wrap64-IsInt64 (negsuc n) = ground arith

-- An integer in range is left alone.
pub wrap64_of_IsInt64 : (z : ℤ) → IsInt64 z → wrap64 z ≡ z
unfolding wrap64
wrap64_of_IsInt64 (pos n) h = ground arith
wrap64_of_IsInt64 (negsuc n) h = ground arith
