-- ===== src/Policy/Rounding.antt =====
-- Rounding an end up to the boundary of a proving period.
use storage_fsm.Base.{ℕ, ◌+◌, ◌-◌, ◌%◌, ◌^◌, ◌≤◌, ◌<◌, ◌≡◌, arith}
use native.Mathlib.Nat.{mod-lt}
use storage_fsm.Base.Int.{pos, ◌+ℤ◌, ◌-ℤ◌}
use storage_fsm.Base.Int64.{add64, sub64, rem64, wrap64}
use storage_fsm.Policy.Expiration.{round_up}

pub add64_pos : (a b : ℕ) → a + b < 2 ^ 63 → add64 (pos a) (pos b) ≡ pos (a + b)
unfolding add64 wrap64 ◌+ℤ◌
add64_pos a b h = ground arith

sub64_pos : (a b : ℕ) → b ≤ a → a < 2 ^ 63 → sub64 (pos a) (pos b) ≡ pos (a - b)
unfolding sub64 wrap64 ◌-ℤ◌
sub64_pos a b le h = ground arith

rem64_pos : (a b : ℕ) → rem64 (pos a) (pos b) ≡ pos (a % b)
unfolding rem64
rem64_pos a b = ground arith

-- Where nothing overflows the result is the sum that the source writes.
pub round_up_pos :
    (period boundary n : ℕ)
    → 0 < period
    → n + period + boundary < 2 ^ 63
    → round_up (pos period) (pos boundary) (pos n) ≡ pos (n + (period - n % period + boundary - 1))
unfolding round_up
round_up_pos period boundary n h lt =
    let below : n % period < period = mod-lt n h in
    rw (rem64_pos n period) (
      rw (sub64_pos period (n % period) (omega arith) (omega arith)) (
        rw (add64_pos (period - n % period) boundary (omega arith)) (
          rw (sub64_pos (period - n % period + boundary) 1 (omega arith) (omega arith))
            (add64_pos n (period - n % period + boundary - 1) (omega arith)))))
