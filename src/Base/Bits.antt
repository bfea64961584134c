-- ===== src/Base/Bits.antt =====
-- `bit_xor` one binary digit at a time, without the fuel of its definition.
use Prim.Native.Nat.{differ, digits, bit_xor, bit_xor-bitwise}
use Prim.Native.Nat.{ℕ, zero, suc, ◌+◌, ◌*◌, ◌/◌, ◌%◌, ◌≤◌}
use mathlib.Core.Path.{◌≡◌, refl}
use native.Mathlib.Nat.{le_refl}
use native.Mathlib.Omega.{arith}

xor_digits : ℕ → ℕ → ℕ → ℕ
xor_digits fuel a b = digits (λ b. b) differ fuel a b

xor_digits_fuel : (n m a b : ℕ) → a ≤ n → a ≤ m → xor_digits n a b ≡ xor_digits m a b
unfolding xor_digits
xor_digits_fuel zero zero a b p q = refl
xor_digits_fuel zero (suc m) zero b p q = refl
xor_digits_fuel zero (suc m) (suc a) b p q = absurd (omega arith)
xor_digits_fuel (suc n) zero zero b p q = refl
xor_digits_fuel (suc n) zero (suc a) b p q = absurd (omega arith)
xor_digits_fuel (suc n) (suc m) zero b p q = refl
xor_digits_fuel (suc n) (suc m) (suc a) b p q =
    omega (arith, xor_digits_fuel n m (suc a / 2) (b / 2) (omega arith) (omega arith))

pub bit_xor_step : (a b : ℕ) → bit_xor a b ≡ bit_xor (a / 2) (b / 2) * 2 + differ (a % 2) (b % 2)
unfolding xor_digits
bit_xor_step zero b = omega (arith, bit_xor-bitwise 0 b, bit_xor-bitwise 0 (b / 2))
bit_xor_step (suc a) b = omega (
  arith,
  bit_xor-bitwise (suc a) b,
  bit_xor-bitwise (suc a / 2) (b / 2),
  xor_digits_fuel a (suc a / 2) (suc a / 2) (b / 2) (omega arith) (le_refl _),
)

pub differ-zero : (a : ℕ) → differ a 0 ≡ a
differ-zero zero = refl
differ-zero (suc a) = refl

bit_xor-zero_fuel : (n a : ℕ) → a ≤ n → bit_xor a 0 ≡ a
bit_xor-zero_fuel n zero h = refl
bit_xor-zero_fuel zero (suc a) h = absurd (omega arith)
bit_xor-zero_fuel (suc n) (suc a) h = omega (
  arith,
  bit_xor_step (suc a) 0,
  bit_xor-zero_fuel n (suc a / 2) (omega arith),
  differ-zero (suc a % 2),
)

pub bit_xor-zero : (a : ℕ) → bit_xor a 0 ≡ a
bit_xor-zero a = bit_xor-zero_fuel a a (le_refl a)

-- Doubling both sides, and clearing the lowest digit.
pub bit_xor_double : (a b : ℕ) → bit_xor (a * 2) (b * 2) ≡ bit_xor a b * 2
bit_xor_double a b = omega (arith, bit_xor_step (a * 2) (b * 2), halves)
  where
    halves : bit_xor (a * 2 / 2) (b * 2 / 2) * 2 + differ (a * 2 % 2) (b * 2 % 2) ≡ bit_xor a b * 2
    halves =
        let p : a * 2 / 2 ≡ a = omega arith in
        let q : b * 2 / 2 ≡ b = omega arith in
        let r : a * 2 % 2 ≡ 0 = omega arith in
        let t : b * 2 % 2 ≡ 0 = omega arith in rw (p, q, r, t) (omega arith)

pub bit_xor_odd : (a : ℕ) → bit_xor (a * 2 + 1) 1 ≡ a * 2
bit_xor_odd a = omega (arith, bit_xor_step (a * 2 + 1) 1, halves)
  where
    halves : bit_xor ((a * 2 + 1) / 2) (1 / 2) * 2 + differ ((a * 2 + 1) % 2) (1 % 2) ≡ a * 2
    halves =
        let p : (a * 2 + 1) / 2 ≡ a = omega arith in
        let r : (a * 2 + 1) % 2 ≡ 1 = omega arith in rw (p, r) (omega (arith, bit_xor-zero a))
