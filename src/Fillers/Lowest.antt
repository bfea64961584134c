-- ===== src/Fillers/Lowest.antt =====
-- One round of the loop: the lowest set bit goes.
use Prim.Native.Nat.{bit_xor}
use native.Mathlib.Nat.{pow-suc}
use storage_fsm.Base.{
  ℕ, zero, suc, ◌+◌, ◌*◌, ◌/◌, ◌%◌, ◌^◌, ◌<◌, ◌≡◌, refl, sym, subst, ap, ◌∙◌, arith,
}
use storage_fsm.Base.{◌⊎◌, inl, inr}
use storage_fsm.Base.Bits.{bit_xor_double, bit_xor_odd}
use storage_fsm.Fillers.Loop.{ones_from, zeros_from}

parity : (x : ℕ) → ((x ≡ x / 2 * 2) × (x % 2 ≡ 0)) ⊎ ((x ≡ x / 2 * 2 + 1) × (x % 2 ≡ 1))
parity x = omega arith

-- What a round takes off, and that one set bit fewer is left.
pub record Drops (bits x : ℕ) : Type 0 where
  pub left : bit_xor x (2 ^ zeros_from bits x) + 2 ^ zeros_from bits x ≡ x
  pub fewer : ones_from bits (bit_xor x (2 ^ zeros_from bits x)) + 1 ≡ ones_from bits x

even_step : (bits y : ℕ) → zeros_from (suc bits) (y * 2) ≡ suc (zeros_from bits y)
unfolding zeros_from
even_step bits y =
    let e : y * 2 % 2 ≡ 0 = omega arith in
    let h : y * 2 / 2 ≡ y = omega arith in rw (e, zeros_from) (rw h)

odd_step : (bits y : ℕ) → zeros_from (suc bits) (y * 2 + 1) ≡ 0
unfolding zeros_from
odd_step bits y = let e : (y * 2 + 1) % 2 ≡ 1 = omega arith in rw (e, zeros_from)

ones_even : (bits y : ℕ) → ones_from (suc bits) (y * 2) ≡ ones_from bits y
unfolding ones_from
ones_even bits y = let h : y * 2 / 2 ≡ y = omega arith in rw h (omega arith)

ones_odd : (bits y : ℕ) → ones_from (suc bits) (y * 2 + 1) ≡ suc (ones_from bits y)
unfolding ones_from
ones_odd bits y = let h : (y * 2 + 1) / 2 ≡ y = omega arith in rw h (omega arith)

double_pow : (k : ℕ) → 2 ^ suc k ≡ 2 ^ k * 2
double_pow k = omega (arith, pow-suc 2 k)

Drops-even : (bits y : ℕ) → Drops bits y → Drops (suc bits) (y * 2)
Drops-even bits y d = record {
  left = rw (even_step bits y) (
      rw (double_pow (zeros_from bits y))
        (rw (bit_xor_double y (2 ^ zeros_from bits y)) (omega (arith, d.left))));
  fewer = rw (even_step bits y) (
      rw (double_pow (zeros_from bits y)) (
        rw (bit_xor_double y (2 ^ zeros_from bits y))
          (rw (ones_even bits (bit_xor y (2 ^ zeros_from bits y)), ones_even bits y) d.fewer)));
}

Drops-odd : (bits y : ℕ) → Drops (suc bits) (y * 2 + 1)
Drops-odd bits y = record {
  left = rw (odd_step bits y) (omega (arith, bit_xor_odd y));
  fewer =
      rw (odd_step bits y)
        (rw (bit_xor_odd y) (rw (ones_even bits y, ones_odd bits y) (omega arith)));
}

-- A number that is not 0 and has no more digits than are read loses its lowest set bit.
pub drops : (bits x : ℕ) → 0 < x → x < 2 ^ bits → Drops bits x
drops zero x pos lt = absurd (omega arith)
drops (suc bits) x pos lt = elim (parity x) [
  | inl (e, r) ↦
      subst (Drops (suc bits)) (sym e) (
        Drops-even bits (x / 2) (drops bits (x / 2) (omega arith) (omega (arith, double_pow bits))))
  | inr (e, r) ↦ subst (Drops (suc bits)) (sym e) (Drops-odd bits (x / 2))
]

-- The next set bit is a higher one.
pub next_lowest :
    (bits x y : ℕ)
    → 0 < x
    → x < 2 ^ bits
    → y + 2 ^ zeros_from bits x ≡ x
    → 0 < y
    → zeros_from bits x < zeros_from bits y
next_lowest zero x y pos lt e left = absurd (omega arith)
next_lowest (suc bits) x y pos lt e left = elim (parity x) [
  | inl (even, r) ↦
      let zx : zeros_from (suc bits) x ≡ suc (zeros_from bits (x / 2)) =
        ap (zeros_from (suc bits)) even ∙ even_step bits (x / 2) in
      let p : 2 ^ zeros_from (suc bits) x ≡ 2 ^ zeros_from bits (x / 2) * 2 =
        ap (λ k. 2 ^ k) zx ∙ double_pow (zeros_from bits (x / 2)) in
      let half : y ≡ y / 2 * 2 = omega (arith, p, e, even) in
      let zy : zeros_from (suc bits) y ≡ suc (zeros_from bits (y / 2)) =
        ap (zeros_from (suc bits)) half ∙ even_step bits (y / 2) in
      let ih =
        next_lowest bits (x / 2) (y / 2) (omega arith) (omega (arith, double_pow bits))
          (omega (arith, p, e, even, half)) (omega (arith, half, left)) in
      omega (arith, zx, zy, ih)
  | inr (odd, r) ↦
      let zx : zeros_from (suc bits) x ≡ 0 =
        ap (zeros_from (suc bits)) odd ∙ odd_step bits (x / 2) in
      let p : 2 ^ zeros_from (suc bits) x ≡ 1 = ap (λ k. 2 ^ k) zx in
      let half : y ≡ x / 2 * 2 = omega (arith, p, e, odd) in
      let zy : zeros_from (suc bits) y ≡ suc (zeros_from bits (x / 2)) =
        ap (zeros_from (suc bits)) half ∙ even_step bits (x / 2) in
      omega (arith, zx, zy)
]

-- No set bit: the number is 0.
pub ones_from-eq_zero : (bits x : ℕ) → x < 2 ^ bits → ones_from bits x ≡ 0 → x ≡ 0
unfolding ones_from
ones_from-eq_zero zero x lt h = omega arith
ones_from-eq_zero (suc bits) x lt h =
    let half : x / 2 ≡ 0 =
      ones_from-eq_zero bits (x / 2) (omega (arith, double_pow bits)) (omega arith) in
    omega arith

pub ones_from_zero : (bits : ℕ) → ones_from bits 0 ≡ 0
unfolding ones_from
ones_from_zero zero = refl
ones_from_zero (suc bits) = omega (arith, ones_from_zero bits)

-- A multiple of 128 ends in seven zeros at least.
pub lowest_of_multiple : (q : ℕ) → 2 ^ zeros_from 64 (q * 128) ≡ 2 ^ zeros_from 57 q * 128
lowest_of_multiple q =
    let e : q * 128 ≡ q * 2 * 2 * 2 * 2 * 2 * 2 * 2 = omega arith in
    rw e (rw (seven q) (omega (arith, pow-add)))
  where
    t : ℕ
    t = zeros_from 57 q

    seven :
        (q : ℕ)
        → zeros_from 64 (q * 2 * 2 * 2 * 2 * 2 * 2 * 2)
          ≡ suc (suc (suc (suc (suc (suc (suc (zeros_from 57 q)))))))
    seven q = rw (
      even_step 63 _,
      even_step 62 _,
      even_step 61 _,
      even_step 60 _,
      even_step 59 _,
      even_step 58 _,
      even_step 57 _,
    )

    pow-add : 2 ^ suc (suc (suc (suc (suc (suc (suc t)))))) ≡ 2 ^ t * 128
    pow-add = omega (
      arith,
      double_pow t,
      double_pow (suc t),
      double_pow (suc (suc t)),
      double_pow (suc (suc (suc t))),
      double_pow (suc (suc (suc (suc t)))),
      double_pow (suc (suc (suc (suc (suc t))))),
      double_pow (suc (suc (suc (suc (suc (suc t)))))),
    )
