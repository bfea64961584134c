-- ===== src/Fillers/Total.antt =====
-- What the fillers add up to. `unpadded` is `abi.PaddedPieceSize.Unpadded`, of which the code
-- relies on the ratio of 127 to 128 between user bytes and sector bytes.
use Prim.Native.Nat.{bit_xor}
use storage_fsm.Base.{ℕ, zero, suc, ◌+◌, ◌-◌, ◌*◌, ◌/◌, ◌%◌, ◌^◌, ◌≤◌, ◌<◌, ◌≡◌, refl, sym, ap}
use storage_fsm.Base.{◌∙◌, arith, List, [], ◌∷◌, map, sum}
use native.Mathlib.Nat.{mod-eq_of_lt}
use storage_fsm.Fillers.Loop.{ones_from, zeros_from, trailing_zeros64, fill_from, fillers_from_rem}
use storage_fsm.Fillers.Lowest.{
  Drops, drops, ones_from-eq_zero, ones_from_zero, lowest_of_multiple, next_lowest,
}

-- The size that a round of the loop takes.
abbrev lowest : ℕ → ℕ
lowest x = 2 ^ zeros_from 64 x

-- Each is larger than the one before; the first is not below the bound.
abbrev Ascending : ℕ → List ℕ → Type 0
Ascending low [] = Unit
Ascending low (k ∷ ks) = (low ≤ k) × Ascending (suc k) ks

module _ (unpadded : ℕ → ℕ) where
  -- The sizes are the unpadded sizes of different powers of two, the smallest first, that add up
  -- to the size.
  abbrev pub Splits : ℕ → List ℕ → Type 0
  Splits size fillers =
      (ks : List ℕ) × Ascending 0 ks
      × (fillers ≡ map (λ k. unpadded (2 ^ k)) ks)
      × (sum (map (λ k. 2 ^ k) ks) ≡ size)

  round :
      (rounds x : ℕ)
      → 0 < x
      → x < 2 ^ 64
      → fill_from unpadded (suc rounds) x
        ≡ unpadded (lowest x) ∷ fill_from unpadded rounds (x - lowest x)
  unfolding fill_from trailing_zeros64
  round rounds x pos lt =
      let d : Drops 64 x = drops 64 x pos lt in
      let small : lowest x % 2 ^ 64 ≡ lowest x = mod-eq_of_lt (omega (arith, d.left)) in
      let rest : bit_xor x (lowest x) ≡ x - lowest x = omega (arith, d.left) in rw small (rw rest)

  fill_powers :
      (rounds x low : ℕ)
      → x < 2 ^ 64
      → ones_from 64 x ≡ rounds
      → (0 < x → low ≤ zeros_from 64 x)
      → (ks : List ℕ) × Ascending low ks
        × (fill_from unpadded rounds x ≡ map (λ k. unpadded (2 ^ k)) ks)
        × (sum (map (λ k. 2 ^ k) ks) ≡ x)
  unfolding fill_from
  fill_powers zero x low lt h above = ([], tt, refl, sym (ones_from-eq_zero 64 x lt h))
  fill_powers (suc rounds) zero low lt h above = absurd (omega (arith, ones_from_zero 64, h))
  fill_powers (suc rounds) (suc y) low lt h above =
      let x : ℕ = suc y in
      let d : Drops 64 x = drops 64 x (omega arith) lt in
      let next : bit_xor x (lowest x) ≡ x - lowest x = omega (arith, d.left) in
      let fewer : ones_from 64 (x - lowest x) ≡ rounds =
        omega (arith, ap (ones_from 64) (sym next), d.fewer, h) in
      let (ks, ascending, same, total) =
        fill_powers rounds (x - lowest x) (suc (zeros_from 64 x)) (omega (arith, d.left)) fewer
          (next_lowest 64 x (x - lowest x) (omega arith) lt (omega (arith, d.left))) in
      (
        zeros_from 64 x ∷ ks,
        (above (omega arith), ascending),
        round rounds x (omega arith) lt ∙ ap (λ l. unpadded (lowest x) ∷ l) same,
        omega (arith, total, d.left),
      )

  -- The fillers of a rest of `n` user bytes have the unpadded sizes of different powers of two, the
  -- smallest first, that add up to the padded rest, `n` and its 127th part in 64 bits.
  pub fillers_are_pieces : (n : ℕ) → Splits ((n + n / 127) % 2 ^ 64) (fillers_from_rem unpadded n)
  unfolding fillers_from_rem
  fillers_are_pieces n =
      fill_powers _ ((n + n / 127) % 2 ^ 64) 0 (omega arith) refl (λ pos. omega arith)

  module _ (ratio : (k : ℕ) → unpadded (128 * k) ≡ 127 * k) where
    fill_total :
        (rounds q : ℕ)
        → q * 128 < 2 ^ 64
        → ones_from 64 (q * 128) ≡ rounds
        → sum (fill_from unpadded rounds (q * 128)) ≡ 127 * q
    unfolding fill_from
    fill_total zero q lt h =
        let e : q * 128 ≡ 0 = ones_from-eq_zero 64 (q * 128) lt h in omega arith
    fill_total (suc rounds) zero lt h = absurd (omega (arith, ones_from_zero 64, h))
    fill_total (suc rounds) (suc p) lt h =
        let q : ℕ = suc p in
        let t : ℕ = 2 ^ zeros_from 57 q in
        let d : Drops 64 (q * 128) = drops 64 (q * 128) (omega arith) lt in
        let low : lowest (q * 128) ≡ t * 128 = lowest_of_multiple q in
        let le : t ≤ q = omega (arith, d.left, low) in
        let rest : q * 128 - lowest (q * 128) ≡ (q - t) * 128 = omega (arith, low, le) in
        let next : bit_xor (q * 128) (lowest (q * 128)) ≡ (q - t) * 128 =
          omega (arith, d.left, rest) in
        let fewer : ones_from 64 ((q - t) * 128) ≡ rounds =
          omega (arith, ap (ones_from 64) (sym next), d.fewer, h) in
        let ih : sum (fill_from unpadded rounds ((q - t) * 128)) ≡ 127 * (q - t) =
          fill_total rounds (q - t) (omega (arith, le, lt)) fewer in
        let head : unpadded (lowest (q * 128)) ≡ 127 * t =
          ap unpadded (low ∙ omega arith) ∙ ratio t in
        ap sum (round rounds (q * 128) (omega arith) lt)
        ∙ omega (arith, head, ap (λ x. sum (fill_from unpadded rounds x)) rest, ih, le)

    -- The fillers of a rest of 127 times `q` user bytes add up to it, as long as its padded size
    -- fits 64 bits. Unpadding takes 128 `k` bytes to 127 `k`.
    pub sum-fillers_from_rem :
        (q : ℕ) → q * 128 < 2 ^ 64 → sum (fillers_from_rem unpadded (127 * q)) ≡ 127 * q
    unfolding fillers_from_rem
    sum-fillers_from_rem q lt =
        let fill : (127 * q + 127 * q / 127) % 2 ^ 64 ≡ q * 128 = omega arith in
        rw fill (fill_total (ones_from 64 (q * 128)) q lt refl)
