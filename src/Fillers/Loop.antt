-- ===== src/Fillers/Loop.antt =====
-- utils.go `fillersFromRem`, with what it takes of `math/bits`: the pieces of zeroes that fill the
-- rest of a sector, one for each bit of its padded size. Sizes are uint64.
use Prim.Native.Nat.{bit_xor}
use storage_fsm.Base.{ℕ, zero, suc, ◌+◌, ◌/◌, ◌%◌, ◌^◌, List, [], ◌∷◌}

-- `bits.OnesCount64` and `bits.TrailingZeros64`, over at most 64 bits.
unfoldable pub ones_from : ℕ → ℕ → ℕ
ones_from zero n = 0
ones_from (suc bits) n = n % 2 + ones_from bits (n / 2)

unfoldable pub ones_count64 : ℕ → ℕ
unfolding ones_from
ones_count64 n = ones_from 64 n

unfoldable pub zeros_from : ℕ → ℕ → ℕ
zeros_from zero n = 0
zeros_from (suc bits) n = elim (n % 2) [ zero ↦ suc (zeros_from bits (n / 2)) | suc r ↦ 0 ]

unfoldable pub trailing_zeros64 : ℕ → ℕ
unfolding zeros_from
trailing_zeros64 n = zeros_from 64 n

module _ (unpadded : ℕ → ℕ) where
  -- The loop: `toFill` loses its lowest bit in each round.
  unfoldable pub fill_from : ℕ → ℕ → List ℕ
  fill_from zero to_fill = []
  fill_from (suc rounds) to_fill =
      let psize = 2 ^ trailing_zeros64 to_fill % 2 ^ 64 in
      unpadded psize ∷ fill_from rounds (bit_xor to_fill psize)

  -- The error result is always nil.
  unfoldable pub fillers_from_rem : ℕ → List ℕ
  unfolding fill_from ones_count64 trailing_zeros64
  fillers_from_rem n =
      let to_fill = (n + n / 127) % 2 ^ 64 in fill_from (ones_count64 to_fill) to_fill
