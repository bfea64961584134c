-- ===== src/Handlers/Zeros.antt =====
-- garbage.go `pledgeReader`: the content that fills a sector.
use storage_fsm.Base.{ℕ, zero, suc, ◌^◌, ◌<◌, ◌≡◌, refl, ap, Bytes, length, All, arith}
use storage_fsm.Base.Int.{ℤ}
use storage_fsm.Base.Int64.{wrap64, wrap64_of_IsInt64}
use storage_fsm.Handlers.Packing.{null_bytes, pledge_reader}

-- As many bytes as the size says, and each of them is 0.
abbrev pub AreZeros : ℕ → Bytes → Type 0
AreZeros size content = (length content ≡ size) × All (λ b. b ≡ 0) content

null_bytes-AreZeros : (n : ℕ) → AreZeros n (null_bytes n)
unfolding null_bytes
null_bytes-AreZeros zero = (refl, tt)
null_bytes-AreZeros (suc n) = let h = null_bytes-AreZeros n in (ap suc h.0, (refl, h.1))

-- The reader of a size that fits 63 bits yields that many zeros.
pub pledge_reader-AreZeros : (size : ℕ) → size < 2 ^ 63 → AreZeros size (pledge_reader size)
unfolding pledge_reader
pledge_reader-AreZeros size small =
    let same : wrap64 (ℤ.pos size) ≡ ℤ.pos size = wrap64_of_IsInt64 _ (small, omega arith) in
    rw same (null_bytes-AreZeros size)
