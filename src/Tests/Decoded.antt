-- ===== src/Tests/Decoded.antt =====
-- A stream with one field, and a byte after it.
use storage_fsm.Base.{ℕ, ◌≡◌, refl, arith, [], ◌∷◌, Bytes, ok}
use storage_fsm.Sector.{SectorInfo, zero_sector}
use storage_fsm.Cbor.Stream.{read_then, read_full, give, choose}
use storage_fsm.Cbor.Values.{read_struct, read_fields, read_bytes}
use storage_fsm.Cbor.SectorRead.{origin_field, seal_field, unmarshal_sector}
use storage_fsm.Cbor.Bounded.{IsBounded, unmarshal_sector-IsBounded}
use storage_fsm.Tests.Codec.{codec, header, text_after}

-- A struct of one field, `Proof`, with the bytes 5 and 6.
abbrev stream : Bytes
stream = 161 ∷ 3 ∷ 5 ∷ 80 ∷ 114 ∷ 111 ∷ 111 ∷ 102 ∷ 2 ∷ 2 ∷ 5 ∷ 6 ∷ 9 ∷ []

abbrev decoded : SectorInfo ℕ
decoded = record (zero_sector {Cid = ℕ}) { proof = 5 ∷ 6 ∷ [] }

reads_it : unmarshal_sector codec zero_sector stream ≡ ok (decoded, 9 ∷ [])
unfolding unmarshal_sector read_struct read_fields read_bytes origin_field seal_field read_then
    read_full give choose header text_after zero_sector
reads_it = refl

zero-IsBounded : IsBounded codec zero_sector
unfolding zero_sector
zero-IsBounded = ground arith

unmarshal_sector-IsBounded_example : IsBounded codec decoded
unmarshal_sector-IsBounded_example =
    unmarshal_sector-IsBounded codec zero_sector zero-IsBounded stream decoded (9 ∷ []) reads_it
