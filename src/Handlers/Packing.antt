-- ===== src/Handlers/Packing.antt =====
-- states_sealing.go `handlePacking` and garbage.go `pledgeSector`: the rest of the sector is filled
-- with zero pieces.
use storage_fsm.Base.{ℕ, zero, suc, ◌+◌, ◌-◌, ◌%◌, ◌^◌, List, [], ◌∷◌, ◌++◌, none, Bytes}
use storage_fsm.Base.{ltb, errorf, wrapf, Result, ok, err}
use storage_fsm.Base.Int.{ℤ, pos_part}
use storage_fsm.Base.Int64.{wrap64}
use storage_fsm.Sector.{Piece, PieceInfo, SectorInfo, existing_piece_sizes}
use storage_fsm.Events.{Event}
use storage_fsm.Fillers.Loop.{fillers_from_rem}
use storage_fsm.Api.{Sealing, SectorId}
use storage_fsm.Api.Action.{Act, pure, attempt, when}
use storage_fsm.Handlers.Outcome.{Step, send, fail, with_sector}

-- The first `n` bytes of the null reader, all of them 0.
unfoldable pub null_bytes : ℕ → Bytes
null_bytes zero = []
null_bytes (suc n) = 0 ∷ null_bytes n

-- What `pledgeReader` yields: `io.LimitReader` stops after `int64(size)` bytes, at once if that is
-- negative.
unfoldable pub pledge_reader : ℕ → Bytes
unfolding null_bytes wrap64
pledge_reader size = null_bytes (pos_part (wrap64 (ℤ.pos size)))

-- The loop of `handlePacking`, in uint64.
unfoldable pub allocated_from : {Cid : Type 0} → (ℕ → ℕ) → ℕ → List (Piece Cid) → ℕ
allocated_from unpadded acc [] = acc
allocated_from unpadded acc (p ∷ ps) =
    allocated_from unpadded ((acc + unpadded p.piece.size) % 2 ^ 64) ps

module _ {Cid Address World : Type 0} (m : Sealing Cid Address World) where
  -- The loop of `pledgeSector`; each new piece is told the sizes of all before it.
  unfoldable pub pledge_each :
      SectorId → List ℕ → List ℕ → Act World (Result (List (PieceInfo Cid)))
  unfolding pledge_reader
  pledge_each id existing [] = pure (ok [])
  pledge_each id existing (size ∷ sizes) =
      attempt (m.sealer.add_piece none id existing size (pledge_reader size))
        (λ e. pure (err (wrapf "add piece: %w" e)))
        λ ppi.
          attempt (pledge_each id (existing ++ size ∷ []) sizes) (λ e. pure (err e))
            λ rest. pure (ok (ppi ∷ rest))

  -- With no sizes the result is empty at once.
  unfoldable pub pledge_sector :
      SectorId → List ℕ → List ℕ → Act World (Result (List (PieceInfo Cid)))
  unfolding pledge_each
  pledge_sector id existing [] = pure (ok [])
  pledge_sector id existing (size ∷ sizes) = pledge_each id existing (size ∷ sizes)

  unfoldable pub handle_packing : SectorInfo Cid → Act World (Step Cid)
  unfolding pledge_sector allocated_from
  handle_packing s =
      let allocated = allocated_from m.unpadded 0 s.pieces in
      let ubytes = m.unpadded m.sealer.sector_size in
      when (ltb ubytes allocated) (fail (errorf "too much data in sector")) (
        with_sector m s.sector_number λ id.
          attempt
            (pledge_sector id (existing_piece_sizes m.unpadded s)
              (fillers_from_rem m.unpadded ((ubytes + 2 ^ 64 - allocated) % 2 ^ 64)))
            (λ e. fail (wrapf "filling up the sector: %w" e))
            λ pieces. send (Event.sector_packed pieces))
