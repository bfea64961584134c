-- ===== src/Handlers/Filled.antt =====
-- states_sealing.go `handlePacking` and the size of the sector.
use storage_fsm.Base.{ℕ, ◌+◌, ◌-◌, ◌*◌, ◌%◌, ◌^◌, ◌≤◌, ◌<◌, ◌≡◌, refl, ◌∙◌, ap, subst}
use storage_fsm.Base.{
  false, Option, none, List, [], ◌∷◌, ◌++◌, map, sum, Bytes, Result, ok, err, ltb, arith,
}
use storage_fsm.Sector.{Piece, PieceInfo, SectorInfo, existing_piece_sizes}
use storage_fsm.Events.{Event, apply}
use storage_fsm.Fillers.Loop.{fillers_from_rem}
use storage_fsm.Fillers.Total.{sum-fillers_from_rem}
use storage_fsm.Api.{Sealing, SectorId}
use storage_fsm.Api.Action.{Always, pure-Always, when-Always, attempt-Always, check-Always}
use storage_fsm.Checks.{miner_sector}
use storage_fsm.Handlers.Outcome.{Step, sends}
use storage_fsm.Handlers.Packing.{allocated_from, pledge_each, pledge_sector, handle_packing}

sum-append : (xs ys : List ℕ) → sum (xs ++ ys) ≡ sum xs + sum ys
sum-append [] ys = omega arith
sum-append (x ∷ xs) ys = omega (arith, sum-append xs ys)

module _ {Cid Address World : Type 0} (m : Sealing Cid Address World) where
  -- The unpadded sizes of new pieces.
  abbrev sizes_of : List (PieceInfo Cid) → List ℕ
  sizes_of = map (λ p. m.unpadded p.size)

  allocated_sum :
      (acc : ℕ) (ps : List (Piece Cid))
      → acc + sum (map (λ p. m.unpadded p.piece.size) ps) < 2 ^ 64
      → allocated_from m.unpadded acc ps ≡ acc + sum (map (λ p. m.unpadded p.piece.size) ps)
  unfolding allocated_from
  allocated_sum acc [] lt = omega arith
  allocated_sum acc (p ∷ ps) lt =
      let small : (acc + m.unpadded p.piece.size) % 2 ^ 64 ≡ acc + m.unpadded p.piece.size =
        omega arith in
      rw small (omega (arith, allocated_sum (acc + m.unpadded p.piece.size) ps (omega arith)))

  module _
      (adds : (priority : Option ℕ) (id : SectorId) (existing : List ℕ) (size : ℕ) (content : Bytes)
          (w : World) (p : PieceInfo Cid)
        → (m.sealer.add_piece priority id existing size content w).0 ≡ ok p
        → m.unpadded p.size ≡ size) where
    abbrev Pledged : List ℕ → Result (List (PieceInfo Cid)) → Type 0
    Pledged sizes (ok ps) = sizes_of ps ≡ sizes
    Pledged sizes (err e) = Unit

    pledge_each-Pledged :
        (id : SectorId) (existing sizes : List ℕ)
        → Always (Pledged sizes) (pledge_each m id existing sizes)
    unfolding pledge_each
    pledge_each-Pledged id existing [] = pure-Always _ refl
    pledge_each-Pledged id existing (size ∷ sizes) =
        attempt-Always _ (λ e. pure-Always _ tt)
          λ p w e.
            attempt-Always _ (λ e. pure-Always _ tt)
              λ rest w' e'. pure-Always _ (
                ground (
                  arith,
                  adds _ _ _ _ _ w p e,
                  subst (Pledged sizes) e'
                      ((pledge_each-Pledged id (existing ++ size ∷ []) sizes).at w'),
                ))

    pledge_sector-Pledged :
        (id : SectorId) (existing sizes : List ℕ)
        → Always (Pledged sizes) (pledge_sector m id existing sizes)
    unfolding pledge_sector
    pledge_sector-Pledged id existing [] = pure-Always _ refl
    pledge_sector-Pledged id existing (size ∷ sizes) =
        pledge_each-Pledged id existing (size ∷ sizes)

    module _ (s : SectorInfo Cid) where
      abbrev Fills : Step Cid → Type 0
      Fills (sends (Event.sector_packed ps)) =
          sum (existing_piece_sizes m.unpadded s) + sum (sizes_of ps)
          ≡ m.unpadded m.sealer.sector_size
      Fills _ = Unit

      sizes_after :
          (ps : List (Piece Cid)) (qs : List (PieceInfo Cid))
          → sum (
              map
                (λ p. m.unpadded p.piece.size)
                (ps ++ map (λ q. record { piece = q; deal_info = none }) qs))
            ≡ sum (map (λ p. m.unpadded p.piece.size) ps) + sum (sizes_of qs)
      sizes_after [] [] = refl
      sizes_after [] (q ∷ qs) = omega (arith, sizes_after [] qs)
      sizes_after (p ∷ ps) qs = omega (arith, sizes_after ps qs)

      -- `handlePacking` asks for fillers that exactly fill the sector: if it sends `SectorPacked`,
      -- then after the event the unpadded sizes of the pieces add up to that of the sector. The
      -- sizes of the sector and of the pieces are whole multiples of 127 user bytes whose padded
      -- size fits 64 bits, unpadding takes 128 `k` bytes to 127 `k`, and a piece that `AddPiece`
      -- returns has the unpadded size that was asked for.
      pub packed_sector_is_full :
          (ratio : (k : ℕ) → m.unpadded (128 * k) ≡ 127 * k) (a b : ℕ)
          → sum (existing_piece_sizes m.unpadded s) ≡ 127 * a
          → m.unpadded m.sealer.sector_size ≡ 127 * b
          → a * 128 < 2 ^ 64
          → b * 128 < 2 ^ 64
          → (w : World) (ps : List (PieceInfo Cid))
          → (handle_packing m s w).0 ≡ sends (Event.sector_packed ps)
          → sum (existing_piece_sizes m.unpadded (apply (Event.sector_packed ps) s))
            ≡ m.unpadded m.sealer.sector_size
      unfolding existing_piece_sizes apply handle_packing miner_sector
      packed_sector_is_full ratio a b ha hb la lb w ps h =
          sizes_after s.pieces ps ∙ subst Fills h (full.at w)
        where
          alloc : allocated_from m.unpadded 0 s.pieces ≡ 127 * a
          alloc = omega (arith, allocated_sum 0 s.pieces (omega arith), ha)

          fill :
              ltb (m.unpadded m.sealer.sector_size) (allocated_from m.unpadded 0 s.pieces) ≡ false
              → (a ≤ b)
                × (sum (
                      fillers_from_rem m.unpadded (
                        (m.unpadded m.sealer.sector_size
                          + 2 ^ 64
                          - allocated_from m.unpadded 0 s.pieces)
                        % 2 ^ 64))
                    ≡ 127 * (b - a))
          fill fits =
              let le : a ≤ b = ground (arith, alloc, hb) in
              let rest : (m.unpadded m.sealer.sector_size
                      + 2 ^ 64
                      - allocated_from m.unpadded 0 s.pieces)
                    % 2 ^ 64
                  ≡ 127 * (b - a) =
                omega (arith, alloc, hb, le) in
              (le, rw rest (sum-fillers_from_rem m.unpadded ratio (b - a) (omega arith)))

          full : Always Fills (handle_packing m s)
          full =
              when-Always _ (λ b. pure-Always _ tt)
                λ fits.
                  check-Always _ (λ e h. pure-Always _ tt)
                    λ mid h.
                      attempt-Always _ (λ e. pure-Always _ tt)
                        λ qs v e.
                          let sizes : sizes_of qs ≡ fillers_from_rem m.unpadded _ =
                            subst (Pledged _) e ((pledge_sector-Pledged _ _ _).at v) in
                          pure-Always _ (omega (arith, ap sum sizes, fill fits, ha, hb))
