-- ===== src/System/Seals/Packed.antt =====
-- Packing on such services: the fillers are zero pieces, which change no deal.
use storage_fsm.Base.{
  ℕ, ◌+◌, ◌-◌, ◌%◌, ◌^◌, ◌<◌, arith, ◌≡◌, refl, ap, sym, subst, sum, none, some, List, [], ◌∷◌,
  ◌++◌, map, All, ok, Option,
}
use storage_fsm.Base.{Bytes}
use storage_fsm.Base.Int.{ℤ}
use storage_fsm.Sector.{SectorInfo, DealInfo, Piece, PieceInfo, deal_ids_of}
use storage_fsm.Events.{Event}
use storage_fsm.Api.{Sealing, SectorId}
use storage_fsm.Handlers.Outcome.{sends}
use storage_fsm.Fillers.Loop.{fillers_from_rem}
use storage_fsm.Fillers.Total.{fillers_are_pieces}
use storage_fsm.Handlers.Packing.{
  allocated_from, pledge_reader, pledge_each, pledge_sector, handle_packing,
}
use storage_fsm.Handlers.Zeros.{pledge_reader-AreZeros}
use storage_fsm.Checks.{miner_sector}
use storage_fsm.System.Run.Ends.{
  Ends, pure-Ends, attempt-Ends, attempt_ended-Ends, check-Ends, when-false-Ends,
}
use storage_fsm.System.Seals.Services.{IsZeroPiece, IsLive, Prepares}

module _ {Cid : Type 0} where
  -- `SectorPacked` adds pieces outside every deal.
  abbrev pub with_fillers : List (Piece Cid) → List (PieceInfo Cid) → List (Piece Cid)
  with_fillers ps qs = ps ++ map (λ q. record { piece = q; deal_info = none }) qs

  pub deal_ids-with_fillers :
      (ps : List (Piece Cid)) (qs : List (PieceInfo Cid))
      → deal_ids_of (with_fillers ps qs) ≡ deal_ids_of ps
  unfolding deal_ids_of
  deal_ids-with_fillers [] [] = refl
  deal_ids-with_fillers [] (q ∷ qs) = deal_ids-with_fillers [] qs
  deal_ids-with_fillers (p ∷ ps) qs = by p.deal_info (deal_ids-with_fillers ps qs)
    where
      by :
          (o : Option DealInfo) {l k : List ℕ}
          → l ≡ k
          → elim o [ none ↦ l | some d ↦ d.deal_id ∷ l ]
            ≡ elim o [ none ↦ k | some d ↦ d.deal_id ∷ k ]
      by none h = h
      by (some d) h = ap (λ l. d.deal_id ∷ l) h

module _ {Cid Address World : Type 0} (m : Sealing Cid Address World) (s : SectorInfo Cid)
    (c : Prepares m s) where
  -- The sizes fit the reader's 63 bits.
  abbrev Fit : List ℕ → Type 0
  Fit = All (λ size. size < 2 ^ 63)

  powers-Fit :
      (ks : List ℕ) → sum (map (λ k. 2 ^ k) ks) < 2 ^ 63 → Fit (map (λ k. m.unpadded (2 ^ k)) ks)
  powers-Fit [] lt = tt
  powers-Fit (k ∷ ks) lt = (omega (arith, c.unpads (2 ^ k)), powers-Fit ks (omega arith))

  fillers-Fit : (n : ℕ) → n < 2 ^ 62 → Fit (fillers_from_rem m.unpadded n)
  fillers-Fit n lt =
      let (ks, ascending, same, total) = fillers_are_pieces m.unpadded n in
      subst Fit (sym same) (powers-Fit ks (omega (arith, total)))

  rest-Fit : Fit (
      fillers_from_rem m.unpadded (
        (m.unpadded m.sealer.sector_size + 2 ^ 64 - allocated_from m.unpadded 0 s.pieces) % 2 ^ 64))
  rest-Fit = fillers-Fit _ (ground (arith, c.has_size, c.has_room))

  pledge_each-Ends :
      (existing sizes : List ℕ)
      → Fit sizes
      → (w : World)
      → (qs : List (PieceInfo Cid)) × All (IsZeroPiece m) qs
        × Ends
            (pledge_each m (record { miner = c.miner; number = s.sector_number }) existing sizes)
            w
            (ok qs)
  unfolding pledge_each
  pledge_each-Ends existing [] fit w = ([], tt, pure-Ends w)
  pledge_each-Ends existing (size ∷ sizes) fit w =
      let id : SectorId = record { miner = c.miner; number = s.sector_number } in
      let (p, is, zero_piece) =
        c.adds existing size (pledge_reader size) (pledge_reader-AreZeros size fit.0) w in
      let v = (m.sealer.add_piece none id existing size (pledge_reader size) w).1 in
      let (qs, zero_pieces, rest) = pledge_each-Ends (existing ++ size ∷ []) sizes fit.1 v in
      (
        p ∷ qs,
        (zero_piece, zero_pieces),
        attempt-Ends _ _ _ w is (attempt_ended-Ends _ _ _ v rest (pure-Ends _)),
      )

  pledge_sector-Ends :
      (existing sizes : List ℕ)
      → Fit sizes
      → (w : World)
      → (qs : List (PieceInfo Cid)) × All (IsZeroPiece m) qs
        × Ends
            (pledge_sector m (record { miner = c.miner; number = s.sector_number }) existing sizes)
            w
            (ok qs)
  unfolding pledge_sector
  pledge_sector-Ends existing [] fit w = ([], tt, pure-Ends w)
  pledge_sector-Ends existing (size ∷ sizes) fit w = pledge_each-Ends existing (size ∷ sizes) fit w

  pub packing-Ends :
      (w : World)
      → (qs : List (PieceInfo Cid)) × All (IsZeroPiece m) qs
        × Ends (handle_packing m s) w (sends (Event.sector_packed qs))
  unfolding handle_packing miner_sector
  packing-Ends w =
      let (qs, zero_pieces, pledged) = pledge_sector-Ends _ _ rest-Fit w in
      (
        qs,
        zero_pieces,
        when-false-Ends _ _ w c.has_room
            (check-Ends _ _ w c.has_id (attempt_ended-Ends _ _ _ w pledged (pure-Ends _))),
      )

  -- The pieces of the packed sector are still live.
  pub with_fillers-IsLive :
      (tok : Bytes) (height : ℤ) (ps : List (Piece Cid)) (qs : List (PieceInfo Cid))
      → All (IsLive m tok height) ps
      → All (IsZeroPiece m) qs
      → All (IsLive m tok height) (with_fillers ps qs)
  with_fillers-IsLive tok height [] [] a b = tt
  with_fillers-IsLive tok height [] (q ∷ qs) a b =
      ((λ e. b.0, λ d e. ground arith), with_fillers-IsLive tok height [] qs tt b.1)
  with_fillers-IsLive tok height (p ∷ ps) qs a b = (a.0, with_fillers-IsLive tok height ps qs a.1 b)
