-- ===== src/Checks/Pieces.antt =====
-- What `checkPieces` establishes.
use storage_fsm.Base.{not-eq_false, ◌≡◌, ◌⊎◌, inl, inr, true, none, some}
use storage_fsm.Base.{List, [], ◌∷◌, All, Bytes, ok, subst, arith}
use storage_fsm.Base.Int.{ℤ, ◌<ℤ◌}
use storage_fsm.Sector.{Piece, DealInfo, SectorInfo}
use storage_fsm.Api.{Sealing, DealProposal}
use storage_fsm.Api.Action.{
  Always, pure-Always, when-Always, on_nil-Always, attempt-Always, Always-map,
}
use storage_fsm.Checks.{Check, passes, rejects, faults, check_proposal, check_each, check_pieces}

module _ {Cid Address World : Type 0} (m : Sealing Cid Address World) where
  -- The deal of the piece, as the chain answered for it: its proposal has the piece's CID and size
  -- and starts after the height.
  abbrev pub FitsDeal : Bytes → ℤ → Piece Cid → DealInfo → Type 0
  FitsDeal tok height p d =
      (w : World) × (proposal : DealProposal Cid) × ((m.api.state_market_storage_deal d.deal_id tok
          w).0
        ≡ ok proposal)
      × (m.cid_equal proposal.piece_cid p.piece.piece_cid ≡ true)
      × (p.piece.size ≡ proposal.piece_size)
      × (height <ℤ proposal.start_epoch)

  -- A piece outside every deal is a zero piece; any other fits its deal.
  abbrev pub Fits : Bytes → ℤ → Piece Cid → Type 0
  Fits tok height p =
      ((p.deal_info ≡ none)
        × (m.cid_equal p.piece.piece_cid (m.zero_piece_commitment (m.unpadded p.piece.size))
            ≡ true))
      ⊎ ((d : DealInfo) × (p.deal_info ≡ some d) × FitsDeal tok height p d)

  abbrev PassFits : Bytes → ℤ → List (Piece Cid) → Check → Type 0
  PassFits tok height ps passes = All (Fits tok height) ps
  PassFits tok height ps (rejects e) = Unit
  PassFits tok height ps faults = Unit

  extend :
      (tok : Bytes) (height : ℤ) (p : Piece Cid) (ps : List (Piece Cid))
      → Fits tok height p
      → (c : Check) → PassFits tok height ps c
      → PassFits tok height (p ∷ ps) c
  extend tok height p ps f passes h = (f, h)
  extend tok height p ps f (rejects e) h = tt
  extend tok height p ps f faults h = tt

  check_each-PassFits :
      (tok : Bytes) (height : ℤ) (ps : List (Piece Cid))
      → Always (PassFits tok height ps) (check_each m tok height ps)
  unfolding check_each check_proposal
  check_each-PassFits tok height [] = pure-Always _ tt
  check_each-PassFits tok height (p ∷ ps) =
      let rest = check_each-PassFits tok height ps in
      on_nil-Always _
        (λ e.
          when-Always _ (λ b. pure-Always _ tt)
            λ b. Always-map (extend tok height p ps (inl (e, not-eq_false _ b))) rest)
        λ d e.
          attempt-Always _ (λ e. pure-Always _ tt)
            λ proposal w a.
              when-Always _ (λ b. pure-Always _ tt)
                λ same.
                  when-Always _ (λ b. pure-Always _ tt)
                    λ size.
                      when-Always _ (λ b. pure-Always _ tt)
                        λ early.
                          Always-map
                            (extend tok height p ps (
                              inr (
                                d,
                                e,
                                (w, proposal, a, not-eq_false _ same, ground arith, ground arith),
                              )))
                            rest

  abbrev Checked : SectorInfo Cid → Check → Type 0
  Checked si passes =
      (w : World) × (tok : Bytes) × (height : ℤ) × ((m.api.chain_head w).0 ≡ ok (tok, height))
      × All (Fits tok height) si.pieces
  Checked si (rejects e) = Unit
  Checked si faults = Unit

  -- If `checkPieces` passes, then at the head that the chain answered with each piece of the
  -- sector is a zero piece outside every deal, or has the CID and the size of the proposal that
  -- the chain holds for its deal, which starts after the head.
  pub check_pieces_sound :
      (si : SectorInfo Cid) (w : World)
      → (check_pieces m si w).0 ≡ passes
      → (v : World) × (tok : Bytes) × (height : ℤ) × ((m.api.chain_head v).0 ≡ ok (tok, height))
        × All (Fits tok height) si.pieces
  unfolding check_pieces
  check_pieces_sound si w h = subst (Checked si) h (checked.at w)
    where
      lift :
          (v : World) (tok : Bytes) (height : ℤ)
          → (m.api.chain_head v).0 ≡ ok (tok, height)
          → (c : Check) → PassFits tok height si.pieces c
          → Checked si c
      lift v tok height e passes f = (v, tok, height, e, f)
      lift v tok height e (rejects r) f = tt
      lift v tok height e faults f = tt

      checked : Always (Checked si) (check_pieces m si)
      checked =
          attempt-Always _ (λ e. pure-Always _ tt)
            λ head v e.
              Always-map (lift v head.0 head.1 e) (check_each-PassFits head.0 head.1 si.pieces)
