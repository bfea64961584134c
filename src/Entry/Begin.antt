-- ===== src/Entry/Begin.antt =====
-- sealing.go `SealPiece`: the sector that a piece with a deal begins.
use storage_fsm.Base.{ℕ, ◌≡◌, refl, subst, Bytes, List, [], ◌∷◌, some, ok}
use storage_fsm.Base.Int.{ℤ}
use storage_fsm.Sector.{
  SectorState, SectorInfo, PieceInfo, Piece, DealInfo, zero_sector, deal_ids, deal_ids_of,
  deal_sector_priority,
}
use storage_fsm.Events.{Event, type_of, is_mutator, apply, apply_global}
use storage_fsm.Fsm.Table.{EventType-discrete, plan_one, rows, planners}
use storage_fsm.Fsm.Plan.{Logging, plan}
use storage_fsm.Api.{Sealing}
use storage_fsm.Api.Action.{Always, pure-Always, attempt-Always, check-Always}
use storage_fsm.Entry.{StateGroup, Call, returns, new_sector, seal_piece}

module _ {Cid Address World : Type 0} (m : Sealing Cid Address World) (g : StateGroup Cid World)
    (size : ℕ) (content : Bytes) (sector_id : ℕ) (d : DealInfo) where
  -- The pieces of the sector that the event starts.
  abbrev pub sold : PieceInfo Cid → List (Piece Cid)
  sold ppi = record { piece = ppi; deal_info = some d } ∷ []

  -- The piece was added to the empty sector, and the event that starts the sector with it was sent.
  pub record Started : Type 0 where
    pub piece : PieceInfo Cid
    pub miner : ℕ
    pub has_id : m.id_from_address m.maddr ≡ ok miner
    pub added :
        (w : World) × ((m.sealer.add_piece
            (some deal_sector_priority)
            (record { miner = miner; number = sector_id })
            []
            size
            content
            w).0
          ≡ ok piece)
    pub seal_type : ℤ
    pub has_type : m.seal_proof_type_from_sector_size m.sealer.sector_size ≡ ok seal_type
    pub sent :
        (w : World) × ((g.send sector_id (Event.sector_start sector_id seal_type (sold piece)) w).0
          ≡ ok tt)

  abbrev Begins : Call (Unit {0}) → Type 0
  Begins (returns (ok u)) = Started
  Begins _ = Unit

  seal_piece-Begins : Always Begins (seal_piece m g size content sector_id d)
  unfolding seal_piece new_sector
  seal_piece-Begins =
      check-Always _ (λ e h. pure-Always _ tt)
        λ miner found.
          attempt-Always _ (λ e. pure-Always _ tt)
            λ ppi w added.
              check-Always _ (λ e h. pure-Always _ tt)
                λ rt has_type.
                  attempt-Always _ (λ e. pure-Always _ tt)
                    λ done v sent. pure-Always _ (record {
                      piece = ppi;
                      miner = miner;
                      has_id = found;
                      added = (w, added);
                      seal_type = rt;
                      has_type = has_type;
                      sent = (v, sent);
                    })

  -- A sector in Packing with this number, this type and just that deal.
  abbrev pub IsBegun : ℤ → SectorInfo Cid → Type 0
  IsBegun rt s =
      (s.state ≡ SectorState.packing)
      × (s.sector_number ≡ sector_id)
      × (s.sector_type ≡ rt)
      × (deal_ids s ≡ d.deal_id ∷ [])

  start-IsBegun :
      (L : Logging Cid) (rt : ℤ) (ppi : PieceInfo Cid)
      → IsBegun rt (plan L (Event.sector_start sector_id rt (sold ppi) ∷ []) zero_sector).0
  unfolding plan planners rows plan_one apply_global EventType-discrete type_of is_mutator apply
      zero_sector deal_ids deal_ids_of
  start-IsBegun L rt ppi = (refl, refl, refl, refl)

  -- If `SealPiece` returns with no error, it added the piece to the sector, which had none, and sent
  -- the event that starts the sector with the piece and its deal; planned on a sector seen for the
  -- first time, that event gives a sector in Packing with the number, the proof type of the sealer's
  -- sectors and that one deal.
  pub sold_piece_begins_sector :
      (L : Logging Cid) (w : World)
      → (seal_piece m g size content sector_id d w).0 ≡ returns (ok tt)
      → (q : Started) × IsBegun q.seal_type
          (plan L (Event.sector_start sector_id q.seal_type (sold q.piece) ∷ []) zero_sector).0
  sold_piece_begins_sector L w h =
      let q : Started = subst Begins h (seal_piece-Begins.at w) in
      (q, start-IsBegun L q.seal_type q.piece)
