-- ===== src/System/Seals/Services.antt =====
-- The services of a sector that is not pre-committed, where all goes well.
use storage_fsm.Base.{
  ℕ, ◌==◌, ◌≡◌, ◌≤◌, ◌<◌, ◌^◌, ok, none, some, false, true, ltb, Bytes, List, Option, All,
}
use storage_fsm.Base.Int.{ℤ, ltb_ℤ, leb_ℤ}
use storage_fsm.Base.Int64.{add64, sub64}
use storage_fsm.Sector.{DealInfo, SectorInfo, Piece, PieceInfo, deal_ids}
use storage_fsm.Api.{
  Sealing, DealProposal, PreCommitParams, Tag, Method, seal_randomness_lookback,
  seal_randomness_lookback_limit,
}
use storage_fsm.Handlers.Packing.{allocated_from}
use storage_fsm.Handlers.Zeros.{AreZeros}
use storage_fsm.System.Run.Ends.{Answers}
use storage_fsm.System.Completes.Services.{Succeeds}

module _ {Cid Address World : Type 0} (m : Sealing Cid Address World) where
  -- The CID of a zero piece.
  abbrev pub IsZeroPiece : PieceInfo Cid → Type 0
  IsZeroPiece p = m.cid_equal p.piece_cid (m.zero_piece_commitment (m.unpadded p.size)) ≡ true

  -- A piece outside every deal is a zero piece; the chain holds the deal of any other, which starts
  -- after the height.
  abbrev pub IsLive : Bytes → ℤ → Piece Cid → Type 0
  IsLive tok height p =
      (p.deal_info ≡ none → IsZeroPiece p.piece)
      × ((d : DealInfo)
          → p.deal_info ≡ some d
          → (w : World)
          → (proposal : DealProposal Cid) × ((m.api.state_market_storage_deal d.deal_id tok w).0
              ≡ ok proposal)
            × (m.cid_equal proposal.piece_cid p.piece.piece_cid ≡ true)
            × ((p.piece.size == proposal.piece_size) ≡ true)
            × (leb_ℤ proposal.start_epoch height ≡ false))

  abbrev pub lookback : ℤ
  lookback = seal_randomness_lookback m.constants

  -- The sector has room and its deals are live at every head, unpadding makes no size larger, the
  -- size of a sector is below 4 EiB, `AddPiece` gives the zero piece for content that is nothing but
  -- zeros (of other content nothing is said), the sealer answers with the data commitment that the chain has for the deals, no ticket expires while the
  -- sector is sealed, and the calls of the chain succeed.
  pub record Prepares (s : SectorInfo Cid) : Type 0 where
    pub miner : ℕ
    pub has_id : m.id_from_address m.maddr ≡ ok miner
    pub has_room :
        ltb (m.unpadded m.sealer.sector_size) (allocated_from m.unpadded 0 s.pieces) ≡ false
    pub unpads : (size : ℕ) → m.unpadded size ≤ size
    pub has_size : m.unpadded m.sealer.sector_size < 2 ^ 62
    pub adds :
        (existing : List ℕ) (size : ℕ) (content : Bytes)
        → AreZeros size content
        → (w : World)
        → (p : PieceInfo Cid) × ((m.sealer.add_piece none
              (record { miner = miner; number = s.sector_number })
              existing
              size
              content
              w).0
            ≡ ok p)
          × IsZeroPiece p
    pub has_head :
        (w : World)
        → (tok : Bytes) × (height : ℤ) × ((m.api.chain_head w).0 ≡ ok (tok, height))
          × All (IsLive tok height) s.pieces
    pub steady :
        (w v : World) (tok tok₁ : Bytes) (height height₁ : ℤ)
        → (m.api.chain_head w).0 ≡ ok (tok, height)
        → (m.api.chain_head v).0 ≡ ok (tok₁, height₁)
        → ltb_ℤ
            (seal_randomness_lookback_limit m.constants s.sector_type)
            (sub64 height₁ (add64 (sub64 height lookback) lookback))
          ≡ false
    pub entropy : Bytes
    pub address_bytes : m.marshal_address m.maddr ≡ ok entropy
    pub unclaimed :
        (tok : Bytes)
        → Answers (m.api.state_sector_pre_commit_info m.maddr s.sector_number tok) none
    pub randomness :
        (tok : Bytes) (epoch : ℤ)
        → Succeeds (m.api.chain_get_randomness tok Tag.seal_randomness epoch entropy)
    pub seals1 :
        (ctx : Option ℕ) (ticket : Bytes) (ps : List (PieceInfo Cid))
        → Succeeds (
            m.sealer.seal_pre_commit1 ctx
              (record { miner = miner; number = s.sector_number })
              ticket
              ps)
    pub seals2 :
        (ctx : Option ℕ) (out : Bytes) (w : World)
        → (sealed unsealed : Cid) × ((m.sealer.seal_pre_commit2 ctx
              (record { miner = miner; number = s.sector_number })
              out
              w).0
            ≡ ok (sealed, unsealed))
          × ((tok : Bytes) (v : World)
              → (d : Cid) × ((m.api.state_compute_data_commitment m.maddr s.sector_type
                    (deal_ids s)
                    tok
                    v).0
                  ≡ ok d)
                × (m.cid_equal d unsealed ≡ true))
    pub has_worker : (tok : Bytes) → Succeeds (m.api.state_miner_worker_address m.maddr tok)
    pub has_expiration : (ps : List (Piece Cid)) → Succeeds (m.expiration ps)
    pub marshals : (p : PreCommitParams Cid) → (b : Bytes) × (m.marshal_pre_commit p ≡ ok b)
    pub takes :
        (from : Address) (params : Bytes)
        → Succeeds (
            m.api.send_msg from m.maddr Method.pre_commit_sector
              (ℤ.pos 0)
              (ℤ.pos 1)
              (ℤ.pos 1000000)
              params)
