-- ===== src/System/Seals.antt =====
-- A sector in Packing gets to PreCommitWait, on a chain that takes what it is sent.
pub mod Services
pub mod Packed
pub mod Records
pub mod Checked
use storage_fsm.Base.{◌≡◌, refl, ap, true, some, is_some, Bytes, ok, List}
use storage_fsm.Base.Int.{ℤ}
use storage_fsm.Base.Int64.{sub64}
use storage_fsm.Sector.{SectorState, SectorInfo, PieceInfo, deal_ids}
use storage_fsm.Events.{Event}
use storage_fsm.Fsm.Plan.{
  Logging, plan, handler_of, handle_packing as Packing, handle_pre_commit1 as PreCommit1,
  handle_pre_commit2 as PreCommit2, handle_pre_committing as PreCommitting,
}
use storage_fsm.Api.{Sealing}
use storage_fsm.Api.Action.{Act}
use storage_fsm.Handlers.{run_handler}
use storage_fsm.System.Run.{Leads, stops, turn, from_record}
use Services.{IsZeroPiece, lookback, Prepares}
use Packed.{deal_ids-with_fillers, packing-Ends}
use Records.{
  packed, replicated, sealed, submitted, packed_after, replicated_after, sealed_after,
  submitted_after,
}
use Checked.{pre_commit1-Ends, pre_commit2-Ends, pre_committing-Ends}

module _ {Cid Address World : Type 0} (m : Sealing Cid Address World) (L : Logging Cid) where
  module _ (s : SectorInfo Cid) (c : Prepares m s) where
    -- A sector in Packing gets to PreCommitWait with its number and its deals, both commitments
    -- and a message, through its handlers and the events that they send. It has room and no
    -- pre-commit on chain, its pieces outside deals are zero pieces, `AddPiece` gives the zero piece
    -- for content of the asked size that is nothing but zeros, unpadding makes no size larger, the
    -- unpadded size of a sector is below 2^62, its deals are live at every head of the chain, the sealer answers with the data commitment
    -- that the chain has for the deals, no ticket expires between two heads, the miner has an ID
    -- address, addresses and parameters encode, and the other calls succeed.
    pub packed_sector_is_submitted :
        s.state ≡ SectorState.packing
        → (w : World)
        → (t : SectorInfo Cid) × (v : World) × Leads m L s w t v
          × (t.state ≡ SectorState.pre_commit_wait)
          × (t.sector_number ≡ s.sector_number)
          × (deal_ids t ≡ deal_ids s)
          × (is_some t.comm_d ≡ true)
          × (is_some t.comm_r ≡ true)
          × (is_some t.pre_commit_message ≡ true)
    unfolding run_handler handler_of deal_ids
    packed_sector_is_submitted at w =
        let (qs, zero_pieces, e₁) = packing-Ends m s c w in
        let (out, value, height, tok, v, is_head, e₂) =
          pre_commit1-Ends m L s c qs zero_pieces e₁.later in
        let (r, d, same, e₃) = pre_commit2-Ends m L s c qs out value height e₂.later in
        let (message, e₄) =
          pre_committing-Ends m L s c qs out value height tok v is_head r d same e₃.later in
        let s₁ = packed L qs s in
        let s₂ = replicated L out value (sub64 height (lookback m)) s₁ in
        let s₃ = sealed L r d s₂ in
        (
          submitted L message s₃,
          e₄.later,
          turn Packing (ap handler_of at) e₁.is (
              from_record m L (packed_after L qs s at) (
                turn PreCommit1 refl e₂.is (
                  from_record m L (replicated_after L out value _ s₁ refl) (
                    turn PreCommit2 refl e₃.is (
                      from_record m L (sealed_after L r d s₂ refl) (
                        turn PreCommitting refl e₄.is
                          (from_record m L (submitted_after L message s₃ refl) stops))))))),
          refl,
          refl,
          deal_ids-with_fillers s.pieces qs,
          refl,
          refl,
          refl,
        )
