-- ===== src/Sector.antt =====
-- types.go and sector_state.go: the states of a sector, its stored record, and the methods that
-- read the pieces of the record.
-- `Cid` stands for `cid.Cid`. Identifiers and sizes are uint64 values as native numbers; epochs,
-- seal-proof types and exit codes are int64 values as integers; byte slices are lists of bytes.
pub mod Methods
use storage_fsm.Base.{ℕ, Bool, true, false, Option, none, some, List, [], ◌∷◌, map, Bytes}
use storage_fsm.Base.{String, ◌&&◌, bytes_equal}
use storage_fsm.Base.Int.{ℤ, eqb_ℤ}

-- The constants of sector_state.go; `other` is any string that is none of them.
pub data SectorState : Type 0 where
  undefined_sector_state : SectorState
  empty packing pre_commit1 pre_commit2 pre_committing pre_commit_wait wait_seed : SectorState
  committing commit_wait finalize_sector proving : SectorState
  failed_unrecoverable seal_pre_commit1_failed seal_pre_commit2_failed : SectorState
  pre_commit_failed compute_proof_failed commit_failed packing_failed : SectorState
  finalize_failed faulty fault_reported faulted_final : SectorState
  removing remove_failed removed : SectorState
  other : String → SectorState

pub record DealSchedule : Type 0 where
  pub start_epoch : ℤ
  pub end_epoch : ℤ

pub record DealInfo : Type 0 where
  pub deal_id : ℕ
  pub deal_schedule : DealSchedule

-- `abi.PieceInfo`; `size` is a padded size.
pub record PieceInfo (Cid : Type 0) : Type 0 where
  pub size : ℕ
  pub piece_cid : Cid

-- `deal_info` is `none` for pieces outside every deal.
pub record Piece (Cid : Type 0) : Type 0 where
  pub piece : PieceInfo Cid
  pub deal_info : Option DealInfo

pub record Log : Type 0 where
  pub timestamp : ℕ
  pub trace : String
  pub message : String
  pub kind : String

pub record SectorInfo (Cid : Type 0) : Type 0 where
  pub state : SectorState
  pub sector_number : ℕ
  pub sector_type : ℤ
  pub pieces : List (Piece Cid)
  pub ticket_value : Bytes
  pub ticket_epoch : ℤ
  pub pre_commit1_out : Bytes
  pub comm_d : Option Cid
  pub comm_r : Option Cid
  pub proof : Bytes
  pub pre_commit_message : Option Cid
  pub pre_commit_tip_set : Bytes
  pub pre_commit2_fails : ℕ
  pub seed_value : Bytes
  pub seed_epoch : ℤ
  pub commit_message : Option Cid
  pub invalid_proofs : ℕ
  pub fault_report_msg : Option Cid
  pub last_err : String
  pub log : List Log

-- The zero value that the state store creates for a sector seen for the first time.
unfoldable pub zero_sector : {Cid : Type 0} → SectorInfo Cid
zero_sector = record {
  state = undefined_sector_state;
  sector_number = 0;
  sector_type = ℤ.pos 0;
  pieces = [];
  ticket_value = [];
  ticket_epoch = ℤ.pos 0;
  pre_commit1_out = [];
  comm_d = none;
  comm_r = none;
  proof = [];
  pre_commit_message = none;
  pre_commit_tip_set = [];
  pre_commit2_fails = 0;
  seed_value = [];
  seed_epoch = ℤ.pos 0;
  commit_message = none;
  invalid_proofs = 0;
  fault_report_msg = none;
  last_err = "";
  log = [];
}

module _ {Cid : Type 0} where
  unfoldable pub piece_infos : SectorInfo Cid → List (PieceInfo Cid)
  piece_infos t = map (λ p. p.piece) t.pieces

  unfoldable pub deal_ids_of : List (Piece Cid) → List ℕ
  deal_ids_of [] = []
  deal_ids_of (p ∷ ps) = elim p.deal_info [
    | none ↦ deal_ids_of ps
    | some d ↦ d.deal_id ∷ deal_ids_of ps
  ]

  unfoldable pub deal_ids : SectorInfo Cid → List ℕ
  unfolding deal_ids_of
  deal_ids t = deal_ids_of t.pieces

  -- `unpadded` is `abi.PaddedPieceSize.Unpadded`.
  unfoldable pub existing_piece_sizes : (ℕ → ℕ) → SectorInfo Cid → List ℕ
  existing_piece_sizes unpadded t = map (λ p. unpadded p.piece.size) t.pieces

  unfoldable pub has_deals_in : List (Piece Cid) → Bool
  has_deals_in [] = false
  has_deals_in (p ∷ ps) = elim p.deal_info [ none ↦ has_deals_in ps | some d ↦ true ]

  unfoldable pub has_deals : SectorInfo Cid → Bool
  unfolding has_deals_in
  has_deals t = has_deals_in t.pieces

-- Sealing work is given the priority `DealSectorPriority` if the sector has deals. The context is
-- reduced to that priority.
abbrev pub deal_sector_priority : ℕ
deal_sector_priority = 1024

unfoldable pub sealing_ctx : {Cid : Type 0} → SectorInfo Cid → Option ℕ → Option ℕ
unfolding has_deals
sealing_ctx t ctx = elim (has_deals t) [ true ↦ some deal_sector_priority | false ↦ ctx ]

pub record MessageReceipt : Type 0 where
  pub exit_code : ℤ
  pub return : Bytes
  pub gas_used : ℤ

unfoldable pub equals : MessageReceipt → MessageReceipt → Bool
equals mr o =
    eqb_ℤ mr.exit_code o.exit_code && bytes_equal mr.return o.return && eqb_ℤ mr.gas_used o.gas_used

pub record MsgLookup : Type 0 where
  pub receipt : MessageReceipt
  pub tip_set_tok : Bytes
  pub height : ℤ
