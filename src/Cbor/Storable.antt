-- ===== src/Cbor/Storable.antt =====
-- The sector records that can be written, and a record as far as it is read.
use storage_fsm.Base.{◌^◌, ◌<◌, ◌≤◌, ◌≡◌, true, length, All, some}
use storage_fsm.Base.Int64.{IsInt64}
use storage_fsm.Sector.{SectorInfo, zero_sector}
use storage_fsm.Cbor.Services.{Cbg}
use storage_fsm.Cbor.Behaves.{Behaves}
use storage_fsm.Cbor.Deals.{IsPiece, IsEntry}
use storage_fsm.Cbor.States.{state_text, state_of}

module _ {Cid World : Type 0} (c : Cbg Cid World) (h : Behaves c) where
  -- No slice, text or number of the record is too large to be written, and its state is the one
  -- that its text names.
  pub record IsStorable (s : SectorInfo Cid) : Type 0 where
    pub state_named : state_of (state_text s.state) ≡ s.state
    pub state_fits : length (c.bytes_of (state_text s.state)) ≤ c.max_length
    pub sector_number_fits : s.sector_number < 2 ^ 64
    pub sector_type_fits : IsInt64 s.sector_type
    pub pieces_fit : length s.pieces ≤ c.max_length
    pub pieces_storable : All (IsPiece c h) s.pieces
    pub ticket_value_fits : length s.ticket_value ≤ c.byte_array_max_len
    pub ticket_epoch_fits : IsInt64 s.ticket_epoch
    pub pre_commit1_out_fits : length s.pre_commit1_out ≤ c.byte_array_max_len
    pub comm_d_fits : (d : Cid) → s.comm_d ≡ some d → h.is_cid d ≡ true
    pub comm_r_fits : (d : Cid) → s.comm_r ≡ some d → h.is_cid d ≡ true
    pub proof_fits : length s.proof ≤ c.byte_array_max_len
    pub pre_commit_message_fits : (d : Cid) → s.pre_commit_message ≡ some d → h.is_cid d ≡ true
    pub pre_commit_tip_set_fits : length s.pre_commit_tip_set ≤ c.byte_array_max_len
    pub pre_commit2_fails_fits : s.pre_commit2_fails < 2 ^ 64
    pub seed_value_fits : length s.seed_value ≤ c.byte_array_max_len
    pub seed_epoch_fits : IsInt64 s.seed_epoch
    pub commit_message_fits : (d : Cid) → s.commit_message ≡ some d → h.is_cid d ≡ true
    pub invalid_proofs_fits : s.invalid_proofs < 2 ^ 64
    pub fault_report_msg_fits : (d : Cid) → s.fault_report_msg ≡ some d → h.is_cid d ≡ true
    pub last_err_fits : length (c.bytes_of s.last_err) ≤ c.max_length
    pub log_fits : length s.log ≤ c.max_length
    pub log_storable : All (IsEntry c h) s.log

module _ {Cid : Type 0} (s : SectorInfo Cid) where
  -- The record as far as it is read after each run of fields.
  abbrev pub blank : SectorInfo Cid
  unfolding zero_sector
  blank = zero_sector

  abbrev pub with_origin : SectorInfo Cid
  with_origin = record blank {
    state = s.state;
    sector_number = s.sector_number;
    sector_type = s.sector_type;
    pieces = s.pieces;
  }

  abbrev pub with_seal : SectorInfo Cid
  with_seal = record with_origin {
    ticket_value = s.ticket_value;
    ticket_epoch = s.ticket_epoch;
    pre_commit1_out = s.pre_commit1_out;
    comm_d = s.comm_d;
    comm_r = s.comm_r;
    proof = s.proof;
  }

  abbrev pub with_chain : SectorInfo Cid
  with_chain = record with_seal {
    pre_commit_message = s.pre_commit_message;
    pre_commit_tip_set = s.pre_commit_tip_set;
    pre_commit2_fails = s.pre_commit2_fails;
    seed_value = s.seed_value;
    seed_epoch = s.seed_epoch;
  }
