-- ===== src/Cbor/SectorRead.antt =====
-- cbor_gen.go: `UnmarshalCBOR` of SectorInfo. The `switch` over the names of the fields is split into
-- the runs in which the fields are written.
use text.Mathlib.Text.{◌==◌}
use storage_fsm.Base.{String, if◌then◌else◌}
use storage_fsm.Sector.{SectorInfo}
use storage_fsm.Cbor.Stream.{Reader, give, read_then}
use storage_fsm.Cbor.Services.{Cbg}
use storage_fsm.Cbor.Values.{
  read_struct, read_fields, unknown_field, read_uint, read_int, read_bytes, read_cid, read_slice,
}
use storage_fsm.Cbor.Deal.{zero_piece, unmarshal_piece}
use storage_fsm.Cbor.Entries.{zero_log, unmarshal_log}
use storage_fsm.Cbor.States.{state_of}

module _ {Cid World : Type 0} (c : Cbg Cid World) where
  unfoldable pub outcome_field : String → SectorInfo Cid → Reader (SectorInfo Cid)
  outcome_field name t =
      if name == "CommitMessage"
      then read_then (read_cid c "failed to read cid field t.CommitMessage: %w" t.commit_message)
          (λ v. give (record t { commit_message = v }))
      else if name == "InvalidProofs"
      then read_then (read_uint c) (λ v. give (record t { invalid_proofs = v }))
      else if name == "FaultReportMsg"
      then read_then (read_cid c "failed to read cid field t.FaultReportMsg: %w" t.fault_report_msg)
          (λ v. give (record t { fault_report_msg = v }))
      else if name == "LastErr"
      then read_then c.read_string (λ v. give (record t { last_err = v }))
      else if name == "Log"
      then read_then (read_slice c "t.Log: array too large (%d)" t.log (unmarshal_log c zero_log))
          (λ v. give (record t { log = v }))
      else unknown_field c

  unfoldable pub chain_field : String → SectorInfo Cid → Reader (SectorInfo Cid)
  unfolding outcome_field
  chain_field name t =
      if name == "PreCommitMessage"
      then read_then
          (read_cid c "failed to read cid field t.PreCommitMessage: %w" t.pre_commit_message)
          (λ v. give (record t { pre_commit_message = v }))
      else if name == "PreCommitTipSet"
      then read_then (read_bytes c "t.PreCommitTipSet: byte array too large (%d)")
          (λ v. give (record t { pre_commit_tip_set = v }))
      else if name == "PreCommit2Fails"
      then read_then (read_uint c) (λ v. give (record t { pre_commit2_fails = v }))
      else if name == "SeedValue"
      then read_then (read_bytes c "t.SeedValue: byte array too large (%d)")
          (λ v. give (record t { seed_value = v }))
      else if name == "SeedEpoch"
      then read_then (read_int c) (λ v. give (record t { seed_epoch = v }))
      else outcome_field name t

  unfoldable pub seal_field : String → SectorInfo Cid → Reader (SectorInfo Cid)
  unfolding chain_field
  seal_field name t =
      if name == "TicketValue"
      then read_then (read_bytes c "t.TicketValue: byte array too large (%d)")
          (λ v. give (record t { ticket_value = v }))
      else if name == "TicketEpoch"
      then read_then (read_int c) (λ v. give (record t { ticket_epoch = v }))
      else if name == "PreCommit1Out"
      then read_then (read_bytes c "t.PreCommit1Out: byte array too large (%d)")
          (λ v. give (record t { pre_commit1_out = v }))
      else if name == "CommD"
      then read_then (read_cid c "failed to read cid field t.CommD: %w" t.comm_d)
          (λ v. give (record t { comm_d = v }))
      else if name == "CommR"
      then read_then (read_cid c "failed to read cid field t.CommR: %w" t.comm_r)
          (λ v. give (record t { comm_r = v }))
      else if name == "Proof"
      then read_then (read_bytes c "t.Proof: byte array too large (%d)")
          (λ v. give (record t { proof = v }))
      else chain_field name t

  unfoldable pub origin_field : String → SectorInfo Cid → Reader (SectorInfo Cid)
  unfolding seal_field
  origin_field name t =
      if name == "State"
      then read_then c.read_string (λ v. give (record t { state = state_of v }))
      else if name == "SectorNumber"
      then read_then (read_uint c) (λ v. give (record t { sector_number = v }))
      else if name == "SectorType"
      then read_then (read_int c) (λ v. give (record t { sector_type = v }))
      else if name == "Pieces"
      then read_then
          (read_slice c "t.Pieces: array too large (%d)" t.pieces
            (unmarshal_piece c (zero_piece c.undef)))
          (λ v. give (record t { pieces = v }))
      else seal_field name t

  unfoldable pub unmarshal_sector : SectorInfo Cid → Reader (SectorInfo Cid)
  unfolding origin_field read_struct
  unmarshal_sector t =
      read_struct c "SectorInfo: map struct too large (%d)" (read_fields c origin_field t)
