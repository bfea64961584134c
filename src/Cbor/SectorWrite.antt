-- ===== src/Cbor/SectorWrite.antt =====
-- cbor_gen.go: `MarshalCBOR` of SectorInfo, in four runs of fields.
use storage_fsm.Base.{Option, none, some, [], ◌∷◌}
use storage_fsm.Sector.{SectorInfo}
use storage_fsm.Cbor.Stream.{Write, ◌>>◌}
use storage_fsm.Cbor.Services.{Cbg}
use storage_fsm.Cbor.Values.{
  write_null, write_text, write_field, write_uint, write_int, write_bytes, write_cid, write_slice,
}
use storage_fsm.Cbor.Deal.{marshal_piece}
use storage_fsm.Cbor.Entries.{marshal_log}
use storage_fsm.Cbor.States.{state_text}

module _ {Cid World : Type 0} (c : Cbg Cid World) where
  -- The fields that the start of the sector and its packing fill.
  unfoldable pub write_origin : SectorInfo Cid → Write World
  unfolding write_field
  write_origin t =
      write_field c "State"
        (write_text c "Value in field t.State was too long" (state_text t.state))
      >> (write_field c "SectorNumber" (write_uint c t.sector_number)
          >> (write_field c "SectorType" (write_int c t.sector_type)
              >> (write_field c "Pieces" (
                  write_slice c "Slice value in field t.Pieces was too long"
                    (λ v. marshal_piece c (some v)) t.pieces))))

  -- The fields of the two sealing phases and the proof.
  unfoldable pub write_seal : SectorInfo Cid → Write World
  unfolding write_field
  write_seal t =
      write_field c "TicketValue"
        (write_bytes c "Byte array in field t.TicketValue was too long" t.ticket_value)
      >> (write_field c "TicketEpoch" (write_int c t.ticket_epoch)
          >> (write_field c "PreCommit1Out"
                (write_bytes c "Byte array in field t.PreCommit1Out was too long" t.pre_commit1_out)
              >> (write_field c "CommD"
                    (write_cid c "failed to write cid field t.CommD: %w" t.comm_d)
                  >> (write_field c "CommR"
                        (write_cid c "failed to write cid field t.CommR: %w" t.comm_r)
                      >> (write_field c "Proof"
                          (write_bytes c "Byte array in field t.Proof was too long" t.proof))))))

  -- The fields of the pre-commit and the seed.
  unfoldable pub write_chain : SectorInfo Cid → Write World
  unfolding write_field
  write_chain t =
      write_field c "PreCommitMessage"
        (write_cid c "failed to write cid field t.PreCommitMessage: %w" t.pre_commit_message)
      >> (write_field c "PreCommitTipSet" (
            write_bytes c "Byte array in field t.PreCommitTipSet was too long" t.pre_commit_tip_set)
          >> (write_field c "PreCommit2Fails" (write_uint c t.pre_commit2_fails)
              >> (write_field c "SeedValue"
                    (write_bytes c "Byte array in field t.SeedValue was too long" t.seed_value)
                  >> (write_field c "SeedEpoch" (write_int c t.seed_epoch)))))

  -- The fields of the commit, failures and the log.
  unfoldable pub write_outcome : SectorInfo Cid → Write World
  unfolding write_field
  write_outcome t =
      write_field c "CommitMessage"
        (write_cid c "failed to write cid field t.CommitMessage: %w" t.commit_message)
      >> (write_field c "InvalidProofs" (write_uint c t.invalid_proofs)
          >> (write_field c "FaultReportMsg"
                (write_cid c "failed to write cid field t.FaultReportMsg: %w" t.fault_report_msg)
              >> (write_field c "LastErr"
                    (write_text c "Value in field t.LastErr was too long" t.last_err)
                  >> (write_field c "Log" (
                      write_slice c "Slice value in field t.Log was too long"
                        (λ v. marshal_log c (some v)) t.log)))))

  unfoldable pub marshal_sector : Option (SectorInfo Cid) → Write World
  unfolding write_origin write_seal write_chain write_outcome
  marshal_sector none = write_null c
  marshal_sector (some t) =
      c.write (180 ∷ []) >> (write_origin t >> (write_seal t >> (write_chain t >> write_outcome t)))
