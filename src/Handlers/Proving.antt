-- ===== src/Handlers/Proving.antt =====
-- states_proving.go: faults and removal.
use storage_fsm.Base.{not, errorf, wrapf}
use storage_fsm.Base.Int.{ℤ, eqb_ℤ}
use storage_fsm.Sector.{SectorInfo}
use storage_fsm.Events.{Event}
use storage_fsm.Api.{Sealing}
use storage_fsm.Api.Action.{Act, attempt, on_nil, when}
use storage_fsm.Handlers.Outcome.{Step, send, idle, fail, with_sector}

module _ {Cid Address World : Type 0} (m : Sealing Cid Address World) where
  unfoldable pub handle_faulty : SectorInfo Cid → Act World (Step Cid)
  handle_faulty s = idle

  unfoldable pub handle_fault_reported : SectorInfo Cid → Act World (Step Cid)
  handle_fault_reported s =
      on_nil s.fault_report_msg
        (fail (errorf "entered fault reported state without a FaultReportMsg cid"))
        λ message.
          attempt (m.api.state_wait_msg message)
            (λ e. fail (wrapf "failed to wait for fault declaration: %w" e))
            λ mw.
              when (not (eqb_ℤ mw.receipt.exit_code (ℤ.pos 0)))
                (fail (errorf "UNHANDLED: submitting fault declaration failed (exit %d)"))
                (send Event.sector_faulted_final)

  unfoldable pub handle_removing : SectorInfo Cid → Act World (Step Cid)
  handle_removing s = with_sector m s.sector_number λ id.
      attempt (m.sealer.remove id) (λ e. send (Event.sector_remove_failed e))
        λ done. send Event.sector_removed
