-- ===== src/System/Progress/Steps.antt =====
-- The events of CommitWait, FinalizeSector and FinalizeFailed, and their handlers where the calls go
-- well.
use storage_fsm.Base.{◌≡◌, refl, some, [], ◌∷◌, Error, ok}
use storage_fsm.Base.{Bytes}
use storage_fsm.Base.Int.{ℤ}
use storage_fsm.Sector.{SectorState, SectorInfo, MsgLookup}
use storage_fsm.Events.{Event, type_of, is_mutator, apply, apply_global}
use storage_fsm.Fsm.Table.{EventType-discrete, plan_one, rows, planners}
use storage_fsm.Fsm.Plan.{Logging, plan}
use storage_fsm.Api.{Sealing}
use storage_fsm.Handlers.Outcome.{sends}
use storage_fsm.Handlers.Commit.{handle_commit_wait}
use storage_fsm.System.Run.{state_set}
use storage_fsm.System.Run.Ends.{Ends, pure-Ends, attempt-Ends, on_nil-Ends, when-false-Ends}

module _ {Cid : Type 0} (L : Logging Cid) where
  pub finalized-state :
      (s : SectorInfo Cid)
      → s.state ≡ SectorState.finalize_sector
      → (plan L (Event.sector_finalized ∷ []) s).0.state ≡ SectorState.proving
  unfolding plan planners rows plan_one apply_global EventType-discrete type_of is_mutator apply
  finalized-state = state_set L _ _ _ λ s. refl

  pub proving-state :
      (s : SectorInfo Cid)
      → s.state ≡ SectorState.commit_wait
      → (plan L (Event.sector_proving ∷ []) s).0.state ≡ SectorState.finalize_sector
  unfolding plan planners rows plan_one apply_global EventType-discrete type_of is_mutator apply
  proving-state = state_set L _ _ _ λ s. refl

  pub failed-state :
      (e : Error) (s : SectorInfo Cid)
      → s.state ≡ SectorState.finalize_sector
      → (plan L (Event.sector_finalize_failed e ∷ []) s).0.state ≡ SectorState.finalize_failed
  unfolding plan planners rows plan_one apply_global EventType-discrete type_of is_mutator apply
  failed-state e = state_set L _ _ _ λ s. refl

  pub retried-state :
      (s : SectorInfo Cid)
      → s.state ≡ SectorState.finalize_failed
      → (plan L (Event.sector_retry_finalize ∷ []) s).0.state ≡ SectorState.finalize_sector
  unfolding plan planners rows plan_one apply_global EventType-discrete type_of is_mutator apply
  retried-state = state_set L _ _ _ λ s. refl

module _ {Cid Address World : Type 0} (m : Sealing Cid Address World) where
  -- The handler of CommitWait, if the message landed.
  pub commit_wait-Ends :
      (s : SectorInfo Cid) (message : Cid)
      → s.commit_message ≡ some message
      → ((w : World)
          → (mw : MsgLookup) × ((m.api.state_wait_msg message w).0 ≡ ok mw)
            × (mw.receipt.exit_code ≡ ℤ.pos 0))
      → ((tok : Bytes) (w : World)
          → (m.api.state_sector_get_info m.maddr s.sector_number tok w).0 ≡ ok tt)
      → (w : World) → Ends (handle_commit_wait m s) w (sends Event.sector_proving)
  unfolding handle_commit_wait
  commit_wait-Ends s message has lands known w =
      let (mw, is, zero_code) = lands w in
      on_nil-Ends _ _ w has (
        attempt-Ends _ _ _ w is (
          when-false-Ends _ _ _ (rw zero_code refl)
            (attempt-Ends _ _ _ _ (known _ _) (pure-Ends _))))
