-- ===== src/System/Seals/Records.antt =====
-- The records after the events that seal a sector.
use storage_fsm.Base.{◌≡◌, refl, some, List, [], ◌∷◌, Bytes}
use storage_fsm.Base.Int.{ℤ}
use storage_fsm.Sector.{SectorState, SectorInfo, PieceInfo}
use storage_fsm.Events.{Event, type_of, is_mutator, apply, apply_global}
use storage_fsm.Fsm.Table.{EventType-discrete, plan_one, rows, planners}
use storage_fsm.Fsm.Plan.{Logging, log_events, plan}
use storage_fsm.System.Run.{after_event, after_set}
use storage_fsm.System.Seals.Packed.{with_fillers}

module _ {Cid : Type 0} (L : Logging Cid) where
  abbrev pub packed : List (PieceInfo Cid) → SectorInfo Cid → SectorInfo Cid
  packed qs s = record s {
    state = SectorState.pre_commit1;
    pieces = with_fillers s.pieces qs;
    log = log_events L 0 (Event.sector_packed qs ∷ []) s.log;
  }

  abbrev pub replicated : Bytes → Bytes → ℤ → SectorInfo Cid → SectorInfo Cid
  replicated out value epoch s = record s {
    state = SectorState.pre_commit2;
    pre_commit1_out = out;
    ticket_value = value;
    ticket_epoch = epoch;
    pre_commit2_fails = 0;
    log = log_events L 0 (Event.sector_pre_commit1 out value epoch ∷ []) s.log;
  }

  abbrev pub sealed : Cid → Cid → SectorInfo Cid → SectorInfo Cid
  sealed r d s = record s {
    state = SectorState.pre_committing;
    comm_d = some d;
    comm_r = some r;
    log = log_events L 0 (Event.sector_pre_commit2 r d ∷ []) s.log;
  }

  abbrev pub submitted : Cid → SectorInfo Cid → SectorInfo Cid
  submitted message s = record s {
    state = SectorState.pre_commit_wait;
    pre_commit_message = some message;
    log = log_events L 0 (Event.sector_pre_committed message ∷ []) s.log;
  }

  pub packed_after :
      (qs : List (PieceInfo Cid)) (s : SectorInfo Cid)
      → s.state ≡ SectorState.packing
      → after_event L (Event.sector_packed qs) s ≡ packed qs s
  unfolding plan planners rows plan_one apply_global EventType-discrete type_of is_mutator apply
  packed_after qs = after_set L _ _ _ λ s. refl

  pub replicated_after :
      (out value : Bytes) (epoch : ℤ) (s : SectorInfo Cid)
      → s.state ≡ SectorState.pre_commit1
      → after_event L (Event.sector_pre_commit1 out value epoch) s ≡ replicated out value epoch s
  unfolding plan planners rows plan_one apply_global EventType-discrete type_of is_mutator apply
  replicated_after out value epoch = after_set L _ _ _ λ s. refl

  pub sealed_after :
      (r d : Cid) (s : SectorInfo Cid)
      → s.state ≡ SectorState.pre_commit2
      → after_event L (Event.sector_pre_commit2 r d) s ≡ sealed r d s
  unfolding plan planners rows plan_one apply_global EventType-discrete type_of is_mutator apply
  sealed_after r d = after_set L _ _ _ λ s. refl

  pub submitted_after :
      (message : Cid) (s : SectorInfo Cid)
      → s.state ≡ SectorState.pre_committing
      → after_event L (Event.sector_pre_committed message) s ≡ submitted message s
  unfolding plan planners rows plan_one apply_global EventType-discrete type_of is_mutator apply
  submitted_after message = after_set L _ _ _ λ s. refl
