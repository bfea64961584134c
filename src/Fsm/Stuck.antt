-- ===== src/Fsm/Stuck.antt =====
-- fsm.go: the states with no planner, and those with the planner `final`.
use storage_fsm.Base.{◌≡◌, refl, ap, Bool, true, false, Option, none, some, List, [], ◌∷◌}
use storage_fsm.Base.{Error, wrapf, arith}
use storage_fsm.Sector.{SectorState, SectorInfo}
use storage_fsm.Events.{Event, apply_global}
use storage_fsm.Fsm.Table.{
  Planner, planned, refused, plan_one, plan_committing, final, rows, planners,
}
use storage_fsm.Fsm.Plan.{Logging, log_events, fails, conclude, plan_by, plan}

-- The states that the map of planners lacks, and those with the planner `final`.
abbrev pub is_stuck : SectorState → Bool
is_stuck SectorState.empty = true
is_stuck SectorState.failed_unrecoverable = true
is_stuck SectorState.packing_failed = true
is_stuck SectorState.fault_reported = true
is_stuck SectorState.faulted_final = true
is_stuck SectorState.remove_failed = true
is_stuck SectorState.removed = true
is_stuck (SectorState.other name) = true
is_stuck _ = false

abbrev RefusesAll : {Cid : Type 0} → Option (Planner Cid) → Type 0
RefusesAll none = Unit
RefusesAll {Cid} (some p) =
    (es : List (Event Cid)) (s : SectorInfo Cid) → (e : Error) × (p es s ≡ (s, refused e))

stuck-RefusesAll :
    (Cid : Type 0) (st : SectorState) → is_stuck st ≡ true → RefusesAll {Cid = Cid} (planners st)
unfolding planners rows final
stuck-RefusesAll Cid SectorState.empty h = tt
stuck-RefusesAll Cid SectorState.failed_unrecoverable h = tt
stuck-RefusesAll Cid SectorState.packing_failed h = tt
stuck-RefusesAll Cid SectorState.fault_reported h = tt
stuck-RefusesAll Cid SectorState.faulted_final h = λ es s. (_, refl)
stuck-RefusesAll Cid SectorState.remove_failed h = tt
stuck-RefusesAll Cid SectorState.removed h = λ es s. (_, refl)
stuck-RefusesAll Cid (SectorState.other name) h = tt
stuck-RefusesAll Cid _ h = absurd (ground arith)

abbrev ForcedBy : {Cid : Type 0} → Option (Planner Cid) → Type 0
ForcedBy none = ⊥
ForcedBy {Cid} (some p) =
    (st : SectorState) (s : SectorInfo Cid)
    → p (Event.sector_force_state st ∷ []) s ≡ (record s { state = st }, planned)

free-ForcedBy :
    (Cid : Type 0) (st : SectorState) → is_stuck st ≡ false → ForcedBy {Cid = Cid} (planners st)
unfolding planners rows plan_committing apply_global plan_one
free-ForcedBy Cid SectorState.committing h = λ st s. refl
free-ForcedBy Cid SectorState.empty h = absurd (ground arith)
free-ForcedBy Cid SectorState.failed_unrecoverable h = absurd (ground arith)
free-ForcedBy Cid SectorState.packing_failed h = absurd (ground arith)
free-ForcedBy Cid SectorState.fault_reported h = absurd (ground arith)
free-ForcedBy Cid SectorState.faulted_final h = absurd (ground arith)
free-ForcedBy Cid SectorState.remove_failed h = absurd (ground arith)
free-ForcedBy Cid SectorState.removed h = absurd (ground arith)
free-ForcedBy Cid (SectorState.other name) h = absurd (ground arith)
free-ForcedBy Cid _ h = λ st s. refl

module _ {Cid : Type 0} (L : Logging Cid) where
  -- In the states Empty, FailedUnrecoverable, PackingFailed, FaultReported, FaultedFinal,
  -- RemoveFailed and Removed, and in any that is no constant of the program, every batch ends in
  -- an error and changes only the log: restarts and forced states too.
  pub stuck_state_refuses :
      (es : List (Event Cid)) (s : SectorInfo Cid)
      → is_stuck s.state ≡ true
      → (e : Error) × (plan L es s ≡ (record s { log = log_events L 0 es s.log }, fails e))
  unfolding plan
  stuck_state_refuses es s h = by (planners s.state) (stuck-RefusesAll Cid s.state h)
    where
      t : SectorInfo Cid
      t = record s { log = log_events L 0 es s.log }

      by :
          (o : Option (Planner Cid))
          → RefusesAll o
          → (e : Error) × (plan_by L es t o ≡ (t, fails e))
      by none k = (_, refl)
      by (some p) k =
          let (e, r) = k es t in
          (wrapf "running planner for state %s failed: %w" e, ap (conclude L) r)

  -- In every other state a forced state is taken over, whatever it is.
  pub forced_state_applies :
      (st : SectorState) (s : SectorInfo Cid)
      → is_stuck s.state ≡ false
      → (plan L (Event.sector_force_state st ∷ []) s).0.state ≡ st
  unfolding plan
  forced_state_applies st s h = by (planners s.state) (free-ForcedBy Cid s.state h)
    where
      t : SectorInfo Cid
      t = record s { log = log_events L 0 (Event.sector_force_state st ∷ []) s.log }

      by :
          (o : Option (Planner Cid))
          → ForcedBy o
          → (plan_by L (Event.sector_force_state st ∷ []) t o).0.state ≡ st
      by none k = absurd k
      by (some p) k = ap (λ r. (conclude L r).0.state) (k st t)
