-- ===== src/Fsm/Table.antt =====
-- fsm.go: `planOne`, `planCommitting`, `final` and `fsmPlanners`. A planner changes the record and
-- accepts the batch or refuses it with an error; a failed type assertion is a panic.
use storage_fsm.Base.{Bool, true, false, ◌&&◌, Option, none, some, List, [], ◌∷◌}
use storage_fsm.Base.{Error, errorf, ite, bytes_equal}
use storage_fsm.Base.Int.{eqb_ℤ}
use storage_fsm.Sector.{SectorState, SectorInfo}
use storage_fsm.Events.{Event, EventType, type_of, apply, apply_global, is_mutator}

pub data Verdict : Type 0 where
  planned : Verdict
  refused : Error → Verdict
  panicked : Verdict

unfoldable pub EventType-discrete : Discrete EventType
EventType-discrete = hlevel

-- What one round of the loop of `planCommitting` decides.
pub data Round (Cid : Type 0) : Type 0 where
  goes_on : SectorInfo Cid → Round Cid
  returns : SectorInfo Cid → Verdict → Round Cid

abbrev pub Row : Type 0
Row = EventType × SectorState

-- `on(mut, next)`, with the mutator given by its type.
abbrev pub on : EventType → SectorState → Row
on t next = (t, next)

abbrev pub Planner : Type 0 → Type 0
Planner Cid = List (Event Cid) → SectorInfo Cid → SectorInfo Cid × Verdict

module _ {Cid : Type 0} where
  -- A global event is applied, and that ends the planning; `applyGlobal`'s result is ignored.
  abbrev pub global_or :
      Option (SectorInfo Cid × Bool) → SectorInfo Cid × Verdict → SectorInfo Cid × Verdict
  global_or none r = r
  global_or (some (s, stop)) r = (s, planned)

  -- The loop over a batch of none or several events: the first global event is applied.
  unfoldable pub first_global : Planner Cid
  first_global [] s =
      (s, refused (errorf "planner for state %s only has a plan for a single event"))
  first_global (e ∷ es) s = global_or (apply_global e s) (first_global es s)

  -- The row that fits: the assertion `events[0].User.(mutator)`, `apply` and the new state.
  unfoldable pub take_row :
      Bool → Event Cid → SectorState → SectorInfo Cid → SectorInfo Cid × Verdict
  take_row true e next s = (record (apply e s) { state = next }, planned)
  take_row false e next s = (s, panicked)

  -- The loop over the rows, for a single event.
  unfoldable pub first_row : List Row → Event Cid → SectorInfo Cid → SectorInfo Cid × Verdict
  unfolding take_row
  first_row [] e s = (s, refused (errorf "planner for state %s received unexpected event %T"))
  first_row ((t, next) ∷ ts) e s =
      ite (EventType-discrete (type_of e) t) (take_row (is_mutator e) e next s) (first_row ts e s)

  unfoldable pub plan_one : List Row → Planner Cid
  unfolding first_global first_row
  plan_one ts [] s = first_global [] s
  plan_one ts (e ∷ []) s = global_or (apply_global e s) (first_row ts e s)
  plan_one ts (e ∷ f ∷ es) s = first_global (e ∷ f ∷ es) s

  abbrev on_global : SectorInfo Cid → Option (SectorInfo Cid × Bool) → Round Cid
  on_global s none = goes_on s
  on_global s (some (s', true)) = returns s' planned
  on_global s (some (s', false)) = goes_on s'

  -- The `switch` in the loop; the global events come first.
  unfoldable pub committing_round : Event Cid → SectorInfo Cid → Round Cid
  committing_round Event.sector_restart s = on_global s (apply_global Event.sector_restart s)
  committing_round (Event.sector_fatal_error e) s =
      on_global s (apply_global (Event.sector_fatal_error e) s)
  committing_round (Event.sector_force_state st) s =
      on_global s (apply_global (Event.sector_force_state st) s)
  committing_round (Event.sector_committed m p) s =
      goes_on (record (apply (Event.sector_committed m p) s) { state = SectorState.commit_wait })
  committing_round (Event.sector_seed_ready v e) s =
      elim (eqb_ℤ e s.seed_epoch && bytes_equal v s.seed_value) [
        | true ↦ goes_on s
        | false ↦
            returns
              (record (apply (Event.sector_seed_ready v e) s) { state = SectorState.committing })
              planned
      ]
  committing_round (Event.sector_compute_proof_failed e) s =
      goes_on (record s { state = SectorState.compute_proof_failed })
  committing_round (Event.sector_seal_pre_commit1_failed e) s =
      goes_on (record s { state = SectorState.seal_pre_commit1_failed })
  committing_round (Event.sector_commit_failed e) s =
      goes_on (record s { state = SectorState.commit_failed })
  committing_round _ s = returns s (refused (errorf "planCommitting got event of unknown type %T"))

  -- The next round, or the early return.
  abbrev pub resume :
      (SectorInfo Cid → SectorInfo Cid × Verdict) → Round Cid → SectorInfo Cid × Verdict
  resume rest (goes_on s) = rest s
  resume rest (returns s v) = (s, v)

  unfoldable pub plan_committing : Planner Cid
  unfolding committing_round
  plan_committing [] s = (s, planned)
  plan_committing (e ∷ es) s = resume (plan_committing es) (committing_round e s)

  unfoldable pub final : Planner Cid
  final events s = (s, refused (errorf "didn't expect any events in state %s"))

-- The rows of `fsmPlanners` for the states planned by `planOne`.
unfoldable pub rows : SectorState → Option (List Row)
rows SectorState.undefined_sector_state = some (on EventType.start SectorState.packing ∷ [])
rows SectorState.packing = some (on EventType.packed SectorState.pre_commit1 ∷ [])
rows SectorState.pre_commit1 = some (
    on EventType.pre_commit1_done SectorState.pre_commit2
    ∷ on EventType.seal1_failed SectorState.seal_pre_commit1_failed
    ∷ on EventType.packing_failed SectorState.packing_failed
    ∷ [])
rows SectorState.pre_commit2 = some (
    on EventType.pre_commit2_done SectorState.pre_committing
    ∷ on EventType.seal2_failed SectorState.seal_pre_commit2_failed
    ∷ on EventType.packing_failed SectorState.packing_failed
    ∷ [])
rows SectorState.pre_committing = some (
    on EventType.seal1_failed SectorState.seal_pre_commit1_failed
    ∷ on EventType.pre_committed SectorState.pre_commit_wait
    ∷ on EventType.chain_pre_commit_failed SectorState.pre_commit_failed
    ∷ on EventType.pre_commit_landed SectorState.wait_seed
    ∷ [])
rows SectorState.pre_commit_wait = some (
    on EventType.chain_pre_commit_failed SectorState.pre_commit_failed
    ∷ on EventType.pre_commit_landed SectorState.wait_seed
    ∷ [])
rows SectorState.wait_seed = some (
    on EventType.seed_ready SectorState.committing
    ∷ on EventType.chain_pre_commit_failed SectorState.pre_commit_failed
    ∷ [])
rows SectorState.commit_wait = some (
    on EventType.proving SectorState.finalize_sector
    ∷ on EventType.commit_failed SectorState.commit_failed
    ∷ [])
rows SectorState.finalize_sector = some (
    on EventType.finalized SectorState.proving
    ∷ on EventType.finalize_failed SectorState.finalize_failed
    ∷ [])
rows SectorState.seal_pre_commit1_failed =
    some (on EventType.retry_seal1 SectorState.pre_commit1 ∷ [])
rows SectorState.seal_pre_commit2_failed = some (
    on EventType.retry_seal1 SectorState.pre_commit1
    ∷ on EventType.retry_seal2 SectorState.pre_commit2
    ∷ [])
rows SectorState.pre_commit_failed = some (
    on EventType.retry_pre_commit SectorState.pre_committing
    ∷ on EventType.retry_wait_seed SectorState.wait_seed
    ∷ on EventType.seal1_failed SectorState.seal_pre_commit1_failed
    ∷ on EventType.pre_commit_landed SectorState.wait_seed
    ∷ [])
rows SectorState.compute_proof_failed = some (
    on EventType.retry_compute_proof SectorState.committing
    ∷ on EventType.seal1_failed SectorState.seal_pre_commit1_failed
    ∷ [])
rows SectorState.commit_failed = some (
    on EventType.seal1_failed SectorState.seal_pre_commit1_failed
    ∷ on EventType.retry_wait_seed SectorState.wait_seed
    ∷ on EventType.retry_compute_proof SectorState.committing
    ∷ on EventType.retry_invalid_proof SectorState.committing
    ∷ on EventType.retry_pre_commit_wait SectorState.pre_commit_wait
    ∷ [])
rows SectorState.finalize_failed =
    some (on EventType.retry_finalize SectorState.finalize_sector ∷ [])
rows SectorState.proving = some (
    on EventType.fault_reported SectorState.fault_reported
    ∷ on EventType.faulty SectorState.faulty
    ∷ on EventType.remove SectorState.removing
    ∷ [])
rows SectorState.removing = some (
    on EventType.removed SectorState.removed
    ∷ on EventType.remove_failed SectorState.remove_failed
    ∷ [])
rows SectorState.faulty = some (on EventType.fault_reported SectorState.fault_reported ∷ [])
rows _ = none

-- `fsmPlanners`; `none` for a state that the map lacks.
unfoldable pub planners : {Cid : Type 0} → SectorState → Option (Planner Cid)
unfolding rows
planners SectorState.committing = some plan_committing
planners SectorState.faulted_final = some final
planners SectorState.removed = some final
planners s = elim (rows s) [ none ↦ none | some ts ↦ some (plan_one ts) ]
