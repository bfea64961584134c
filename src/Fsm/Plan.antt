-- ===== src/Fsm/Plan.antt =====
-- fsm.go: `plan` and `Plan`, the log of the events, and the choice of the handler to run next.
use mathlib.Core.Bool.{cond}
use storage_fsm.Base.{ℕ, ◌+◌, Option, none, some, List, [], ◌∷◌, ◌++◌}
use storage_fsm.Base.{String, Error, errorf, wrapf, length}
use storage_fsm.Sector.{SectorState, SectorInfo, Log}
use storage_fsm.Events.{Event, is_formatter}
use storage_fsm.Fsm.Table.{Verdict, planned, refused, panicked, Planner, planners}

-- The handlers that `plan` can return.
pub data Handler : Type 0 where
  handle_packing handle_pre_commit1 handle_pre_commit2 handle_pre_committing : Handler
  handle_pre_commit_wait handle_wait_seed handle_committing handle_commit_wait : Handler
  handle_finalize_sector handle_seal_precommit1_failed handle_seal_precommit2_failed : Handler
  handle_pre_commit_failed handle_compute_proof_failed handle_commit_failed : Handler
  handle_finalize_failed handle_removing handle_faulty handle_fault_reported : Handler

-- The `switch` at the end of `plan`.
unfoldable pub handler_of : SectorState → Option Handler
handler_of SectorState.packing = some handle_packing
handler_of SectorState.pre_commit1 = some handle_pre_commit1
handler_of SectorState.pre_commit2 = some handle_pre_commit2
handler_of SectorState.pre_committing = some handle_pre_committing
handler_of SectorState.pre_commit_wait = some handle_pre_commit_wait
handler_of SectorState.wait_seed = some handle_wait_seed
handler_of SectorState.committing = some handle_committing
handler_of SectorState.commit_wait = some handle_commit_wait
handler_of SectorState.finalize_sector = some handle_finalize_sector
handler_of SectorState.seal_pre_commit1_failed = some handle_seal_precommit1_failed
handler_of SectorState.seal_pre_commit2_failed = some handle_seal_precommit2_failed
handler_of SectorState.pre_commit_failed = some handle_pre_commit_failed
handler_of SectorState.compute_proof_failed = some handle_compute_proof_failed
handler_of SectorState.commit_failed = some handle_commit_failed
handler_of SectorState.finalize_failed = some handle_finalize_failed
handler_of SectorState.removing = some handle_removing
handler_of SectorState.faulty = some handle_faulty
handler_of SectorState.fault_reported = some handle_fault_reported
handler_of _ = none

-- What logging an event takes from outside: the clock at the event's place in the batch,
-- `json.Marshal`, and the `%T` and `%+v` texts of the event.
pub record Logging (Cid : Type 0) : Type 0 where
  pub now : ℕ → ℕ
  pub marshal : Event Cid → Option String
  pub kind_text : Event Cid → String
  pub trace_text : Event Cid → String

-- The outcome of `plan`: what to run next, an error, or a failed type assertion.
pub data Planned : Type 0 where
  next : Option Handler → Planned
  fails : Error → Planned
  panics : Planned

module _ {Cid : Type 0} (L : Logging Cid) where
  abbrev pub log_entry : ℕ → Event Cid → String → Log
  log_entry i e message = record {
    timestamp = L.now i;
    trace = cond (is_formatter e) (L.trace_text e) "";
    message = message;
    kind = L.kind_text e;
  }

  -- The first loop of `plan`: an event that does not marshal is skipped.
  unfoldable pub log_events : ℕ → List (Event Cid) → List Log → List Log
  log_events i [] log = log
  log_events i (e ∷ es) log =
      log_events (i + 1) es
        (elim (L.marshal e) [ none ↦ log | some m ↦ log ++ log_entry i e m ∷ [] ])

  abbrev pub conclude : SectorInfo Cid × Verdict → SectorInfo Cid × Planned
  conclude (s, planned) = (s, next (handler_of s.state))
  conclude (s, refused e) = (s, fails (wrapf "running planner for state %s failed: %w" e))
  conclude (s, panicked) = (s, panics)

  -- The planner found in the map, run on the record with the longer log.
  abbrev pub plan_by :
      List (Event Cid) → SectorInfo Cid → Option (Planner Cid) → SectorInfo Cid × Planned
  plan_by events s none = (s, fails (errorf "planner for state %s not found"))
  plan_by events s (some p) = conclude (p events s)

  unfoldable pub plan : List (Event Cid) → SectorInfo Cid → SectorInfo Cid × Planned
  unfolding log_events handler_of
  plan events s =
      let s' = record s { log = log_events 0 events s.log } in plan_by events s' (planners s'.state)

  -- `Plan`, which the state-machine library calls: the record after the events, the handler to
  -- run, the number of events taken, and the error.
  unfoldable pub plan_batch :
      List (Event Cid)
      → SectorInfo Cid
      → SectorInfo Cid × record { handler : Option Handler; taken : ℕ; error : Option Error }
  unfolding plan
  plan_batch events s =
      let (s', r) = plan events s in
      elim r [
        | next h ↦ (s', record { handler = h; taken = length events; error = none })
        | fails e ↦ (s', record { handler = none; taken = length events; error = some e })
        | panics ↦ (s', record { handler = none; taken = 0; error = none })
      ]
