-- ===== src/Fsm/LifeCycle.antt =====
-- The life of a sector in stages, an abstract machine that the table of planners refines.
use storage_fsm.Base.{sym, subst, Option, none, some, List, [], All, arith}
use storage_fsm.Sector.{SectorState, SectorInfo}
use storage_fsm.Events.{Event, apply_global}
use storage_fsm.Fsm.Table.{Row, plan_one, committing_round, final, rows, planners}
use storage_fsm.Fsm.Plan.{Logging, plan}
use storage_fsm.Fsm.Rules.{
  Unforced, rows_of, RowKeeps, RoundKeeps, GlobalKeeps, PlannerKeeps, plan_one-keeps,
  plan_committing-keeps, planned-keeps,
}

-- In `replicating` the sector is sealed, in `announcing` its replica is announced to the chain, in
-- `awaiting` it waits for a seed and for its proof.
pub data Stage : Type 0 where
  fresh filling replicating announcing awaiting finalizing live faulted removing gone : Stage
  outside : Stage

pub stage_of : SectorState → Stage
stage_of SectorState.undefined_sector_state = fresh
stage_of SectorState.packing = filling
stage_of SectorState.pre_commit1 = replicating
stage_of SectorState.pre_commit2 = replicating
stage_of SectorState.seal_pre_commit1_failed = replicating
stage_of SectorState.seal_pre_commit2_failed = replicating
stage_of SectorState.pre_committing = announcing
stage_of SectorState.pre_commit_wait = announcing
stage_of SectorState.pre_commit_failed = announcing
stage_of SectorState.wait_seed = awaiting
stage_of SectorState.committing = awaiting
stage_of SectorState.compute_proof_failed = awaiting
stage_of SectorState.commit_wait = awaiting
stage_of SectorState.commit_failed = awaiting
stage_of SectorState.finalize_sector = finalizing
stage_of SectorState.finalize_failed = finalizing
stage_of SectorState.proving = live
stage_of SectorState.faulty = faulted
stage_of SectorState.fault_reported = faulted
stage_of SectorState.removing = removing
stage_of SectorState.packing_failed = gone
stage_of SectorState.remove_failed = gone
stage_of SectorState.removed = gone
stage_of _ = outside

-- The steps of the abstract machine.
pub data Moves : Stage → Stage → Type 0 where
  stays : {a : Stage} → Moves a a
  starts : Moves fresh filling
  packs : Moves filling replicating
  gives_up : Moves replicating gone
  replicates : Moves replicating announcing
  reseals : Moves announcing replicating
  lands : Moves announcing awaiting
  announces_again : Moves awaiting announcing
  reseals_again : Moves awaiting replicating
  proves : Moves awaiting finalizing
  finalizes : Moves finalizing live
  faults : Moves live faulted
  retires : Moves live removing
  leaves : Moves removing gone

module _ (Cid : Type 0) where
  -- From this stage, whatever the record.
  abbrev From : Stage → SectorState → SectorInfo Cid → Type 0
  From a st s = Moves a (stage_of st)

  globals :
      (a : Stage) (e : Event Cid) (s : SectorInfo Cid)
      → Unforced e
      → From a s.state s
      → GlobalKeeps (From a) Unforced (apply_global e s)
  unfolding apply_global
  globals a (Event.sector_force_state st) s u m = absurd (ground arith)
  globals a Event.sector_restart s u m = m
  globals a (Event.sector_fatal_error e) s u m = m
  globals a _ s u m = tt

  rounds :
      (e : Event Cid) (s : SectorInfo Cid)
      → Unforced e
      → From awaiting SectorState.committing s
      → From awaiting s.state s
      → RoundKeeps (From awaiting) Unforced (committing_round e s)
  unfolding committing_round apply_global stage_of
  rounds (Event.sector_committed m p) s u c q = (c, stays)
  rounds (Event.sector_seed_ready v e) s u c q = ground arith
  rounds Event.sector_restart s u c q = (c, q)
  rounds (Event.sector_fatal_error e) s u c q = q
  rounds (Event.sector_force_state st) s u c q = absurd (ground arith)
  rounds (Event.sector_compute_proof_failed e) s u c q = (c, stays)
  rounds (Event.sector_seal_pre_commit1_failed e) s u c q = (c, reseals_again)
  rounds (Event.sector_commit_failed e) s u c q = (c, stays)
  rounds _ s u c q = q

  abbrev Leads : SectorState → Row → Type 0
  Leads st = RowKeeps (From (stage_of st)) Unforced st

  table : (st : SectorState) → All (Leads st) (rows_of st)
  unfolding rows stage_of
  table SectorState.undefined_sector_state = (λ e s u k q. starts, tt)
  table SectorState.packing = (λ e s u k q. packs, tt)
  table SectorState.pre_commit1 =
      (λ e s u k q. stays, (λ e s u k q. stays, (λ e s u k q. gives_up, tt)))
  table SectorState.pre_commit2 =
      (λ e s u k q. replicates, (λ e s u k q. stays, (λ e s u k q. gives_up, tt)))
  table SectorState.pre_committing =
      (λ e s u k q. reseals, (λ e s u k q. stays, (λ e s u k q. stays, (λ e s u k q. lands, tt))))
  table SectorState.pre_commit_wait = (λ e s u k q. stays, (λ e s u k q. lands, tt))
  table SectorState.wait_seed = (λ e s u k q. stays, (λ e s u k q. announces_again, tt))
  table SectorState.commit_wait = (λ e s u k q. proves, (λ e s u k q. stays, tt))
  table SectorState.finalize_sector = (λ e s u k q. finalizes, (λ e s u k q. stays, tt))
  table SectorState.seal_pre_commit1_failed = (λ e s u k q. stays, tt)
  table SectorState.seal_pre_commit2_failed = (λ e s u k q. stays, (λ e s u k q. stays, tt))
  table SectorState.pre_commit_failed =
      (λ e s u k q. stays, (λ e s u k q. lands, (λ e s u k q. reseals, (λ e s u k q. lands, tt))))
  table SectorState.compute_proof_failed = (λ e s u k q. stays, (λ e s u k q. reseals_again, tt))
  table SectorState.commit_failed = (
    λ e s u k q. reseals_again,
    (
      λ e s u k q. stays,
      (λ e s u k q. stays, (λ e s u k q. stays, (λ e s u k q. announces_again, tt))),
    ),
  )
  table SectorState.finalize_failed = (λ e s u k q. stays, tt)
  table SectorState.proving =
      (λ e s u k q. faults, (λ e s u k q. faults, (λ e s u k q. retires, tt)))
  table SectorState.removing = (λ e s u k q. leaves, (λ e s u k q. leaves, tt))
  table SectorState.faulty = (λ e s u k q. stays, tt)
  table _ = tt

  from_rows :
      (st : SectorState) (o : Option (List Row))
      → All (Leads st) (elim o [ none ↦ [] | some ts ↦ ts ])
      → PlannerKeeps
          (From (stage_of st))
          Unforced
          st
          (elim o [ none ↦ none | some ts ↦ some (plan_one ts) ])
  from_rows st none k = tt
  from_rows st (some ts) k = λ es s at u q.
      plan_one-keeps (From (stage_of st)) Unforced (globals (stage_of st)) ts st es s at u k q

  planners-Moves : (st : SectorState) → PlannerKeeps (From (stage_of st)) Unforced st (planners st)
  unfolding planners final stage_of
  planners-Moves SectorState.committing = λ es s at u q.
      plan_committing-keeps (From awaiting) Unforced (globals awaiting) rounds es s u stays
        (subst (λ x. Moves awaiting (stage_of x)) (sym at) q)
  planners-Moves SectorState.faulted_final =
      λ es s at u q. subst (λ x. Moves outside (stage_of x)) (sym at) q
  planners-Moves SectorState.removed =
      λ es s at u q. subst (λ x. Moves gone (stage_of x)) (sym at) q
  planners-Moves st = from_rows st (rows st) (table st)

module _ {Cid : Type 0} where
  -- A batch with no forced state moves the sector by at most one step of the abstract machine.
  pub plan-Moves :
      (L : Logging Cid) (es : List (Event Cid)) (s : SectorInfo Cid)
      → All Unforced es
      → Moves (stage_of s.state) (stage_of (plan L es s).0.state)
  plan-Moves L es s u =
      planned-keeps (From Cid (stage_of s.state)) Unforced L es s u (planners-Moves Cid s.state)
        stays
