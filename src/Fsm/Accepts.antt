-- ===== src/Fsm/Accepts.antt =====
-- Which single events the table plans in a state.
use storage_fsm.Base.{◌≡◌, refl, Bool, true, false, Option, none, some, List}
use storage_fsm.Base.{[], ◌∷◌, ite, arith}
use storage_fsm.Sector.{SectorState, SectorInfo}
use storage_fsm.Events.{Event, EventType, type_of, is_mutator, apply_global}
use storage_fsm.Fsm.Table.{
  Row, Planner, Verdict, planned, EventType-discrete, first_row, global_or, plan_one,
  plan_committing, rows, planners,
}
use storage_fsm.Fsm.Plan.{Logging, log_events, next, conclude, plan_by, plan, handler_of}
use storage_fsm.Fsm.Rules.{rows_of}

abbrev pub names : EventType → List Row → Bool
names t [] = false
names t ((u, st) ∷ ts) = ite (EventType-discrete t u) true (names t ts)

-- The types that the loop of `planCommitting` plans, beside the global ones.
abbrev pub committing_names : EventType → Bool
committing_names EventType.committed = true
committing_names EventType.seed_ready = true
committing_names EventType.proof_failed = true
committing_names EventType.seal1_failed = true
committing_names EventType.commit_failed = true
committing_names _ = false

abbrev pub is_committing : SectorState → Bool
is_committing SectorState.committing = true
is_committing _ = false

-- The state has a plan for events of this type.
abbrev pub plans : SectorState → EventType → Bool
plans st t = elim (is_committing st) [ true ↦ committing_names t | false ↦ names t (rows_of st) ]

module _ {Cid : Type 0} where
  first_row-planned :
      (ts : List Row) (e : Event Cid) (s : SectorInfo Cid)
      → is_mutator e ≡ true
      → names (type_of e) ts ≡ true
      → (first_row ts e s).1 ≡ planned
  unfolding first_row
  first_row-planned [] e s mut n = cc
  first_row-planned ((t, st) ∷ ts) e s mut n = ground (arith, first_row-planned ts e s mut)

  plan_one-planned :
      (ts : List Row) (e : Event Cid) (s : SectorInfo Cid)
      → is_mutator e ≡ true
      → names (type_of e) ts ≡ true
      → (plan_one ts (e ∷ []) s).1 ≡ planned
  unfolding plan_one
  plan_one-planned ts e s mut n = either (apply_global e s)
    where
      either : (o : Option (SectorInfo Cid × Bool)) → (global_or o (first_row ts e s)).1 ≡ planned
      either none = first_row-planned ts e s mut n
      either (some (t, stop)) = refl

  plan_committing-planned :
      (e : Event Cid) (s : SectorInfo Cid)
      → committing_names (type_of e) ≡ true
      → (plan_committing (e ∷ []) s).1 ≡ planned
  unfolding plan_committing type_of
  plan_committing-planned (Event.sector_committed m p) s h = refl
  plan_committing-planned (Event.sector_seed_ready v e) s h = ground arith
  plan_committing-planned (Event.sector_compute_proof_failed e) s h = refl
  plan_committing-planned (Event.sector_seal_pre_commit1_failed e) s h = refl
  plan_committing-planned (Event.sector_commit_failed e) s h = refl
  plan_committing-planned _ s h = absurd (ground arith)

  abbrev PlansOne : Event Cid → Option (Planner Cid) → Type 0
  PlansOne e none = ⊥
  PlansOne e (some p) = (s : SectorInfo Cid) → (p (e ∷ []) s).1 ≡ planned

  module _ (e : Event Cid) (mut : is_mutator e ≡ true) where
    from_rows :
        (o : Option (List Row))
        → names (type_of e) (elim o [ none ↦ [] | some ts ↦ ts ]) ≡ true
        → PlansOne e (elim o [ none ↦ none | some ts ↦ some (plan_one ts) ])
    from_rows none n = absurd (ground arith)
    from_rows (some ts) n = λ s. plan_one-planned ts e s mut n

    planners-planned : (st : SectorState) → plans st (type_of e) ≡ true → PlansOne e (planners st)
    unfolding planners
    planners-planned SectorState.committing n = λ s. plan_committing-planned e s n
    planners-planned SectorState.faulted_final n = absurd (unfold rows in (ground arith))
    planners-planned SectorState.removed n = absurd (unfold rows in (ground arith))
    planners-planned st n = from_rows (rows st) n

    -- An event that the state plans is accepted, and the next handler is that of the new state.
    pub plan-accepts :
        (L : Logging Cid) (s : SectorInfo Cid)
        → plans s.state (type_of e) ≡ true
        → (plan L (e ∷ []) s).1 ≡ next (handler_of (plan L (e ∷ []) s).0.state)
    unfolding plan
    plan-accepts L s n = by (planners s.state) (planners-planned s.state n)
      where
        t : SectorInfo Cid
        t = record s { log = log_events L 0 (e ∷ []) s.log }

        done :
            (r : SectorInfo Cid × Verdict)
            → r.1 ≡ planned
            → (conclude L r).1 ≡ next (handler_of (conclude L r).0.state)
        done (x, Verdict.planned) h = refl
        done (x, Verdict.refused f) h = absurd (ground arith)
        done (x, Verdict.panicked) h = absurd (ground arith)

        by :
            (o : Option (Planner Cid))
            → PlansOne e o
            → (plan_by L (e ∷ []) t o).1 ≡ next (handler_of (plan_by L (e ∷ []) t o).0.state)
        by none k = absurd k
        by (some p) k = done (p (e ∷ []) t) (k t)
