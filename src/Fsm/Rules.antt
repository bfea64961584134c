-- ===== src/Fsm/Rules.antt =====
-- The induction principle of the table of planners: a property of a state and a record that every
-- row and every round of `planCommitting` keeps is kept by a batch of events.
use storage_fsm.Base.{◌≡◌, refl, sym, subst, ◌⊎◌, inl, inr, Bool, true, false}
use storage_fsm.Base.{Option, none, some, List, [], ◌∷◌, All}
use storage_fsm.Base.{ite-rule}
use storage_fsm.Fsm.Plan.{Logging, log_events, conclude, plan_by, plan}
use storage_fsm.Sector.{SectorState, SectorInfo}
use storage_fsm.Events.{Event, type_of, apply, apply_global, is_mutator}
use storage_fsm.Fsm.Table.{
  Verdict, Round, goes_on, returns, Row, Planner, EventType-discrete, global_or, first_global,
  first_row, plan_one, take_row, resume, committing_round, plan_committing, final, rows, planners,
}

-- Every event but `SectorForceState`, with which an operator overrides the table.
abbrev pub is_forced : {Cid : Type 0} → Event Cid → Bool
is_forced (Event.sector_force_state st) = true
is_forced _ = false

abbrev pub Unforced : {Cid : Type 0} → Event Cid → Type 0
Unforced e = is_forced e ≡ false

abbrev pub rows_of : SectorState → List Row
unfolding rows
rows_of st = elim (rows st) [ none ↦ [] | some ts ↦ ts ]

module _ {Cid : Type 0} where
  -- A global event that is not forced changes nothing.
  pub apply_global-eq :
      (e : Event Cid) (s : SectorInfo Cid)
      → Unforced e
      → (apply_global e s ≡ none) ⊎ ((stop : Bool) × (apply_global e s ≡ some (s, stop)))
  unfolding apply_global
  apply_global-eq Event.sector_restart s u = inr (false, refl)
  apply_global-eq (Event.sector_fatal_error e) s u = inr (true, refl)
  apply_global-eq (Event.sector_force_state st) s u = elim (true_ne_false u) [ ]
    where
      true_ne_false : true ≡ false → ⊥
      true_ne_false h = cc
  apply_global-eq _ s u = inl refl

module _ {Cid : Type 0} (Q : SectorState → SectorInfo Cid → Type 0) (U : Event Cid → Type 0) where
  abbrev pub RowKeeps : SectorState → Row → Type 0
  RowKeeps st (t, next) =
      (e : Event Cid) (s : SectorInfo Cid)
      → U e
      → type_of e ≡ t
      → Q st s
      → Q next (record (apply e s) { state = next })

  -- In the loop of `planCommitting` the property holds at `committing` too, whatever the state.
  abbrev pub RoundKeeps : Round Cid → Type 0
  RoundKeeps (goes_on s) = Q SectorState.committing s × Q s.state s
  RoundKeeps (returns s v) = Q s.state s

  abbrev pub GlobalKeeps : Option (SectorInfo Cid × Bool) → Type 0
  GlobalKeeps none = Unit
  GlobalKeeps (some (s, stop)) = Q s.state s

  first_row-keeps :
      (ts : List Row) (st : SectorState) (e : Event Cid) (s : SectorInfo Cid)
      → s.state ≡ st
      → U e
      → All (RowKeeps st) ts
      → Q st s
      → Q (first_row ts e s).0.state (first_row ts e s).0
  unfolding first_row
  first_row-keeps [] st e s at u keep q = subst (λ x. Q x s) (sym at) q
  first_row-keeps ((t, next) ∷ ts) st e s at u keep q =
      ite-rule (λ (r : SectorInfo Cid × Verdict). Q r.0.state r.0)
        (EventType-discrete (type_of e) t) (λ h. taken (is_mutator e) h)
        (λ h. first_row-keeps ts st e s at u keep.1 q)
    where
      taken : (b : Bool) → type_of e ≡ t → Q (take_row b e next s).0.state (take_row b e next s).0
      taken true h = keep.0 e s u h q
      taken false h = subst (λ x. Q x s) (sym at) q

  global_or-keeps :
      (o : Option (SectorInfo Cid × Bool)) (r : SectorInfo Cid × Verdict)
      → GlobalKeeps o
      → Q r.0.state r.0
      → Q (global_or o r).0.state (global_or o r).0
  global_or-keeps none r k q = q
  global_or-keeps (some (s, stop)) r k q = k

  abbrev pub PlannerKeeps : SectorState → Option (Planner Cid) → Type 0
  PlannerKeeps st none = Unit
  PlannerKeeps st (some p) =
      (es : List (Event Cid)) (s : SectorInfo Cid)
      → s.state ≡ st
      → All U es
      → Q st s
      → Q (p es s).0.state (p es s).0

  -- What the planner of the record's state keeps, `plan` keeps.
  pub planned-keeps :
      (L : Logging Cid) (es : List (Event Cid)) (s : SectorInfo Cid)
      → All U es
      → PlannerKeeps s.state (planners s.state)
      → Q s.state (record s { log = log_events L 0 es s.log })
      → Q (plan L es s).0.state (plan L es s).0
  unfolding plan
  planned-keeps L es s u keep q = by (planners s.state) keep
    where
      t : SectorInfo Cid
      t = record s { log = log_events L 0 es s.log }

      by :
          (o : Option (Planner Cid))
          → PlannerKeeps s.state o
          → Q (plan_by L es t o).0.state (plan_by L es t o).0
      by none k = q
      by (some p) k = finish (p es t) (k es t refl u q)
        where
          finish :
              (r : SectorInfo Cid × Verdict)
              → Q r.0.state r.0
              → Q (conclude L r).0.state (conclude L r).0
          finish (x, Verdict.planned) k = k
          finish (x, Verdict.refused e) k = k
          finish (x, Verdict.panicked) k = k

  -- The events of the class keep the property when they apply globally.
  module _
      (global_keeps : (e : Event Cid) (s : SectorInfo Cid)
        → U e
        → Q s.state s
        → GlobalKeeps (apply_global e s)) where
    first_global-keeps :
        (es : List (Event Cid)) (s : SectorInfo Cid)
        → All U es
        → Q s.state s
        → Q (first_global es s).0.state (first_global es s).0
    unfolding first_global
    first_global-keeps [] s u q = q
    first_global-keeps (e ∷ es) s u q =
        global_or-keeps (apply_global e s) (first_global es s) (global_keeps e s u.0 q)
          (first_global-keeps es s u.1 q)

    -- A batch that `planOne` plans keeps what the rows keep.
    pub plan_one-keeps :
        (ts : List Row) (st : SectorState) (es : List (Event Cid)) (s : SectorInfo Cid)
        → s.state ≡ st
        → All U es
        → All (RowKeeps st) ts
        → Q st s
        → Q (plan_one ts es s).0.state (plan_one ts es s).0
    unfolding plan_one
    plan_one-keeps ts st [] s at u keep q = subst (λ x. Q x s) (sym at) q
    plan_one-keeps ts st (e ∷ []) s at u keep q =
        global_or-keeps (apply_global e s) (first_row ts e s)
          (global_keeps e s u.0 (subst (λ x. Q x s) (sym at) q))
          (first_row-keeps ts st e s at u.0 keep q)
    plan_one-keeps ts st (e ∷ f ∷ es) s at u keep q =
        first_global-keeps (e ∷ f ∷ es) s u (subst (λ x. Q x s) (sym at) q)

  module _
      (global_keeps : (e : Event Cid) (s : SectorInfo Cid)
        → U e
        → Q s.state s
        → GlobalKeeps (apply_global e s))
      (keep : (e : Event Cid) (s : SectorInfo Cid)
        → U e
        → Q SectorState.committing s
        → Q s.state s
        → RoundKeeps (committing_round e s)) where
    resume-keeps :
        (rest : SectorInfo Cid → SectorInfo Cid × Verdict)
        → ((t : SectorInfo Cid)
            → Q SectorState.committing t
            → Q t.state t
            → Q (rest t).0.state (rest t).0)
        → (r : Round Cid) → RoundKeeps r
        → Q (resume rest r).0.state (resume rest r).0
    resume-keeps rest h (goes_on t) k = h t k.0 k.1
    resume-keeps rest h (returns t v) k = k

    pub plan_committing-keeps :
        (es : List (Event Cid)) (s : SectorInfo Cid)
        → All U es
        → Q SectorState.committing s
        → Q s.state s
        → Q (plan_committing es s).0.state (plan_committing es s).0
    unfolding plan_committing
    plan_committing-keeps [] s u c q = q
    plan_committing-keeps (e ∷ es) s u c q =
        resume-keeps (plan_committing es) (λ t. plan_committing-keeps es t u.1)
          (committing_round e s) (keep e s u.0 c q)

    from_rows :
        (st : SectorState) (o : Option (List Row))
        → All (RowKeeps st) (elim o [ none ↦ [] | some ts ↦ ts ])
        → PlannerKeeps st (elim o [ none ↦ none | some ts ↦ some (plan_one ts) ])
    from_rows st none keep = tt
    from_rows st (some ts) keep = λ es s at u q. plan_one-keeps global_keeps ts st es s at u keep q

    -- A planner of the table keeps what the rows and the rounds keep.
    pub planners-keeps :
        ((st : SectorState) → All (RowKeeps st) (rows_of st))
        → (st : SectorState) → PlannerKeeps st (planners st)
    unfolding planners final
    planners-keeps table SectorState.committing =
        λ es s at u q. plan_committing-keeps es s u q (subst (λ x. Q x s) (sym at) q)
    planners-keeps table SectorState.faulted_final = λ es s at u q. subst (λ x. Q x s) (sym at) q
    planners-keeps table SectorState.removed = λ es s at u q. subst (λ x. Q x s) (sym at) q
    planners-keeps table st = from_rows st (rows st) (table st)

    -- So does `plan`, if a longer log keeps the property.
    pub plan-keeps :
        (L : Logging Cid)
        → ((st : SectorState) → All (RowKeeps st) (rows_of st))
        → (es : List (Event Cid)) (s : SectorInfo Cid) → All U es
        → Q s.state (record s { log = log_events L 0 es s.log })
        → Q (plan L es s).0.state (plan L es s).0
    plan-keeps L table es s u q = planned-keeps L es s u (planners-keeps table s.state) q
