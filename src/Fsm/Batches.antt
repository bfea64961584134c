-- ===== src/Fsm/Batches.antt =====
-- fsm.go `planOne` and `Plan`: what becomes of a batch of several events.
use mathlib.Core.Bool.{cond}
use storage_fsm.Base.{
  ℕ, ◌≡◌, refl, ap, ◌∙◌, Bool, true, false, Option, none, some, List, [], ◌∷◌, length, Error,
  errorf, wrapf, arith,
}
use storage_fsm.Sector.{SectorState, SectorInfo}
use storage_fsm.Events.{Event, apply_global}
use storage_fsm.Fsm.Table.{Row, Verdict, planned, refused, first_global, plan_one, rows, planners}
use storage_fsm.Fsm.Plan.{
  Logging, Handler, Planned, next, fails, panics, handler_of, log_events, conclude, plan_by, plan,
  plan_batch,
}

module _ {Cid : Type 0} where
  -- The events that apply in every state.
  abbrev pub is_global : Event Cid → Bool
  is_global Event.sector_restart = true
  is_global (Event.sector_fatal_error e) = true
  is_global (Event.sector_force_state st) = true
  is_global _ = false

  abbrev pub first_of : List (Event Cid) → Option (Event Cid)
  first_of [] = none
  first_of (e ∷ es) = cond (is_global e) (some e) (first_of es)

  -- Such an event changes the state if it forces one, and nothing else.
  abbrev pub overridden : Event Cid → SectorInfo Cid → SectorInfo Cid
  overridden (Event.sector_force_state st) s = record s { state = st }
  overridden _ s = s

  abbrev decided : SectorInfo Cid → Option (Event Cid) → SectorInfo Cid × Verdict
  decided s none = (s, refused (errorf "planner for state %s only has a plan for a single event"))
  decided s (some e) = (overridden e s, planned)

  first_global_lem :
      (es : List (Event Cid)) (s : SectorInfo Cid) → first_global es s ≡ decided s (first_of es)
  unfolding first_global apply_global
  first_global_lem [] s = refl
  first_global_lem (Event.sector_restart ∷ es) s = refl
  first_global_lem (Event.sector_fatal_error e ∷ es) s = refl
  first_global_lem (Event.sector_force_state st ∷ es) s = refl
  first_global_lem (_ ∷ es) s = first_global_lem es s

  planners-rows :
      (st : SectorState) (ts : List Row)
      → rows st ≡ some ts
      → planners {Cid = Cid} st ≡ some (plan_one ts)
  unfolding planners rows
  planners-rows SectorState.committing ts h = absurd (ground (arith, h))
  planners-rows SectorState.faulted_final ts h = absurd (ground (arith, h))
  planners-rows SectorState.removed ts h = absurd (ground (arith, h))
  planners-rows st ts h = ap (λ o. elim o [ none ↦ none | some ts ↦ some (plan_one ts) ]) h

  module _ (L : Logging Cid) where
    abbrev pub Batch : Type 0
    Batch = SectorInfo Cid × record { handler : Option Handler; taken : ℕ; error : Option Error }

    -- What becomes of a batch of `n` events on a record, by the first of them that is global.
    abbrev pub taken_whole : ℕ → SectorInfo Cid → Option (Event Cid) → Batch
    taken_whole n s none = (
      s,
      record {
        handler = none;
        taken = n;
        error = some (
            wrapf "running planner for state %s failed: %w"
              (errorf "planner for state %s only has a plan for a single event"));
      },
    )
    taken_whole n s (some e) = (
      overridden e s,
      record { handler = handler_of (overridden e s).state; taken = n; error = none },
    )

    -- The result of `Plan` for one of `plan`.
    abbrev report : ℕ → SectorInfo Cid × Planned → Batch
    report n (s, next h) = (s, record { handler = h; taken = n; error = none })
    report n (s, fails e) = (s, record { handler = none; taken = n; error = some e })
    report n (s, panics) = (s, record { handler = none; taken = 0; error = none })

    plan_batch-report :
        (es : List (Event Cid)) (s : SectorInfo Cid)
        → plan_batch L es s ≡ report (length es) (plan L es s)
    unfolding plan_batch
    plan_batch-report es s = by (plan L es s)
      where
        by :
            (r : SectorInfo Cid × Planned)
            → elim r.1 [
              | next h ↦ (r.0, record { handler = h; taken = length es; error = none })
              | fails e ↦ (r.0, record { handler = none; taken = length es; error = some e })
              | panics ↦ (r.0, record { handler = none; taken = 0; error = none })
            ]
              ≡ report (length es) r
        by (s, next h) = refl
        by (s, fails e) = refl
        by (s, panics) = refl

    several_planned :
        (s : SectorInfo Cid) (ts : List Row) (e f : Event Cid) (es : List (Event Cid))
        → rows s.state ≡ some ts
        → plan L (e ∷ f ∷ es) s
          ≡ conclude L (
              decided
                (record s { log = log_events L 0 (e ∷ f ∷ es) s.log })
                (first_of (e ∷ f ∷ es)))
    unfolding plan plan_one
    several_planned s ts e f es has =
        ap (plan_by L (e ∷ f ∷ es) (record s { log = log_events L 0 (e ∷ f ∷ es) s.log }))
          (planners-rows s.state ts has)
        ∙ ap (conclude L) (first_global_lem (e ∷ f ∷ es) _)

    -- In a state that `planOne` plans, a batch of several events is taken whole: its first global
    -- event is applied and all others are dropped, or it has none, and then all are dropped and the
    -- batch ends in an error. The events are in the log in either case.
    pub only_global_event_counts :
        (s : SectorInfo Cid) (ts : List Row) (e f : Event Cid) (es : List (Event Cid))
        → rows s.state ≡ some ts
        → plan_batch L (e ∷ f ∷ es) s
          ≡ taken_whole
              (length (e ∷ f ∷ es))
              (record s { log = log_events L 0 (e ∷ f ∷ es) s.log })
              (first_of (e ∷ f ∷ es))
    only_global_event_counts s ts e f es has =
        plan_batch-report (e ∷ f ∷ es) s
        ∙ ap (report (length (e ∷ f ∷ es))) (several_planned s ts e f es has)
        ∙ by (first_of (e ∷ f ∷ es)) _ _
      where
        by :
            (o : Option (Event Cid)) (t : SectorInfo Cid) (n : ℕ)
            → report n (conclude L (decided t o)) ≡ taken_whole n t o
        by none t n = refl
        by (some g) t n = refl
