-- ===== src/System/Reach.antt =====
-- The records that a sector can have, from its creation, through batches in which no operator
-- forces the state.
use storage_fsm.Base.{ℕ, ◌+◌, ◌≡◌, refl, sym, ◌∙◌, ◌⊎◌, inl, inr, subst, true, false}
use storage_fsm.Base.{Option, none, some, List, [], ◌∷◌, ◌++◌, All, is_nil, is_some, arith, String}
use storage_fsm.Sector.{SectorState, SectorInfo, Log, zero_sector}
use storage_fsm.Events.{Event}
use storage_fsm.Fsm.Table.{Row, Planner, Verdict, plan_one, plan_committing, final, rows, planners}
use storage_fsm.Fsm.Plan.{Logging, log_entry, log_events, conclude, plan_by, plan}
use storage_fsm.Fsm.Rules.{Unforced}
use storage_fsm.Fsm.Invariant.{Holds, zero_sector-Holds, plan-Holds}
use storage_fsm.Fsm.History.{log-plan}

module _ {Cid : Type 0} (L : Logging Cid) where
  pub data Reach : SectorInfo Cid → Type 0 where
    fresh : Reach zero_sector
    batch :
        {s : SectorInfo Cid}
        → Reach s
        → (es : List (Event Cid)) → All Unforced es
        → Reach (plan L es s).0

  -- A record that batches with no forced state lead to from the creation of the sector holds what
  -- its state asks for: it is in a state that the table leads to, and has the commitments and the
  -- messages of the states past those that bring them.
  pub Reach-Holds : {s : SectorInfo Cid} → Reach s → Holds s
  Reach-Holds fresh = zero_sector-Holds
  Reach-Holds (batch {s} r es u) = plan-Holds L es s u (Reach-Holds r)

  abbrev StaysOnNil : Option (Planner Cid) → Type 0
  StaysOnNil none = Unit
  StaysOnNil (some p) = (s : SectorInfo Cid) → (p [] s).0 ≡ s

  planners_nil : (st : SectorState) → StaysOnNil (planners st)
  unfolding planners plan_committing final
  planners_nil SectorState.committing = λ s. refl
  planners_nil SectorState.faulted_final = λ s. refl
  planners_nil SectorState.removed = λ s. refl
  planners_nil st = by_rows (rows st)
    where
      by_rows :
          (o : Option (List Row))
          → StaysOnNil (elim o [ none ↦ none | some ts ↦ some (plan_one ts) ])
      by_rows none = tt
      by_rows (some ts) = λ s. unfold plan_one in refl

  -- An empty batch changes nothing.
  plan_nil : (s : SectorInfo Cid) → (plan L [] s).0 ≡ s
  unfolding plan
  plan_nil s = by (planners s.state) (planners_nil s.state)
    where
      done : (r : SectorInfo Cid × Verdict) → (conclude L r).0 ≡ r.0
      done (x, Verdict.planned) = refl
      done (x, Verdict.refused e) = refl
      done (x, Verdict.panicked) = refl

      by : (o : Option (Planner Cid)) → StaysOnNil o → (plan_by L [] s o).0 ≡ s
      by none k = refl
      by (some p) k = done (p [] s) ∙ k s

  append_one : (l : List Log) (x : Log) → is_nil (l ++ x ∷ []) ≡ false
  append_one [] x = refl
  append_one (y ∷ l) x = refl

  -- Events that marshal to JSON leave an entry.
  module _ (marshals : (e : Event Cid) → is_some (L.marshal e) ≡ true) where
    log_events-stays :
        (i : ℕ) (es : List (Event Cid)) (l : List Log)
        → is_nil l ≡ false
        → is_nil (log_events L i es l) ≡ false
    unfolding log_events
    log_events-stays i [] l h = h
    log_events-stays i (e ∷ es) l h = log_events-stays (i + 1) es _ (either (L.marshal e))
      where
        either :
            (o : Option String)
            → is_nil (elim o [ none ↦ l | some m ↦ l ++ log_entry L i e m ∷ [] ]) ≡ false
        either none = h
        either (some m) = append_one l _

    pub log_events-cons :
        (i : ℕ) (e : Event Cid) (es : List (Event Cid)) (l : List Log)
        → is_nil (log_events L i (e ∷ es) l) ≡ false
    unfolding log_events
    log_events-cons i e es l = log_events-stays (i + 1) es _ (either (L.marshal e) (marshals e))
      where
        either :
            (o : Option String)
            → is_some o ≡ true
            → is_nil (elim o [ none ↦ l | some m ↦ l ++ log_entry L i e m ∷ [] ]) ≡ false
        either none h = absurd (ground arith)
        either (some m) h = append_one l _

    -- A sector that has left the undefined state has an entry in its log.
    pub Reach-logged :
        {s : SectorInfo Cid}
        → Reach s
        → (s.state ≡ SectorState.undefined_sector_state) ⊎ (is_nil s.log ≡ false)
    unfolding zero_sector
    Reach-logged fresh = inl refl
    Reach-logged (batch {s} r [] u) =
        subst
          (λ (t : SectorInfo Cid).
            (t.state ≡ SectorState.undefined_sector_state) ⊎ (is_nil t.log ≡ false))
          (sym (plan_nil s)) (Reach-logged r)
    Reach-logged (batch {s} r (e ∷ es) u) =
        inr (subst (λ l. is_nil l ≡ false) (sym (log-plan L (e ∷ es) s)) (log_events-cons 0 e es _))
