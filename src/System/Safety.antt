-- ===== src/System/Safety.antt =====
-- A handler on a reachable record.
use storage_fsm.Base.{ℕ, ◌≡◌, ◌≢◌, refl, ◌⊎◌, subst, Bool, true, false, ◌&&◌}
use storage_fsm.Base.{Option, none, some, [], ◌∷◌, is_nil, is_some, ok, arith}
use storage_fsm.Sector.{SectorState, SectorInfo}
use storage_fsm.Events.{Event, type_of, is_mutator}
use storage_fsm.Fsm.Plan.{Logging, Handler, next, plan, handler_of}
use storage_fsm.Fsm.Accepts.{plans, plan-accepts}
use storage_fsm.Fsm.Invariant.{HoldsAt}
use storage_fsm.Api.{Sealing}
use storage_fsm.Api.Action.{Always, pure-Always, when-Always, attempt-Always, on_nil-Always}
use storage_fsm.Handlers.{run_handler}
use storage_fsm.Handlers.Outcome.{Step, sends, panics}
use storage_fsm.Handlers.Proving.{handle_faulty, handle_fault_reported}
use storage_fsm.Handlers.Safety.Basics.{Good}
use storage_fsm.Handlers.Safety.Failed
use storage_fsm.Handlers.Safety.Sealing as Sealed
use storage_fsm.System.Reach.{Reach, Reach-Holds, Reach-logged}

module _ {Cid Address World : Type 0} (m : Sealing Cid Address World) (mid : ℕ)
    (has_id : m.id_from_address m.maddr ≡ ok mid) where
  abbrev GoodHandler : SectorInfo Cid → SectorState → Option Handler → Type 0
  GoodHandler s st none = Unit
  GoodHandler s st (some h) = Always (Good st) (run_handler m h s)

  -- The handler of each state, on a record that holds what the state asks for.
  handler_at-Good :
      (s : SectorInfo Cid) (st : SectorState)
      → st ≢ SectorState.fault_reported
      → HoldsAt st s
      → (st ≡ SectorState.undefined_sector_state) ⊎ (is_nil s.log ≡ false)
      → GoodHandler s st (handler_of st)
  unfolding handler_of run_handler
  handler_at-Good s SectorState.packing ne h l = Sealed.packing-Good m s mid has_id
  handler_at-Good s SectorState.pre_commit1 ne h l = Sealed.pre_commit1-Good m s mid has_id
  handler_at-Good s SectorState.pre_commit2 ne h l = Sealed.pre_commit2-Good m s mid has_id
  handler_at-Good s SectorState.pre_committing ne h l =
      Sealed.pre_committing-Good m s (h.has_comm_d refl) (h.has_comm_r refl)
  handler_at-Good s SectorState.pre_commit_wait ne h l = Sealed.pre_commit_wait-Good m s
  handler_at-Good s SectorState.wait_seed ne h l = Sealed.wait_seed-Good m s
  handler_at-Good s SectorState.committing ne h l =
      Sealed.committing-Good m s (h.has_comm_d refl) (h.has_comm_r refl) mid has_id
  handler_at-Good s SectorState.commit_wait ne h l = Sealed.commit_wait-Good m s
  handler_at-Good s SectorState.finalize_sector ne h l = Sealed.finalize_sector-Good m s mid has_id
  handler_at-Good s SectorState.seal_pre_commit1_failed ne h l =
      Failed.seal1_failed-Good m s (ground arith)
  handler_at-Good s SectorState.seal_pre_commit2_failed ne h l =
      Failed.seal2_failed-Good m s (ground arith)
  handler_at-Good s SectorState.pre_commit_failed ne h l =
      Failed.pre_commit_failed-Good m s (ground arith) (h.has_comm_d refl) (h.has_comm_r refl)
  handler_at-Good s SectorState.compute_proof_failed ne h l =
      Failed.proof_failed-Good m s (ground arith)
  handler_at-Good s SectorState.commit_failed ne h l =
      Failed.commit_failed-Good m s (ground arith) (h.has_comm_d refl) (h.has_comm_r refl) mid
        has_id
  handler_at-Good s SectorState.finalize_failed ne h l =
      Failed.finalize_failed-Good m s (ground arith)
  handler_at-Good s SectorState.removing ne h l = Sealed.removing-Good m s mid has_id
  handler_at-Good s SectorState.faulty ne h l = unfold handle_faulty Good in (pure-Always _ tt)
  handler_at-Good s SectorState.fault_reported ne h l = absurd (ne refl)
  handler_at-Good s _ ne h l = tt

  -- The step is no panic.
  abbrev Calm : Step Cid → Type 0
  Calm panics = ⊥
  Calm _ = Unit

  Good-Calm : (st : SectorState) (r : Step Cid) → Good st r → Calm r
  unfolding Good
  Good-Calm st panics g = g
  Good-Calm st _ g = tt

  -- What `handleFaultReported` sends is refused, but it reads no nil message.
  handle_fault_reported-Calm : (s : SectorInfo Cid) → Always Calm (handle_fault_reported m s)
  unfolding handle_fault_reported
  handle_fault_reported-Calm s =
      on_nil-Always _ (λ e. pure-Always _ tt)
        λ message e.
          attempt-Always _ (λ e. pure-Always _ tt)
            λ mw w e. when-Always _ (λ b. pure-Always _ tt) λ b. pure-Always _ tt

  abbrev CalmHandler : SectorInfo Cid → Option Handler → Type 0
  CalmHandler s none = Unit
  CalmHandler s (some h) = Always Calm (run_handler m h s)

  GoodHandler-Calm :
      (s : SectorInfo Cid) (st : SectorState) (o : Option Handler)
      → GoodHandler s st o
      → CalmHandler s o
  GoodHandler-Calm s st none g = tt
  GoodHandler-Calm s st (some h) g = record { at = λ w. Good-Calm st _ (g.at w) }

  handler_at-Calm :
      (s : SectorInfo Cid) (st : SectorState)
      → HoldsAt st s
      → (st ≡ SectorState.undefined_sector_state) ⊎ (is_nil s.log ≡ false)
      → CalmHandler s (handler_of st)
  unfolding handler_of run_handler
  handler_at-Calm s SectorState.fault_reported h l = handle_fault_reported-Calm s
  handler_at-Calm s st h l =
      GoodHandler-Calm s st (handler_of st) (handler_at-Good s st (λ q. absurd (ground arith)) h l)

  module _ (L : Logging Cid) (marshals : (e : Event Cid) → is_some (L.marshal e) ≡ true) where
    reachable-Good :
        {s : SectorInfo Cid}
        → Reach L s
        → (h : Handler) → handler_of s.state ≡ some h
        → s.state ≢ SectorState.fault_reported
        → (w : World) → Good s.state (run_handler m h s w).0
    reachable-Good {s} r h e ne w =
        (subst (GoodHandler s s.state) e
            (handler_at-Good s s.state ne (Reach-Holds L r) (Reach-logged L marshals r))).at
          w

    -- On a record that batches with no forced state lead to, in whatever state, the handler of the
    -- state does not panic: no nil commitment or message is read, and the log has a last entry. The
    -- miner has an ID address, and events marshal to JSON.
    pub handlers_never_panic :
        {s : SectorInfo Cid}
        → Reach L s
        → (h : Handler) → handler_of s.state ≡ some h
        → (w : World) → (run_handler m h s w).0 ≢ panics
    handlers_never_panic {s} r h e w p = subst Calm p (
        (subst (CalmHandler s) e
            (handler_at-Calm s s.state (Reach-Holds L r) (Reach-logged L marshals r))).at
          w)

    -- On a record that batches with no forced state lead to, in a state other than FaultReported,
    -- an event that the handler of the state sends is planned with no error as a batch of its own,
    -- and the handler of the new state runs next, whatever the services answer. The miner has an
    -- ID address, and events marshal to JSON.
    pub handlers_send_planned_events :
        {s : SectorInfo Cid}
        → Reach L s
        → (h : Handler) → handler_of s.state ≡ some h
        → s.state ≢ SectorState.fault_reported
        → (w : World) (e : Event Cid) → (run_handler m h s w).0 ≡ sends e
        → (plan L (e ∷ []) s).1 ≡ next (handler_of (plan L (e ∷ []) s).0.state)
    handlers_send_planned_events {s} r h found ne w e sent = plan-accepts e good.0 L s good.1
      where
        good : (is_mutator e ≡ true) × (plans s.state (type_of e) ≡ true)
        good =
            both (is_mutator e) (plans s.state (type_of e))
              (unfold Good in (subst (Good s.state) sent (reachable-Good r h found ne w)))
          where
            both : (a b : Bool) → (a && b) ≡ true → (a ≡ true) × (b ≡ true)
            both true true h = (refl, refl)
            both true false h = absurd (ground arith)
            both false b h = absurd (ground arith)
