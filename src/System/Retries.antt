-- ===== src/System/Retries.antt =====
-- How often the second sealing phase is tried again. The state-machine library runs one handler of a
-- sector at a time, on the record that the last batch left, and plans the event that it sends in a
-- later batch.
pub mod Sent
pub mod Rows
use storage_fsm.Base.{
  ℕ, ◌≡◌, ◌<◌, ◌≤◌, ◌^◌, refl, sym, subst, Bool, true, false, not, ◌&&◌, ◌||◌, ltb, Option, none,
  some, List, [], ◌∷◌, All, arith,
}
use storage_fsm.Sector.{SectorState, SectorInfo, zero_sector}
use storage_fsm.Events.{Event, EventType, type_of, apply, apply_global}
use storage_fsm.Fsm.Table.{
  Row, Planner, plan_one, plan_committing, committing_round, final, rows, planners,
}
use storage_fsm.Fsm.Plan.{Logging, plan, log_events}
use storage_fsm.Fsm.Rules.{
  Unforced, rows_of, RowKeeps, RoundKeeps, GlobalKeeps, PlannerKeeps, plan_one-keeps,
  plan_committing-keeps, planned-keeps,
}
use storage_fsm.Api.{Sealing}
use storage_fsm.Api.Action.{Always, pure-Always, when-Always}
use storage_fsm.Handlers.Outcome.{Step, sends, idles, fails, schedules, panics}
use storage_fsm.Handlers.Failed.{handle_seal_precommit2_failed}
use storage_fsm.Handlers.Dead.{cooldown-Always}
use Sent.{Fair}
use Rows.{
  is_pre_commit2, is_failed2, count_failures, count_failures-same, Bounded, AsBefore,
  planners-Bounded, failed2-AsBefore,
}

module _ {Cid Address World : Type 0} (m : Sealing Cid Address World) where
  module _ (L : Logging Cid) where
    plan-Bounded :
        (n : ℕ) (es : List (Event Cid)) (s : SectorInfo Cid)
        → All (Fair m s) es
        → Bounded m n s.state s.state s
        → Bounded m n s.state (plan L es s).0.state (plan L es s).0
    plan-Bounded n es s u q = by s.state refl
      where
        by :
            (st : SectorState)
            → s.state ≡ st
            → Bounded m n s.state (plan L es s).0.state (plan L es s).0
        by SectorState.seal_pre_commit2_failed at =
            subst (λ x. Bounded m n x (plan L es s).0.state (plan L es s).0) (sym at)
              (planned-keeps (AsBefore m s n) (Fair m s) L es s u
                (subst (λ x. PlannerKeeps (AsBefore m s n) (Fair m s) x (planners x)) (sym at)
                  (failed2-AsBefore m s n))
                (subst (λ x. Bounded m n x s.state s) at q, λ h. refl)).0
        by st at =
            subst (λ x. Bounded m n x (plan L es s).0.state (plan L es s).0) (sym at)
              (planned-keeps (Bounded m n st) (Fair m s) L es s u
                (subst (λ x. PlannerKeeps (Bounded m n st) (Fair m s) x (planners x)) (sym at)
                  (planners-Bounded m s n st refl))
                (subst (λ x. Bounded m n x s.state s) at q))

    -- The records of a sector, from its creation, through batches of such events, and how often its
    -- second phase has failed since the first one ended.
    pub data Turns : ℕ → SectorInfo Cid → Type 0 where
      created : Turns 0 zero_sector
      turn :
          {n : ℕ} {s : SectorInfo Cid}
          → Turns n s
          → (es : List (Event Cid)) → All (Fair m s) es
          → Turns (count_failures n s.state (plan L es s).0.state) (plan L es s).0

    Turns-Bounded : {n : ℕ} {s : SectorInfo Cid} → Turns n s → Bounded m n s.state s.state s
    Turns-Bounded created = unfold zero_sector in (ground arith)
    Turns-Bounded (turn {n} {s} t es u) =
        let q = plan-Bounded n es s u (Turns-Bounded t) in
        let same =
          count_failures-same (count_failures n s.state (plan L es s).0.state)
            (plan L es s).0.state in
        rw same q

    -- On a record that batches lead to from the creation of the sector, the second phase has failed
    -- (a batch has taken the sector from PreCommit2 to SealPreCommit2Failed) two times at most since
    -- the first phase ended (a batch took it from PreCommit1 to PreCommit2), and once at most while
    -- the second phase runs; the record's counter is at most 2, and at most 1 while the phase runs.
    -- No state is forced, and a retry of the second phase is in a batch only if the handler of the
    -- failure sends it on the record that the batch is planned on.
    pub pre_commit2_fails_bounded :
        {n : ℕ} {s : SectorInfo Cid}
        → Turns n s
        → (n ≤ 2)
          × (s.state ≡ SectorState.pre_commit2 → n ≤ 1)
          × (s.pre_commit2_fails ≤ 2)
          × (s.state ≡ SectorState.pre_commit2 → s.pre_commit2_fails ≤ 1)
    pre_commit2_fails_bounded {n} {s} t =
        let b = Turns-Bounded t in
        let same = count_failures-same n s.state in
        let runs : s.state ≡ SectorState.pre_commit2 → is_pre_commit2 s.state ≡ true =
          λ at. subst (λ x. is_pre_commit2 x ≡ true) (sym at) refl in
        (
          subst (λ k. k ≤ 2) same b.1,
          λ at. ground (
            arith,
            subst
                (λ k.
                  (is_pre_commit2 s.state || is_failed2 s.state) ≡ true → k ≤ s.pre_commit2_fails)
                same b.0,
            runs at,
            b.3 (runs at),
          ),
          b.2,
          λ at. b.3 (runs at),
        )
