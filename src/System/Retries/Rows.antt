-- ===== src/System/Retries/Rows.antt =====
-- The count of failures of the second phase, over the table of planners.
use storage_fsm.Base.{
  ℕ, ◌+◌, ◌≡◌, ◌≤◌, ◌%◌, ◌^◌, if◌then◌else◌, refl, sym, subst, Bool, true, false, not, ◌&&◌, ◌||◌,
  Option, none, some, List, [], ◌∷◌, All, arith,
}
use storage_fsm.Sector.{SectorState, SectorInfo}
use storage_fsm.Events.{Event, EventType, type_of, apply, apply_global}
use storage_fsm.Fsm.Table.{Row, plan_one, committing_round, final, rows, planners}
use storage_fsm.Fsm.Rules.{
  rows_of, RowKeeps, RoundKeeps, GlobalKeeps, PlannerKeeps, plan_one-keeps, plan_committing-keeps,
}
use storage_fsm.Api.{Sealing}
use storage_fsm.System.Retries.Sent.{Fair, Fair-early}

abbrev pub is_pre_commit2 : SectorState → Bool
is_pre_commit2 SectorState.pre_commit2 = true
is_pre_commit2 _ = false

abbrev pub is_failed2 : SectorState → Bool
is_failed2 SectorState.seal_pre_commit2_failed = true
is_failed2 _ = false

abbrev is_done1 : EventType → Bool
is_done1 EventType.pre_commit1_done = true
is_done1 _ = false

abbrev is_seal2_failed : EventType → Bool
is_seal2_failed EventType.seal2_failed = true
is_seal2_failed _ = false

abbrev is_pre_commit1 : SectorState → Bool
is_pre_commit1 SectorState.pre_commit1 = true
is_pre_commit1 _ = false

-- How often the second phase has failed since the first one ended, after one more batch: it fails
-- when PreCommit2 is left for SealPreCommit2Failed, and starts anew when PreCommit1 is left for it.
abbrev pub count_failures : ℕ → SectorState → SectorState → ℕ
count_failures n from to =
    if is_pre_commit2 from && is_failed2 to
    then n + 1
    else if is_pre_commit1 from && is_pre_commit2 to
    then 0
    else n

pub count_failures-same : (n : ℕ) (st : SectorState) → count_failures n st st ≡ n
count_failures-same n st = ground arith

-- The record's count of failures is not behind where the second phase runs or has failed, and both
-- are bounded.
abbrev Bound : ℕ → SectorState → SectorState → ℕ → Type 0
Bound n from st fails =
    ((is_pre_commit2 st || is_failed2 st) ≡ true → count_failures n from st ≤ fails)
    × (count_failures n from st ≤ 2)
    × (fails ≤ 2)
    × (is_pre_commit2 st ≡ true → fails ≤ 1)

-- The second phase is entered after the first, and only a failure of it counts.
abbrev is_tame : SectorState → Row → Bool
is_tame st (t, next) =
    (not (is_pre_commit2 next) || is_done1 t && is_pre_commit1 st)
    && (not (is_seal2_failed t) || is_pre_commit2 st && not (is_pre_commit2 next))
    && (not (is_failed2 next) || is_seal2_failed t)

-- A row of the table: one that resets the count, one that counts, and any other.
module _ (n : ℕ) (st : SectorState) (t : EventType) (next : SectorState)
    (a : is_tame st (t, next) ≡ true) (fails : ℕ) (q : Bound n st st fails) where
  row_resets : is_seal2_failed t ≡ false → Bound n st next 0
  row_resets h = let same = count_failures-same n st in ground arith

  row_counts : is_seal2_failed t ≡ true → Bound n st next ((fails + 1) % 2 ^ 64)
  row_counts h = let same = count_failures-same n st in ground arith

  row_keeps : is_seal2_failed t ≡ false → is_done1 t ≡ false → Bound n st next fails
  row_keeps h k = let same = count_failures-same n st in ground arith

module _ {Cid Address World : Type 0} (m : Sealing Cid Address World) where
  abbrev pub Bounded : ℕ → SectorState → SectorState → SectorInfo Cid → Type 0
  Bounded n from st s = Bound n from st s.pre_commit2_fails

  module _ (s₀ : SectorInfo Cid) (n : ℕ) where
    tame :
        (st : SectorState) (r : Row)
        → is_tame st r ≡ true
        → RowKeeps (Bounded n st) (Fair m s₀) st r
    unfolding apply type_of
    tame st (t, next) a (Event.sector_pre_commit1 o v ep) s u k q =
        row_resets n st t next a _ q (subst (λ x. is_seal2_failed x ≡ false) k refl)
    tame st (t, next) a (Event.sector_seal_pre_commit1_failed e) s u k q =
        row_resets n st t next a _ q (subst (λ x. is_seal2_failed x ≡ false) k refl)
    tame st (t, next) a (Event.sector_seal_pre_commit2_failed e) s u k q =
        row_counts n st t next a _ q (subst (λ x. is_seal2_failed x ≡ true) k refl)
    tame st (t, next) a _ s u k q =
        row_keeps n st t next a _ q (subst (λ x. is_seal2_failed x ≡ false) k refl)
          (subst (λ x. is_done1 x ≡ false) k refl)

    tame_rows :
        (st : SectorState) (ts : List Row)
        → All (λ r. is_tame st r ≡ true) ts
        → All (RowKeeps (Bounded n st) (Fair m s₀) st) ts
    tame_rows st [] h = tt
    tame_rows st (r ∷ ts) h = (tame st r h.0, tame_rows st ts h.1)

    globals :
        (from : SectorState) (e : Event Cid) (s : SectorInfo Cid)
        → Fair m s₀ e
        → Bounded n from s.state s
        → GlobalKeeps (Bounded n from) (Fair m s₀) (apply_global e s)
    unfolding apply_global
    globals from (Event.sector_force_state st) s u q = absurd (ground arith)
    globals from Event.sector_restart s u q = q
    globals from (Event.sector_fatal_error e) s u q = q
    globals from _ s u q = tt

    rounds :
        (e : Event Cid) (s : SectorInfo Cid)
        → Fair m s₀ e
        → Bounded n SectorState.committing SectorState.committing s
        → Bounded n SectorState.committing s.state s
        → RoundKeeps (Bounded n SectorState.committing) (Fair m s₀) (committing_round e s)
    unfolding committing_round apply_global apply
    rounds (Event.sector_committed p x) s u c q = ground arith
    rounds (Event.sector_seed_ready v e) s u c q = ground arith
    rounds Event.sector_restart s u c q = (c, q)
    rounds (Event.sector_fatal_error e) s u c q = q
    rounds (Event.sector_force_state st) s u c q = absurd (ground arith)
    rounds (Event.sector_compute_proof_failed e) s u c q = ground arith
    rounds (Event.sector_seal_pre_commit1_failed e) s u c q = ground arith
    rounds (Event.sector_commit_failed e) s u c q = ground arith
    rounds _ s u c q = q

    from_rows :
        (st : SectorState) (o : Option (List Row))
        → All (RowKeeps (Bounded n st) (Fair m s₀) st) (elim o [ none ↦ [] | some ts ↦ ts ])
        → PlannerKeeps
            (Bounded n st)
            (Fair m s₀)
            st
            (elim o [ none ↦ none | some ts ↦ some (plan_one ts) ])
    from_rows st none k = tt
    from_rows st (some ts) k =
        λ es s at u q. plan_one-keeps (Bounded n st) (Fair m s₀) (globals st) ts st es s at u k q

    tame_table :
        (st : SectorState) → is_failed2 st ≡ false → All (λ r. is_tame st r ≡ true) (rows_of st)
    unfolding rows
    tame_table st h = ground arith

    -- The planners of all states but that of a failed second phase.
    pub planners-Bounded :
        (st : SectorState)
        → is_failed2 st ≡ false
        → PlannerKeeps (Bounded n st) (Fair m s₀) st (planners st)
    unfolding planners final
    planners-Bounded SectorState.committing h = λ es s at u q.
        plan_committing-keeps (Bounded n SectorState.committing) (Fair m s₀)
          (globals SectorState.committing) rounds es s u q
          (subst (λ x. Bounded n SectorState.committing x s) (sym at) q)
    planners-Bounded SectorState.faulted_final h =
        λ es s at u q. subst (λ x. Bounded n SectorState.faulted_final x s) (sym at) q
    planners-Bounded SectorState.removed h =
        λ es s at u q. subst (λ x. Bounded n SectorState.removed x s) (sym at) q
    planners-Bounded st h = from_rows st (rows st) (tame_rows st (rows_of st) (tame_table st h))

    -- The record as it was, in that state.
    abbrev pub AsBefore : SectorState → SectorInfo Cid → Type 0
    AsBefore st s =
        Bounded n SectorState.seal_pre_commit2_failed st s
        × (is_failed2 st ≡ true → s.pre_commit2_fails ≡ s₀.pre_commit2_fails)

    globals_before :
        (e : Event Cid) (s : SectorInfo Cid)
        → Fair m s₀ e
        → AsBefore s.state s
        → GlobalKeeps AsBefore (Fair m s₀) (apply_global e s)
    unfolding apply_global
    globals_before (Event.sector_force_state st) s u q = absurd (ground arith)
    globals_before Event.sector_restart s u q = q
    globals_before (Event.sector_fatal_error e) s u q = q
    globals_before _ s u q = tt

    retry1 :
        RowKeeps AsBefore
          (Fair m s₀)
          SectorState.seal_pre_commit2_failed
          (EventType.retry_seal1, SectorState.pre_commit1)
    unfolding apply type_of
    retry1 Event.sector_retry_seal_pre_commit1 s u k q = ground arith
    retry1 _ s u k q = absurd (ground arith)

    retry2 :
        RowKeeps AsBefore
          (Fair m s₀)
          SectorState.seal_pre_commit2_failed
          (EventType.retry_seal2, SectorState.pre_commit2)
    unfolding apply type_of
    retry2 Event.sector_retry_seal_pre_commit2 s u k q =
        let early = Fair-early m s₀ Event.sector_retry_seal_pre_commit2 u refl in ground arith
    retry2 _ s u k q = absurd (ground arith)

    pub failed2-AsBefore :
        PlannerKeeps AsBefore
          (Fair m s₀)
          SectorState.seal_pre_commit2_failed
          (planners SectorState.seal_pre_commit2_failed)
    unfolding planners rows
    failed2-AsBefore = λ es s at u q.
        plan_one-keeps AsBefore (Fair m s₀) globals_before _ _ es s at u (retry1, (retry2, tt)) q
