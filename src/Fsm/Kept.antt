-- ===== src/Fsm/Kept.antt =====
-- What becomes of a sector's record once its proof is on chain.
use storage_fsm.Base.{◌≡◌, refl, ap, ◌∙◌, Bool, true, false, ◌&&◌, none, List, [], ◌∷◌, All, arith}
use storage_fsm.Sector.{SectorState, SectorInfo}
use storage_fsm.Events.{Event, EventType, type_of, apply, apply_global}
use storage_fsm.Fsm.Table.{Row, committing_round, rows}
use storage_fsm.Fsm.Plan.{Logging, plan}
use storage_fsm.Fsm.Rules.{Unforced, rows_of, RowKeeps, RoundKeeps, GlobalKeeps, plan-keeps}

-- The states past CommitWait.
abbrev pub is_proved : SectorState → Bool
is_proved SectorState.finalize_sector = true
is_proved SectorState.finalize_failed = true
is_proved SectorState.proving = true
is_proved SectorState.faulty = true
is_proved SectorState.fault_reported = true
is_proved SectorState.removing = true
is_proved SectorState.remove_failed = true
is_proved SectorState.removed = true
is_proved _ = false

-- The events of those states that change nothing but the report message.
abbrev is_harmless : EventType → Bool
is_harmless EventType.finalized = true
is_harmless EventType.finalize_failed = true
is_harmless EventType.retry_finalize = true
is_harmless EventType.fault_reported = true
is_harmless EventType.faulty = true
is_harmless EventType.remove = true
is_harmless EventType.removed = true
is_harmless EventType.remove_failed = true
is_harmless _ = false

abbrev all_stay : List Row → Bool
all_stay [] = true
all_stay ((t, next) ∷ ts) = is_harmless t && is_proved next && all_stay ts

module _ {Cid : Type 0} where
  -- The record without its state, its log and its report message.
  abbrev pub sealed_part : SectorInfo Cid → SectorInfo Cid
  sealed_part s = record s {
    state = SectorState.undefined_sector_state;
    fault_report_msg = none;
    log = [];
  }

  abbrev Kept : SectorInfo Cid → SectorState → SectorInfo Cid → Type 0
  Kept s₀ st s = (is_proved st ≡ true) × (sealed_part s ≡ sealed_part s₀)

  apply-harmless :
      (e : Event Cid) (s : SectorInfo Cid)
      → is_harmless (type_of e) ≡ true
      → sealed_part (apply e s) ≡ sealed_part s
  unfolding apply type_of
  apply-harmless Event.sector_finalized s h = refl
  apply-harmless (Event.sector_finalize_failed e) s h = refl
  apply-harmless Event.sector_retry_finalize s h = refl
  apply-harmless (Event.sector_fault_reported m) s h = refl
  apply-harmless Event.sector_faulty s h = refl
  apply-harmless Event.sector_remove s h = refl
  apply-harmless Event.sector_removed s h = refl
  apply-harmless (Event.sector_remove_failed e) s h = refl
  apply-harmless _ s h = absurd (ground arith)

  module _ (s₀ : SectorInfo Cid) where
    -- The rows of a state past CommitWait, and those of another state.
    proved_rows :
        (st : SectorState) (ts : List Row)
        → all_stay ts ≡ true
        → All (RowKeeps (Kept s₀) Unforced st) ts
    proved_rows st [] h = tt
    proved_rows st ((t, next) ∷ ts) h =
        let fine : is_harmless t ≡ true = ground arith in
        (
          λ e s u k q. (ground arith, apply-harmless e s (ap is_harmless k ∙ fine) ∙ q.1),
          proved_rows st ts (ground arith),
        )

    moot_rows :
        (st : SectorState) (ts : List Row)
        → is_proved st ≡ false
        → All (RowKeeps (Kept s₀) Unforced st) ts
    moot_rows st [] h = tt
    moot_rows st ((t, next) ∷ ts) h = (λ e s u k q. absurd (ground arith), moot_rows st ts h)

    table : (st : SectorState) → All (RowKeeps (Kept s₀) Unforced st) (rows_of st)
    unfolding rows
    table SectorState.finalize_sector =
        proved_rows SectorState.finalize_sector (rows_of SectorState.finalize_sector) refl
    table SectorState.finalize_failed =
        proved_rows SectorState.finalize_failed (rows_of SectorState.finalize_failed) refl
    table SectorState.proving = proved_rows SectorState.proving (rows_of SectorState.proving) refl
    table SectorState.removing =
        proved_rows SectorState.removing (rows_of SectorState.removing) refl
    table SectorState.faulty = proved_rows SectorState.faulty (rows_of SectorState.faulty) refl
    table SectorState.fault_reported = tt
    table SectorState.remove_failed = tt
    table SectorState.removed = tt
    table st = moot_rows st (rows_of st) refl

    -- `planCommitting` is not the planner of such a state.
    rounds :
        (e : Event Cid) (s : SectorInfo Cid)
        → Unforced e
        → Kept s₀ SectorState.committing s
        → Kept s₀ s.state s
        → RoundKeeps (Kept s₀) Unforced (committing_round e s)
    rounds e s u c q = absurd (ground arith)

    globals :
        (e : Event Cid) (s : SectorInfo Cid)
        → Unforced e
        → Kept s₀ s.state s
        → GlobalKeeps (Kept s₀) Unforced (apply_global e s)
    unfolding apply_global
    globals (Event.sector_force_state st) s u q = absurd (ground arith)
    globals Event.sector_restart s u q = q
    globals (Event.sector_fatal_error e) s u q = q
    globals _ s u q = tt

  -- Once a sector is past CommitWait, a batch with no forced state leaves it there and changes
  -- nothing but its state, its log and its report message.
  pub proved_sector_is_kept :
      (L : Logging Cid) (es : List (Event Cid)) (s : SectorInfo Cid)
      → All Unforced es
      → is_proved s.state ≡ true
      → (is_proved (plan L es s).0.state ≡ true) × (sealed_part (plan L es s).0 ≡ sealed_part s)
  proved_sector_is_kept L es s u late =
      plan-keeps (Kept s) Unforced (globals s) (rounds s) L (table s) es s u (late, refl)
