-- ===== src/Tests/Later.antt =====
-- Retries of the second phase, and a sector with a proof on chain.
use storage_fsm.Base.{
  ℕ, ◌≡◌, ◌≤◌, refl, arith, [], ◌∷◌, List, zero, suc, ok, err, errorf, some, inl, inr, Result, true,
  false, ◌⊎◌, ◌<◌,
}
use storage_fsm.Base.Int.{ℤ, eqb_ℤ}
use storage_fsm.Sector.{SectorState, SectorInfo, zero_sector}
use storage_fsm.Events.{Event, type_of, apply, apply_global, is_mutator}
use storage_fsm.Fsm.Table.{EventType-discrete, plan_one, rows, planners}
use storage_fsm.Fsm.Plan.{plan}
use storage_fsm.Fsm.LifeCycle.{Moves, stage_of, plan-Moves}
use storage_fsm.Fsm.Kept.{is_proved, sealed_part, proved_sector_is_kept}
use storage_fsm.Fsm.Rules.{Unforced}
use storage_fsm.Api.{Sealing}
use storage_fsm.Api.Action.{attempt, bind, pure, when, on_nil}
use storage_fsm.Handlers.Failed.{handle_seal_precommit2_failed, failed_cooldown, last_entry}
use storage_fsm.System.Retries.Sent.{Fair, is_retry}
use storage_fsm.System.Retries.{Turns, turn, created, pre_commit2_fails_bounded}
use storage_fsm.System.Run.{Leads}
use storage_fsm.System.Progress.{Patient, committed_sector_proves}
use storage_fsm.Tests.{answer, logging, services, services_on}

abbrev after : List (Event ℕ) → SectorInfo ℕ → SectorInfo ℕ
after es s = (plan logging es s).0

abbrev started : List (Event ℕ)
started = Event.sector_start 1 (ℤ.pos 3) [] ∷ []

abbrev packed : List (Event ℕ)
packed = Event.sector_packed [] ∷ []

abbrev sealed_once : List (Event ℕ)
sealed_once = Event.sector_pre_commit1 [] [] (ℤ.pos 0) ∷ []

abbrev failure : List (Event ℕ)
failure = Event.sector_seal_pre_commit2_failed (errorf "no disk") ∷ []

abbrev first : SectorInfo ℕ
first = after started zero_sector

abbrev second : SectorInfo ℕ
second = after packed first

abbrev third : SectorInfo ℕ
third = after sealed_once second

abbrev failed_once : SectorInfo ℕ
failed_once = after failure third

plain :
    (s : SectorInfo ℕ) (e : Event ℕ) → Unforced e → is_retry (type_of e) ≡ false → Fair services s e
plain s e u r = (u, λ h. absurd (ground arith))

retried : Turns services logging 1 (after (Event.sector_retry_seal_pre_commit2 ∷ []) failed_once)
unfolding handle_seal_precommit2_failed failed_cooldown last_entry attempt bind pure when on_nil
    plan planners rows plan_one apply_global EventType-discrete type_of is_mutator apply zero_sector
retried =
    turn
      (turn
        (turn
          (turn (turn created started (plain zero_sector _ refl refl, tt)) packed
            (plain first _ refl refl, tt))
          sealed_once (plain second _ refl refl, tt))
        failure (plain third _ refl refl, tt))
      (Event.sector_retry_seal_pre_commit2 ∷ []) ((refl, λ h. (tt, refl)), tt)

abbrev again : SectorInfo ℕ
again = after (Event.sector_retry_seal_pre_commit2 ∷ []) failed_once

pre_commit2_fails_bounded_example :
    (1 ≤ 2)
    × (again.state ≡ SectorState.pre_commit2 → 1 ≤ 1)
    × (again.pre_commit2_fails ≤ 2)
    × (again.state ≡ SectorState.pre_commit2 → again.pre_commit2_fails ≤ 1)
pre_commit2_fails_bounded_example = pre_commit2_fails_bounded services logging retried

abbrev in_state : SectorState → SectorInfo ℕ
unfolding zero_sector
in_state st = record (zero_sector {Cid = ℕ}) { state = st; commit_message = some 31 }

plan-Moves_example : Moves (stage_of SectorState.committing) (
    stage_of
      (plan logging
        (Event.sector_committed 31 [] ∷ Event.sector_commit_failed (errorf "late") ∷ [])
        (in_state SectorState.committing)).0.state)
unfolding in_state
plan-Moves_example =
    plan-Moves logging
      (Event.sector_committed 31 [] ∷ Event.sector_commit_failed (errorf "late") ∷ [])
      (in_state SectorState.committing) (refl, (refl, tt))

proved_sector_is_kept_example :
    (is_proved
        (plan logging (Event.sector_fault_reported 50 ∷ []) (in_state SectorState.proving)).0.state
      ≡ true)
    × (sealed_part
          (plan logging (Event.sector_fault_reported 50 ∷ []) (in_state SectorState.proving)).0
        ≡ sealed_part (in_state SectorState.proving))
unfolding in_state
proved_sector_is_kept_example =
    proved_sector_is_kept logging (Event.sector_fault_reported 50 ∷ [])
      (in_state SectorState.proving) (refl, tt) refl

-- A storage that fails to finalize as many times as the world says.
abbrev pub finalize_later : ℕ → Result (Unit {0}) × ℕ
finalize_later n = elim n [ zero ↦ (ok tt, 0) | suc k ↦ (err (errorf "busy"), k) ]

abbrev pub slow : Sealing ℕ ℕ ℕ
slow = record (services_on ℕ) {
  sealer = record (services_on ℕ).sealer { finalize_sector = λ ctx id. finalize_later };
  verify_seal = λ info. answer (eqb_ℤ info.seal_proof (ℤ.pos 3));
}

fewer : (w : ℕ) → ((finalize_later w).0 ≡ ok tt) ⊎ ((finalize_later w).1 < w)
fewer zero = inl refl
fewer (suc k) = inr (omega arith)

pub slow-Patient : Patient slow logging
slow-Patient = record {
  failures_left = λ w. w;
  finalizes = λ ctx id w. fewer w;
  clock_keeps = λ w. omega arith;
  waits = λ t w. (refl, omega arith);
}

committed_sector_proves_example :
    (t : SectorInfo ℕ) × (v : ℕ) × Leads slow logging (in_state SectorState.commit_wait) 3 t v
    × (t.state ≡ SectorState.proving)
unfolding in_state
committed_sector_proves_example =
    committed_sector_proves slow logging slow-Patient 5 refl (λ e. refl)
      (in_state SectorState.commit_wait) 31 refl refl (λ w. (_, refl, refl)) (λ tok w. refl) 3
