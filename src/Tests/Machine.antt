-- ===== src/Tests/Machine.antt =====
-- Runs of `plan` on events and records, those of fsm_test.go among them.
use storage_fsm.Base.{ℕ, ◌≡◌, refl, List, [], ◌∷◌, ◌++◌, none, some, Error, errorf, bytes_equal}
use mathlib.Core.List.{Memᴰ}
use storage_fsm.Base.Int.{ℤ}
use storage_fsm.Sector.{SectorState, SectorInfo, zero_sector}
use storage_fsm.Events.{Event, type_of, apply, is_mutator, apply_global}
use storage_fsm.Fsm.Table.{EventType-discrete, plan_one, plan_committing, rows, planners}
use storage_fsm.Fsm.Plan.{fails, log_events, plan, plan_batch}
use storage_fsm.Fsm.History.{entries, plan_appends_entries}
use storage_fsm.Fsm.Seed.{SameSeed, commit_wait_keeps_seed, commit_wait_from_committed}
use storage_fsm.Fsm.Batches.{taken_whole, only_global_event_counts}
use storage_fsm.Fsm.Stuck.{stuck_state_refuses, forced_state_applies}
use storage_fsm.Tests.{logging}

abbrev pub play : List (List (Event ℕ)) → SectorInfo ℕ → SectorInfo ℕ
play [] s = s
play (b ∷ bs) s = play bs (plan logging b s).0

unfoldable pub packing_sector : SectorInfo ℕ
unfolding zero_sector
packing_sector = record (zero_sector {Cid = ℕ}) { state = SectorState.packing }

abbrev pub to_committing : List (List (Event ℕ))
to_committing =
    (Event.sector_packed [] ∷ [])
    ∷ (Event.sector_pre_commit1 [] [] (ℤ.pos 0) ∷ [])
    ∷ (Event.sector_pre_commit2 12 11 ∷ [])
    ∷ (Event.sector_pre_committed 30 ∷ [])
    ∷ (Event.sector_pre_commit_landed [] ∷ [])
    ∷ (Event.sector_seed_ready (9 ∷ []) (ℤ.pos 70) ∷ [])
    ∷ []

abbrev to_proving : List (List (Event ℕ))
to_proving =
    (Event.sector_committed 0 [] ∷ [])
    ∷ (Event.sector_proving ∷ [])
    ∷ (Event.sector_finalized ∷ [])
    ∷ []

-- A batch with a new seed and a proof for the old one.
abbrev late_seed : List (Event ℕ)
late_seed = Event.sector_seed_ready [] (ℤ.pos 5) ∷ Event.sector_committed 31 (43 ∷ []) ∷ []

unfoldable pub committing_sector : SectorInfo ℕ
unfolding plan packing_sector planners rows plan_one apply_global EventType-discrete type_of
    is_mutator plan_committing apply
committing_sector = play to_committing packing_sector

-- `TestHappyPath`
happy_path : (play to_proving committing_sector).state ≡ SectorState.proving
unfolding plan committing_sector planners rows plan_one apply_global EventType-discrete type_of
    is_mutator plan_committing apply
happy_path = refl

-- `TestSeedRevert`
seed_revert_1 : (play (late_seed ∷ []) committing_sector).state ≡ SectorState.committing
unfolding plan committing_sector planners rows plan_one apply_global EventType-discrete type_of
    is_mutator plan_committing apply
seed_revert_1 = refl

seed_revert_2 :
    (play (late_seed ∷ late_seed ∷ []) committing_sector).state ≡ SectorState.commit_wait
unfolding plan committing_sector planners rows plan_one apply_global EventType-discrete type_of
    is_mutator plan_committing apply bytes_equal
seed_revert_2 = refl

-- `TestPlanCommittingHandlesSectorCommitFailed`
commit_failed :
    (plan_committing (Event.sector_commit_failed (errorf "") ∷ []) committing_sector).0.state
    ≡ SectorState.commit_failed
unfolding plan_committing apply
commit_failed = refl

-- The events after a global one are dropped.
global_first :
    (plan logging
      (Event.sector_pre_commit1 [] [] (ℤ.pos 0) ∷ Event.sector_restart ∷ [])
      (record packing_sector { state = SectorState.pre_commit1 })).0.state
    ≡ SectorState.pre_commit1
unfolding plan packing_sector planners rows plan_one apply_global
global_first = refl

plan_appends_entries_example :
    (plan logging (Event.sector_restart ∷ Event.sector_proving ∷ []) packing_sector).0.log
    ≡ packing_sector.log ++ entries logging 0 (Event.sector_restart ∷ Event.sector_proving ∷ [])
plan_appends_entries_example =
    plan_appends_entries logging (Event.sector_restart ∷ Event.sector_proving ∷ []) packing_sector

abbrev same_seed : List (Event ℕ)
same_seed = Event.sector_seed_ready (9 ∷ []) (ℤ.pos 70) ∷ Event.sector_committed 31 (43 ∷ []) ∷ []

same_seed_commits : (plan_committing same_seed committing_sector).0.state ≡ SectorState.commit_wait
unfolding committing_sector plan_committing apply bytes_equal
same_seed_commits = refl

commit_wait_keeps_seed_example :
    SameSeed committing_sector (plan_committing same_seed committing_sector).0
commit_wait_keeps_seed_example =
    commit_wait_keeps_seed same_seed committing_sector same_seed_commits

commit_wait_from_committed_example :
    (m : ℕ) × (p : List ℕ) × Memᴰ (Event.sector_committed m p) same_seed
    × ((plan_committing same_seed committing_sector).0.commit_message ≡ some m)
    × ((plan_committing same_seed committing_sector).0.proof ≡ p)
commit_wait_from_committed_example =
    commit_wait_from_committed same_seed committing_sector (unfold committing_sector in refl)
      (refl, (refl, tt)) same_seed_commits

stuck_state_refuses_example :
    (e : Error) × (plan logging
        (Event.sector_force_state SectorState.proving ∷ [])
        (record packing_sector { state = SectorState.fault_reported })
      ≡ (
        record packing_sector {
          state = SectorState.fault_reported;
          log =
              log_events logging 0
                (Event.sector_force_state SectorState.proving ∷ [])
                packing_sector.log;
        },
        fails e,
      ))
stuck_state_refuses_example =
    stuck_state_refuses logging _ (record packing_sector { state = SectorState.fault_reported })
      refl

forced_state_applies_example :
    (plan logging (Event.sector_force_state SectorState.removing ∷ []) packing_sector).0.state
    ≡ SectorState.removing
forced_state_applies_example =
    forced_state_applies logging SectorState.removing packing_sector (unfold packing_sector in refl)

-- A report of a fault and a removal in one batch are both dropped.
only_global_event_counts_example :
    plan_batch logging (Event.sector_faulty ∷ Event.sector_remove ∷ []) packing_sector
    ≡ taken_whole logging 2
        (record packing_sector {
          log =
              log_events logging 0
                (Event.sector_faulty ∷ Event.sector_remove ∷ [])
                packing_sector.log;
        })
        none
unfolding packing_sector rows
only_global_event_counts_example =
    only_global_event_counts logging packing_sector _ Event.sector_faulty Event.sector_remove []
      refl
