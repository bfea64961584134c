-- ===== src/Tests/Sealed.antt =====
-- A sector brought to Committing, and its handlers under services that answer.
use storage_fsm.Base.{ℕ, ◌≡◌, ◌≢◌, refl, arith, [], ◌∷◌, All, List, ok, some, true, false}
use storage_fsm.Base.Int.{ℤ}
use storage_fsm.Sector.{SectorState, SectorInfo, zero_sector}
use storage_fsm.Events.{Event}
use storage_fsm.Fsm.Plan.{Handler, plan, next, handler_of}
use storage_fsm.Fsm.Rules.{Unforced}
use storage_fsm.Fsm.Invariant.{Holds}
use storage_fsm.Handlers.{run_handler}
use storage_fsm.Handlers.Outcome.{sends, panics}
use storage_fsm.Handlers.Commit.{handle_committing}
use storage_fsm.Handlers.Failed.{handle_commit_failed, handle_pre_commit_failed}
use storage_fsm.Handlers.Verified.{ProofSent, Verified, committed_is_Verified}
use storage_fsm.Handlers.Dead.{
  waits_for_seed, commit_failed_never_waits_for_pre_commit, pre_commit_failed_never_waits_for_seed,
}
use storage_fsm.System.Reach.{Reach, Reach-Holds}
use storage_fsm.System.Safety.{handlers_never_panic, handlers_send_planned_events}
use storage_fsm.Tests.{logging, services}
use storage_fsm.Tests.Machine.{play, to_committing}

play-Reach :
    (bs : List (List (Event ℕ))) (s : SectorInfo ℕ)
    → All (All Unforced) bs
    → Reach logging s
    → Reach logging (play bs s)
play-Reach [] s u r = r
play-Reach (b ∷ bs) s u r = play-Reach bs (plan logging b s).0 u.1 (Reach.batch r b u.0)

abbrev batches : List (List (Event ℕ))
batches = (Event.sector_start 1 (ℤ.pos 3) [] ∷ []) ∷ to_committing

unfoldable sealed : SectorInfo ℕ
sealed = play batches zero_sector

sealed-Reach : Reach logging sealed
unfolding sealed
sealed-Reach =
    play-Reach batches zero_sector
      (
        (refl, tt),
        ((refl, tt), ((refl, tt), ((refl, tt), ((refl, tt), ((refl, tt), ((refl, tt), tt)))))),
      )
      Reach.fresh

sealed_state : sealed.state ≡ SectorState.committing
unfolding sealed zero_sector plan storage_fsm.Fsm.Table.planners storage_fsm.Fsm.Table.rows
    storage_fsm.Fsm.Table.plan_one storage_fsm.Events.apply_global
    storage_fsm.Fsm.Table.EventType-discrete storage_fsm.Events.type_of
    storage_fsm.Events.is_mutator
sealed_state = refl

committing_handler : handler_of sealed.state ≡ some Handler.handle_committing
unfolding handler_of
committing_handler = rw sealed_state refl

not_reported : sealed.state ≢ SectorState.fault_reported
not_reported h = absurd (ground (arith, sealed_state))

-- The proof is sent in message 31.
proof_sent : (handle_committing services sealed tt).0 ≡ sends (Event.sector_committed 31 (43 ∷ []))
unfolding sealed zero_sector plan storage_fsm.Fsm.Table.planners storage_fsm.Fsm.Table.rows
    storage_fsm.Fsm.Table.plan_one storage_fsm.Events.apply_global
    storage_fsm.Fsm.Table.EventType-discrete storage_fsm.Events.type_of
    storage_fsm.Events.is_mutator storage_fsm.Fsm.Table.plan_committing storage_fsm.Events.apply
    handle_committing storage_fsm.Handlers.Commit.on_commit_checked
    storage_fsm.Handlers.Commit.submit_proof storage_fsm.Checks.check_commit
    storage_fsm.Checks.check_proof storage_fsm.Checks.miner_sector storage_fsm.Api.Action.attempt
    storage_fsm.Api.Action.bind storage_fsm.Api.Action.pure storage_fsm.Api.Action.when
    storage_fsm.Api.Action.on_nil storage_fsm.Api.Action.check storage_fsm.Base.bytes_equal
    storage_fsm.Base.Int64.add64 storage_fsm.Base.Int64.wrap64 storage_fsm.Base.Int.◌+ℤ◌
proof_sent = refl

handler_sends :
    (run_handler services Handler.handle_committing sealed tt).0
    ≡ sends (Event.sector_committed 31 (43 ∷ []))
unfolding run_handler
handler_sends = proof_sent

handlers_send_planned_events_example :
    (plan logging (Event.sector_committed 31 (43 ∷ []) ∷ []) sealed).1
    ≡ next (handler_of (plan logging (Event.sector_committed 31 (43 ∷ []) ∷ []) sealed).0.state)
handlers_send_planned_events_example =
    handlers_send_planned_events services 5 refl logging (λ e. refl) sealed-Reach
      Handler.handle_committing committing_handler not_reported tt
      (Event.sector_committed 31 (43 ∷ [])) handler_sends

handlers_never_panic_example : (run_handler services Handler.handle_committing sealed tt).0 ≢ panics
handlers_never_panic_example =
    handlers_never_panic services 5 refl logging (λ e. refl) sealed-Reach Handler.handle_committing
      committing_handler tt

Reach-Holds_example : Holds sealed
Reach-Holds_example = Reach-Holds logging sealed-Reach

committed_is_Verified_example :
    ProofSent services sealed 31 (43 ∷ []) × Verified services sealed (43 ∷ [])
committed_is_Verified_example = committed_is_Verified services sealed tt 31 (43 ∷ []) proof_sent

commit_failed_never_waits_for_pre_commit_example :
    (handle_commit_failed services sealed tt).0 ≢ sends Event.sector_retry_pre_commit_wait
commit_failed_never_waits_for_pre_commit_example =
    commit_failed_never_waits_for_pre_commit services sealed tt

pre_commit_failed_never_waits_for_seed_example :
    waits_for_seed (handle_pre_commit_failed services sealed tt).0 ≡ false
pre_commit_failed_never_waits_for_seed_example =
    pre_commit_failed_never_waits_for_seed services sealed tt
