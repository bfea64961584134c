-- ===== src/Handlers.antt =====
-- states_sealing.go, states_failed.go and states_proving.go: what runs in each state, as an action
-- on the services that ends in one step.
pub mod Outcome
pub mod Safety
pub mod Verified
pub mod Dead
pub mod Filled
pub mod Replicated
pub mod Submitted
pub mod Seeded
pub mod Packing
pub mod Zeros
pub mod Commit
pub mod Precommit
pub mod Failed
pub mod Proving
use storage_fsm.Base.{Bytes}
use storage_fsm.Sector.{SectorInfo}
use storage_fsm.Api.{Sealing}
use storage_fsm.Api.Action.{Act}
use storage_fsm.Fsm.Plan.{
  Handler, handle_packing, handle_pre_commit1, handle_pre_commit2, handle_pre_committing,
  handle_pre_commit_wait, handle_wait_seed, handle_committing, handle_commit_wait,
  handle_finalize_sector, handle_seal_precommit1_failed, handle_seal_precommit2_failed,
  handle_pre_commit_failed, handle_compute_proof_failed, handle_commit_failed,
  handle_finalize_failed, handle_removing, handle_faulty, handle_fault_reported,
}
use Outcome.{Step}
use Packing
use Precommit
use Commit
use Failed
use Proving

-- The handler that `plan` returned, on a copy of the record.
unfoldable pub run_handler :
    {Cid Address World : Type 0}
    → Sealing Cid Address World
    → Handler
    → SectorInfo Cid
    → Act World (Step Cid)
run_handler m handle_packing s = Packing.handle_packing m s
run_handler m handle_pre_commit1 s = Precommit.handle_pre_commit1 m s
run_handler m handle_pre_commit2 s = Precommit.handle_pre_commit2 m s
run_handler m handle_pre_committing s = Precommit.handle_pre_committing m s
run_handler m handle_pre_commit_wait s = Precommit.handle_pre_commit_wait m s
run_handler m handle_wait_seed s = Commit.handle_wait_seed m s
run_handler m handle_committing s = Commit.handle_committing m s
run_handler m handle_commit_wait s = Commit.handle_commit_wait m s
run_handler m handle_finalize_sector s = Commit.handle_finalize_sector m s
run_handler m handle_seal_precommit1_failed s = Failed.handle_seal_precommit1_failed m s
run_handler m handle_seal_precommit2_failed s = Failed.handle_seal_precommit2_failed m s
run_handler m handle_pre_commit_failed s = Failed.handle_pre_commit_failed m s
run_handler m handle_compute_proof_failed s = Failed.handle_compute_proof_failed m s
run_handler m handle_commit_failed s = Failed.handle_commit_failed m s
run_handler m handle_finalize_failed s = Failed.handle_finalize_failed m s
run_handler m handle_removing s = Proving.handle_removing m s
run_handler m handle_faulty s = Proving.handle_faulty m s
run_handler m handle_fault_reported s = Proving.handle_fault_reported m s
