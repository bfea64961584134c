-- ===== src/Cbor/States.antt =====
-- sector_state.go: the strings that the constants of `SectorState` are. A state in Go is a string;
-- here it is a constructor for each constant, and `other` for any other string.
pub mod Names
use text.Mathlib.Text.{◌==◌}
use storage_fsm.Base.{String, List, [], ◌∷◌, if◌then◌else◌}
use storage_fsm.Sector.{SectorState}

unfoldable pub state_text : SectorState → String
state_text SectorState.undefined_sector_state = ""
state_text SectorState.empty = "Empty"
state_text SectorState.packing = "Packing"
state_text SectorState.pre_commit1 = "PreCommit1"
state_text SectorState.pre_commit2 = "PreCommit2"
state_text SectorState.pre_committing = "PreCommitting"
state_text SectorState.pre_commit_wait = "PreCommitWait"
state_text SectorState.wait_seed = "WaitSeed"
state_text SectorState.committing = "Committing"
state_text SectorState.commit_wait = "CommitWait"
state_text SectorState.finalize_sector = "FinalizeSector"
state_text SectorState.proving = "Proving"
state_text SectorState.failed_unrecoverable = "FailedUnrecoverable"
state_text SectorState.seal_pre_commit1_failed = "SealPreCommit1Failed"
state_text SectorState.seal_pre_commit2_failed = "SealPreCommit2Failed"
state_text SectorState.pre_commit_failed = "PreCommitFailed"
state_text SectorState.compute_proof_failed = "ComputeProofFailed"
state_text SectorState.commit_failed = "CommitFailed"
state_text SectorState.packing_failed = "PackingFailed"
state_text SectorState.finalize_failed = "FinalizeFailed"
state_text SectorState.faulty = "Faulty"
state_text SectorState.fault_reported = "FaultReported"
state_text SectorState.faulted_final = "FaultedFinal"
state_text SectorState.removing = "Removing"
state_text SectorState.remove_failed = "RemoveFailed"
state_text SectorState.removed = "Removed"
state_text (SectorState.other name) = name

abbrev constants : List SectorState
constants =
    SectorState.undefined_sector_state ∷ SectorState.empty ∷ SectorState.packing
    ∷ SectorState.pre_commit1 ∷ SectorState.pre_commit2 ∷ SectorState.pre_committing
    ∷ SectorState.pre_commit_wait ∷ SectorState.wait_seed ∷ SectorState.committing
    ∷ SectorState.commit_wait ∷ SectorState.finalize_sector ∷ SectorState.proving
    ∷ SectorState.failed_unrecoverable ∷ SectorState.seal_pre_commit1_failed
    ∷ SectorState.seal_pre_commit2_failed ∷ SectorState.pre_commit_failed
    ∷ SectorState.compute_proof_failed ∷ SectorState.commit_failed ∷ SectorState.packing_failed
    ∷ SectorState.finalize_failed ∷ SectorState.faulty ∷ SectorState.fault_reported
    ∷ SectorState.faulted_final ∷ SectorState.removing ∷ SectorState.remove_failed
    ∷ SectorState.removed ∷ []

abbrev find_state : List SectorState → String → SectorState
find_state [] s = SectorState.other s
find_state (st ∷ sts) s = if state_text st == s then st else find_state sts s

-- `SectorState(s)`, the identity on strings in Go: the constructor that stands for the string. It
-- is the inverse of `state_text`.
unfoldable pub state_of : String → SectorState
unfolding state_text
state_of = find_state constants
