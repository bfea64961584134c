-- ===== src/Handlers/Failed.antt =====
-- states_failed.go: the retries after a failure.
use storage_fsm.Base.{ℕ, ◌+◌, ◌*◌, Option, none, some, List, [], ◌∷◌, Bytes, Bool, true, false, not}
use storage_fsm.Base.{ltb, is_some, Error, errorf, wrapf, String}
use storage_fsm.Sector.{SectorInfo, Log}
use storage_fsm.Events.{Event}
use storage_fsm.Api.{Sealing, PreCommitOnChainInfo}
use storage_fsm.Api.Action.{Act, pure, bind, attempt, on_nil, when}
use storage_fsm.Checks.{
  Check, passes, rejects, faults, err_api, err_bad_comm_d, err_expired_ticket, err_bad_ticket,
  err_precommit_on_chain, err_bad_seed, err_invalid_proof, to_error, check_precommit, check_commit,
}
use storage_fsm.Handlers.Outcome.{Step, send, idle, fail, panic}

-- `minRetryTime`, in nanoseconds.
abbrev pub min_retry_time : ℕ
min_retry_time = 60 * 1000000000

-- `sector.Log[len(sector.Log)-1]`, `none` where Go panics.
unfoldable pub last_entry : List Log → Option Log
last_entry [] = none
last_entry (l ∷ []) = some l
last_entry (l ∷ k ∷ ls) = last_entry (k ∷ ls)

module _ {Cid Address World : Type 0} (m : Sealing Cid Address World) where
  -- `failedCooldown`, followed by `k` if it returns nil. The last entry is read before the test
  -- that there is one.
  unfoldable pub failed_cooldown : SectorInfo Cid → Act World (Step Cid) → Act World (Step Cid)
  unfolding last_entry
  failed_cooldown s k = on_nil (last_entry s.log) panic λ entry.
      let retry_start = entry.timestamp * 1000000000 + min_retry_time in
      bind m.now
        λ now. when (ltb retry_start now) k (attempt (m.wait_until retry_start) fail λ done. k)

  -- `checkPreCommitted`: the pre-commitment found, and the flag, which is true after an error.
  unfoldable pub check_pre_committed :
      SectorInfo Cid → Act World (Option (PreCommitOnChainInfo Cid) × Bool)
  check_pre_committed s =
      attempt m.api.chain_head (λ e. pure (none, true))
        λ (tok, epoch).
          attempt (m.api.state_sector_pre_commit_info m.maddr s.sector_number tok)
            (λ e. pure (none, true)) λ info. pure (info, false)

  unfoldable pub handle_seal_precommit1_failed : SectorInfo Cid → Act World (Step Cid)
  handle_seal_precommit1_failed s = failed_cooldown s (send Event.sector_retry_seal_pre_commit1)

  unfoldable pub handle_seal_precommit2_failed : SectorInfo Cid → Act World (Step Cid)
  handle_seal_precommit2_failed s = failed_cooldown s (
      when (ltb 1 s.pre_commit2_fails) (send Event.sector_retry_seal_pre_commit1)
        (send Event.sector_retry_seal_pre_commit2))

  abbrev seal1_failed : String → Error → Act World (Step Cid)
  seal1_failed text e = send (Event.sector_seal_pre_commit1_failed (wrapf text e))

  -- `handlePreCommitFailed` once a pre-commitment is taken to be on the chain.
  unfoldable pub on_pre_committed :
      SectorInfo Cid → Bytes → PreCommitOnChainInfo Cid → Act World (Step Cid)
  on_pre_committed s tok pci =
      when (is_some s.pre_commit_message) (send (Event.sector_pre_commit_landed tok)) (
        on_nil s.comm_r panic λ comm_r.
          when (not (m.cid_equal pci.sealed_cid comm_r)) idle
            (failed_cooldown s (send Event.sector_retry_wait_seed)))

  -- `if pci, is := m.checkPreCommitted(ctx, sector); is && pci != nil`, and what comes after it.
  unfoldable pub on_chain_state :
      SectorInfo Cid → Bytes → Option (PreCommitOnChainInfo Cid) × Bool → Act World (Step Cid)
  unfolding on_pre_committed
  on_chain_state s tok (some pci, true) = on_pre_committed s tok pci
  on_chain_state s tok (some pci, false) = failed_cooldown s (send Event.sector_retry_pre_commit)
  on_chain_state s tok (none, is) = failed_cooldown s (send Event.sector_retry_pre_commit)

  -- The `switch` that both handlers below make on the result of `checkPrecommit`.
  unfoldable pub after_precommit_check : Act World (Step Cid) → Check → Act World (Step Cid)
  after_precommit_check k passes = k
  after_precommit_check k (rejects (err_api e)) = idle
  after_precommit_check k (rejects (err_bad_comm_d e)) = seal1_failed "bad CommD error: %w" e
  after_precommit_check k (rejects (err_expired_ticket e)) =
      seal1_failed "ticket expired error: %w" e
  after_precommit_check k (rejects err_bad_ticket) =
      seal1_failed "bad expired: %w" (to_error err_bad_ticket)
  after_precommit_check k (rejects err_precommit_on_chain) = k
  after_precommit_check k (rejects e) =
      fail (wrapf "checkPrecommit sanity check error: %w" (to_error e))
  after_precommit_check k faults = panic

  unfoldable pub handle_pre_commit_failed : SectorInfo Cid → Act World (Step Cid)
  unfolding check_pre_committed on_chain_state after_precommit_check
  handle_pre_commit_failed s =
      attempt m.api.chain_head (λ e. idle)
        λ (tok, height).
          bind (check_precommit m s tok height)
            (after_precommit_check (bind (check_pre_committed s) (on_chain_state s tok)))

  unfoldable pub handle_compute_proof_failed : SectorInfo Cid → Act World (Step Cid)
  handle_compute_proof_failed s = failed_cooldown s (
      when (ltb 1 s.invalid_proofs)
        (send (Event.sector_seal_pre_commit1_failed (errorf "consecutive compute fails")))
        (send Event.sector_retry_compute_proof))

  -- The `switch` of `handleCommitFailed` on the result of `checkCommit`.
  unfoldable pub on_recheck : SectorInfo Cid → Check → Act World (Step Cid)
  on_recheck s passes = failed_cooldown s (send Event.sector_retry_compute_proof)
  on_recheck s (rejects (err_api e)) = idle
  on_recheck s (rejects (err_bad_seed e)) = send Event.sector_retry_wait_seed
  on_recheck s (rejects (err_invalid_proof e)) = failed_cooldown s (
      when (ltb 0 s.invalid_proofs)
        (send (Event.sector_seal_pre_commit1_failed (errorf "consecutive invalid proofs")))
        (send Event.sector_retry_invalid_proof))
  on_recheck s (rejects err_precommit_on_chain) = send Event.sector_retry_pre_commit_wait
  on_recheck s (rejects e) = fail (wrapf "checkCommit sanity check error: %w" (to_error e))
  on_recheck s faults = panic

  unfoldable pub handle_commit_failed : SectorInfo Cid → Act World (Step Cid)
  unfolding on_recheck after_precommit_check
  handle_commit_failed s =
      attempt m.api.chain_head (λ e. idle)
        λ (tok, height).
          bind (check_precommit m s tok height)
            (after_precommit_check (bind (check_commit m s s.proof tok) (on_recheck s)))

  unfoldable pub handle_finalize_failed : SectorInfo Cid → Act World (Step Cid)
  handle_finalize_failed s = failed_cooldown s (send Event.sector_retry_finalize)
