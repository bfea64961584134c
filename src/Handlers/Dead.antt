-- ===== src/Handlers/Dead.antt =====
-- states_failed.go `handleCommitFailed` and `handlePreCommitFailed`: which retries they send.
use storage_fsm.Base.{
  ◌≡◌, ◌≢◌, refl, subst, true, false, Error, Option, none, some, Bool, Bytes, arith,
}
use storage_fsm.Sector.{SectorInfo}
use storage_fsm.Events.{Event}
use storage_fsm.Api.{Sealing, PreCommitOnChainInfo}
use storage_fsm.Api.Action.{
  Act, Always, pure-Always, when-Always, bind-Always, on_nil-Always, attempt-Always, check-Always,
}
use storage_fsm.Checks.{
  Check, passes, rejects, faults, err_api, err_bad_comm_d, err_expired_ticket, err_bad_ticket,
  err_precommit_on_chain, err_bad_seed, err_invalid_proof, miner_sector, check_commit, check_proof,
}
use storage_fsm.Handlers.Outcome.{Step, sends, idles, fails, panics}
use storage_fsm.Handlers.Failed.{
  failed_cooldown, check_pre_committed, on_chain_state, after_precommit_check, on_recheck,
  handle_pre_commit_failed, handle_commit_failed,
}

abbrev waits_for_pre_commit : {Cid : Type 0} → Step Cid → Bool
waits_for_pre_commit (sends Event.sector_retry_pre_commit_wait) = true
waits_for_pre_commit _ = false

abbrev pub waits_for_seed : {Cid : Type 0} → Step Cid → Bool
waits_for_seed (sends Event.sector_retry_wait_seed) = true
waits_for_seed (sends (Event.sector_pre_commit_landed tok)) = true
waits_for_seed _ = false

abbrev is_on_chain : Check → Bool
is_on_chain (rejects err_precommit_on_chain) = true
is_on_chain _ = false

module _ {Cid Address World : Type 0} (m : Sealing Cid Address World) (s : SectorInfo Cid) where
  pub cooldown-Always :
      {P : Step Cid → Type 0} {k : Act World (Step Cid)}
      → ((e : Error) → P (fails e))
      → P panics
      → Always P k
      → Always P (failed_cooldown m s k)
  unfolding failed_cooldown
  cooldown-Always stop fault go =
      on_nil-Always _ (λ e. pure-Always _ fault)
        λ l e. bind-Always _ λ now w e.
          when-Always _ (λ b. go) λ b. attempt-Always _ (λ e. pure-Always _ (stop e)) λ done w e. go

  check_proof-off_chain :
      (proof tok : Bytes) (pci : PreCommitOnChainInfo Cid) (seed : Bytes)
      → Always (λ c. is_on_chain c ≡ false) (check_proof m s proof tok pci seed)
  unfolding check_proof miner_sector
  check_proof-off_chain proof tok pci seed =
      when-Always _ (λ b. pure-Always _ refl)
        λ b.
          attempt-Always _ (λ e. pure-Always _ refl)
            λ ss w e.
              check-Always _ (λ e h. pure-Always _ refl)
                λ spt h.
                  on_nil-Always _ (λ e. pure-Always _ refl)
                    λ comm_r r.
                      on_nil-Always _ (λ e. pure-Always _ refl)
                        λ comm_d d.
                          check-Always _ (λ e h. pure-Always _ refl)
                            λ mid h.
                              attempt-Always _ (λ e. pure-Always _ refl)
                                λ valid w e.
                                  when-Always _ (λ b. pure-Always _ refl) λ b. pure-Always _ refl

  check_commit-off_chain :
      (proof tok : Bytes) → Always (λ c. is_on_chain c ≡ false) (check_commit m s proof tok)
  unfolding check_commit
  check_commit-off_chain proof tok =
      when-Always _ (λ b. pure-Always _ refl)
        λ b.
          attempt-Always _ (λ e. pure-Always _ refl)
            λ found w e.
              on_nil-Always _ (λ e. pure-Always _ refl)
                λ pci e.
                  when-Always _ (λ b. pure-Always _ refl)
                    λ b.
                      check-Always _ (λ e h. pure-Always _ refl)
                        λ entropy h.
                          attempt-Always _ (λ e. pure-Always _ refl)
                            λ seed w e. check_proof-off_chain proof tok pci seed

  module _ {P : Step Cid → Type 0} where
    after_precommit_check-Always :
        (k : Act World (Step Cid))
        → P idles
        → ((e : Error) → P (fails e))
        → ((e : Error) → P (sends (Event.sector_seal_pre_commit1_failed e)))
        → P panics
        → Always P k
        → (c : Check) → Always P (after_precommit_check m k c)
    unfolding after_precommit_check
    after_precommit_check-Always k idle stop back fault go passes = go
    after_precommit_check-Always k idle stop back fault go (rejects (err_api e)) =
        pure-Always _ idle
    after_precommit_check-Always k idle stop back fault go (rejects (err_bad_comm_d e)) =
        pure-Always _ (back _)
    after_precommit_check-Always k idle stop back fault go (rejects (err_expired_ticket e)) =
        pure-Always _ (back _)
    after_precommit_check-Always k idle stop back fault go (rejects err_bad_ticket) =
        pure-Always _ (back _)
    after_precommit_check-Always k idle stop back fault go (rejects err_precommit_on_chain) = go
    after_precommit_check-Always k idle stop back fault go (rejects _) = pure-Always _ (stop _)
    after_precommit_check-Always k idle stop back fault go faults = pure-Always _ fault

  on_recheck-off_chain :
      (c : Check)
      → is_on_chain c ≡ false
      → Always (λ r. waits_for_pre_commit r ≡ false) (on_recheck m s c)
  unfolding on_recheck
  on_recheck-off_chain passes h = cooldown-Always (λ e. refl) refl (pure-Always _ refl)
  on_recheck-off_chain (rejects (err_api e)) h = pure-Always _ refl
  on_recheck-off_chain (rejects (err_bad_seed e)) h = pure-Always _ refl
  on_recheck-off_chain (rejects (err_invalid_proof e)) h =
      cooldown-Always (λ e. refl) refl
        (when-Always _ (λ b. pure-Always _ refl) λ b. pure-Always _ refl)
  on_recheck-off_chain (rejects err_precommit_on_chain) h = absurd (ground arith)
  on_recheck-off_chain (rejects _) h = pure-Always _ refl
  on_recheck-off_chain faults h = pure-Always _ refl

  -- `handleCommitFailed` never sends `SectorRetryPreCommitWait`, in no world: the case that would
  -- send it is for an error that `checkCommit` does not return.
  pub commit_failed_never_waits_for_pre_commit :
      (w : World) → (handle_commit_failed m s w).0 ≢ sends Event.sector_retry_pre_commit_wait
  unfolding handle_commit_failed
  commit_failed_never_waits_for_pre_commit w h = absurd (ground (arith, never.at w))
    where
      never : Always (λ r. waits_for_pre_commit r ≡ false) (handle_commit_failed m s)
      never =
          attempt-Always _ (λ e. pure-Always _ refl)
            λ head w e. bind-Always _ λ c w e.
              after_precommit_check-Always _ refl (λ e. refl) (λ e. refl) refl
                (bind-Always _ λ c w e. on_recheck-off_chain c (
                  subst (λ c. is_on_chain c ≡ false) e
                    ((check_commit-off_chain s.proof head.0).at w)))
                c

  abbrev IsUnflagged : Option (PreCommitOnChainInfo Cid) × Bool → Type 0
  IsUnflagged (some pci, flag) = flag ≡ false
  IsUnflagged (none, flag) = Unit

  check_pre_committed-IsUnflagged : Always IsUnflagged (check_pre_committed m s)
  unfolding check_pre_committed
  check_pre_committed-IsUnflagged =
      attempt-Always _ (λ e. pure-Always _ tt)
        λ head w e. attempt-Always _ (λ e. pure-Always _ tt) λ info w e. pure-Always _ (by info)
    where
      by : (info : Option (PreCommitOnChainInfo Cid)) → IsUnflagged (info, false)
      by none = tt
      by (some pci) = refl

  on_chain_state-retries :
      (tok : Bytes) (found : Option (PreCommitOnChainInfo Cid) × Bool)
      → IsUnflagged found
      → Always (λ r. waits_for_seed r ≡ false) (on_chain_state m s tok found)
  unfolding on_chain_state
  on_chain_state-retries tok (some pci, true) h = absurd (ground arith)
  on_chain_state-retries tok (some pci, false) h =
      cooldown-Always (λ e. refl) refl (pure-Always _ refl)
  on_chain_state-retries tok (none, flag) h = cooldown-Always (λ e. refl) refl (pure-Always _ refl)

  -- `handlePreCommitFailed` sends neither `SectorPreCommitLanded` nor `SectorRetryWaitSeed`, in no
  -- world: the flag of `checkPreCommitted` is true only beside a nil pointer.
  pub pre_commit_failed_never_waits_for_seed :
      (w : World) → waits_for_seed (handle_pre_commit_failed m s w).0 ≡ false
  unfolding handle_pre_commit_failed
  pre_commit_failed_never_waits_for_seed w = never.at w
    where
      never : Always (λ r. waits_for_seed r ≡ false) (handle_pre_commit_failed m s)
      never =
          attempt-Always _ (λ e. pure-Always _ refl)
            λ head w e. bind-Always _ λ c w e.
              after_precommit_check-Always _ refl (λ e. refl) (λ e. refl) refl
                (bind-Always _ λ found w e.
                  on_chain_state-retries head.0 found
                    (subst IsUnflagged e (check_pre_committed-IsUnflagged.at w)))
                c
