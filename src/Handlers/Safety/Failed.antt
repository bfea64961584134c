-- ===== src/Handlers/Safety/Failed.antt =====
-- states_failed.go: the steps of the retry handlers in their states.
use storage_fsm.Base.{
  ℕ, ◌≡◌, refl, true, false, Option, none, some, Bool, Bytes, is_nil, is_some, ok, Error, errorf,
  arith, subst,
}
use storage_fsm.Sector.{SectorState, SectorInfo}
use storage_fsm.Events.{Event}
use storage_fsm.Api.{Sealing, PreCommitOnChainInfo}
use storage_fsm.Api.Action.{
  Act, Always, pure-Always, when-Always, bind-Always, on_nil-Always, attempt-Always,
}
use storage_fsm.Checks.{
  Check, passes, rejects, faults, err_api, err_bad_comm_d, err_expired_ticket, err_bad_ticket,
  err_precommit_on_chain, err_bad_seed, err_invalid_proof,
}
use storage_fsm.Handlers.Outcome.{Step, sends}
use storage_fsm.Handlers.Failed.{
  handle_seal_precommit1_failed, handle_seal_precommit2_failed, on_chain_state,
  after_precommit_check, handle_pre_commit_failed, handle_compute_proof_failed, on_recheck,
  handle_commit_failed, handle_finalize_failed,
}
use storage_fsm.Handlers.Safety.Basics.{
  Good, NoFault, failed_cooldown-Always, check_precommit-NoFault, check_commit-NoFault,
}

module _ {Cid Address World : Type 0} (m : Sealing Cid Address World) (s : SectorInfo Cid)
    (logged : is_nil s.log ≡ false) where
  pub seal1_failed-Good :
      Always (Good SectorState.seal_pre_commit1_failed) (handle_seal_precommit1_failed m s)
  unfolding handle_seal_precommit1_failed Good
  seal1_failed-Good = failed_cooldown-Always m s logged (λ e. tt) (pure-Always _ refl)

  pub seal2_failed-Good :
      Always (Good SectorState.seal_pre_commit2_failed) (handle_seal_precommit2_failed m s)
  unfolding handle_seal_precommit2_failed Good
  seal2_failed-Good =
      failed_cooldown-Always m s logged (λ e. tt)
        (when-Always _ (λ b. pure-Always _ refl) (λ b. pure-Always _ refl))

  pub proof_failed-Good :
      Always (Good SectorState.compute_proof_failed) (handle_compute_proof_failed m s)
  unfolding handle_compute_proof_failed Good
  proof_failed-Good =
      failed_cooldown-Always m s logged (λ e. tt)
        (when-Always _ (λ b. pure-Always _ refl) (λ b. pure-Always _ refl))

  pub finalize_failed-Good : Always (Good SectorState.finalize_failed) (handle_finalize_failed m s)
  unfolding handle_finalize_failed Good
  finalize_failed-Good = failed_cooldown-Always m s logged (λ e. tt) (pure-Always _ refl)

  module _ (d : is_some s.comm_d ≡ true) (r : is_some s.comm_r ≡ true) where
    on_chain_state-Good :
        (tok : Bytes) (found : Option (PreCommitOnChainInfo Cid) × Bool)
        → Always (Good SectorState.pre_commit_failed) (on_chain_state m s tok found)
    unfolding on_chain_state Good
    on_chain_state-Good tok (some pci, true) =
        when-Always _ (λ b. pure-Always _ refl)
          λ b.
            on_nil-Always _ (λ e. absurd (ground arith))
              λ comm_r e.
                when-Always _ (λ b. pure-Always _ tt)
                  λ b. failed_cooldown-Always m s logged (λ e. tt) (pure-Always _ refl)
    on_chain_state-Good tok (some pci, false) =
        failed_cooldown-Always m s logged (λ e. tt) (pure-Always _ refl)
    on_chain_state-Good tok (none, is) =
        failed_cooldown-Always m s logged (λ e. tt) (pure-Always _ refl)

    -- Both states that recheck the pre-commitment may send the sector back to the first phase.
    after_precommit_check-Good :
        (st : SectorState)
        → ((e : Error) → Good {Cid = Cid} st (sends (Event.sector_seal_pre_commit1_failed e)))
        → (k : Act World (Step Cid)) → Always (Good st) k
        → (c : Check) → NoFault c
        → Always (Good st) (after_precommit_check m k c)
    unfolding after_precommit_check Good
    after_precommit_check-Good st back k go passes n = go
    after_precommit_check-Good st back k go (rejects (err_api e)) n = pure-Always _ tt
    after_precommit_check-Good st back k go (rejects (err_bad_comm_d e)) n = pure-Always _ (back e)
    after_precommit_check-Good st back k go (rejects (err_expired_ticket e)) n =
        pure-Always _ (back e)
    after_precommit_check-Good st back k go (rejects err_bad_ticket) n =
        pure-Always _ (back (errorf ""))
    after_precommit_check-Good st back k go (rejects err_precommit_on_chain) n = go
    after_precommit_check-Good st back k go (rejects _) n = pure-Always _ tt
    after_precommit_check-Good st back k go faults n = absurd n

    pub pre_commit_failed-Good :
        Always (Good SectorState.pre_commit_failed) (handle_pre_commit_failed m s)
    unfolding handle_pre_commit_failed
    pre_commit_failed-Good =
        attempt-Always _ (λ e. pure-Always _ (unfold Good in tt))
          λ head w e. bind-Always _ λ c w e.
            after_precommit_check-Good SectorState.pre_commit_failed (λ e. unfold Good in refl) _
              (bind-Always _ λ found w e. on_chain_state-Good head.0 found) c
              (subst NoFault e ((check_precommit-NoFault m s head.0 head.1 d).at w))

    module _ (mid : ℕ) (has_id : m.id_from_address m.maddr ≡ ok mid) where
      on_recheck-Good :
          (c : Check) → NoFault c → Always (Good SectorState.commit_failed) (on_recheck m s c)
      unfolding on_recheck Good
      on_recheck-Good passes n = failed_cooldown-Always m s logged (λ e. tt) (pure-Always _ refl)
      on_recheck-Good (rejects (err_api e)) n = pure-Always _ tt
      on_recheck-Good (rejects (err_bad_seed e)) n = pure-Always _ refl
      on_recheck-Good (rejects (err_invalid_proof e)) n =
          failed_cooldown-Always m s logged (λ e. tt)
            (when-Always _ (λ b. pure-Always _ refl) (λ b. pure-Always _ refl))
      on_recheck-Good (rejects err_precommit_on_chain) n = pure-Always _ refl
      on_recheck-Good (rejects _) n = pure-Always _ tt
      on_recheck-Good faults n = absurd n

      pub commit_failed-Good : Always (Good SectorState.commit_failed) (handle_commit_failed m s)
      unfolding handle_commit_failed
      commit_failed-Good =
          attempt-Always _ (λ e. pure-Always _ (unfold Good in tt))
            λ head w e. bind-Always _ λ c w e.
              after_precommit_check-Good SectorState.commit_failed (λ e. unfold Good in refl) _
                (bind-Always _ λ c w e.
                  on_recheck-Good c (
                    subst NoFault e
                      ((check_commit-NoFault m mid has_id s s.proof head.0 d r).at w)))
                c (subst NoFault e ((check_precommit-NoFault m s head.0 head.1 d).at w))
