-- ===== src/System/GivesUp/Refused.antt =====
-- A verifier that refuses every proof: the loop of Committing and CommitFailed comes to an end.
use storage_fsm.Base.{
  ℕ, ◌+◌, ◌%◌, ◌^◌, ◌≡◌, ◌<◌, refl, true, false, Bytes, some, List, [], ◌∷◌, is_nil, Error, errorf,
  wrapf, ok, arith,
}
use storage_fsm.Base.Int.{ℤ, eqb_ℤ}
use storage_fsm.Sector.{SectorState, SectorInfo, Log, deal_ids}
use storage_fsm.Events.{Event, type_of, is_mutator, apply, apply_global}
use storage_fsm.Fsm.Table.{
  EventType-discrete, plan_one, plan_committing, committing_round, rows, planners,
}
use storage_fsm.Fsm.Plan.{Logging, log_events, plan}
use storage_fsm.Api.{Sealing, PreCommitOnChainInfo, SealVerifyInfo}
use storage_fsm.Checks.{
  rejects, err_precommit_on_chain, err_invalid_proof, to_error, check_on_chain, ticket_expired,
  check_precommit,
}
use storage_fsm.Handlers.Outcome.{sends}
use storage_fsm.Handlers.Commit.{rand_height, on_commit_checked, handle_committing}
use storage_fsm.Handlers.Failed.{on_recheck, after_precommit_check, handle_commit_failed}
use storage_fsm.System.Run.{after_event, after_set}
use storage_fsm.System.Run.Ends.{
  Ends, Answers, pure-Ends, bind-Ends, attempt-Ends, on_nil-Ends, when-true-Ends, when-false-Ends,
  cooldown-Ends,
}
use storage_fsm.System.Completes.Services.{Reads}
use storage_fsm.System.Completes.Verdict.{verdict, checked-Ends, committing_by-Ends}

abbrev pub refusal : Error
refusal = wrapf "commit check error: %w" (to_error (err_invalid_proof (errorf "invalid proof")))

module _ {Cid : Type 0} where
  -- The record in a state, with a count of invalid proofs and a log.
  abbrev pub with_count : SectorState → ℕ → List Log → SectorInfo Cid → SectorInfo Cid
  with_count st i l s = record s { state = st; invalid_proofs = i; log = l }

  module _ (L : Logging Cid) where
    pub refused_after :
        (x : Error) (s : SectorInfo Cid)
        → s.state ≡ SectorState.committing
        → after_event L (Event.sector_commit_failed x) s
          ≡ with_count SectorState.commit_failed s.invalid_proofs
              (log_events L 0 (Event.sector_commit_failed x ∷ []) s.log)
              s
    unfolding plan planners plan_committing committing_round
    refused_after x = after_set L _ _ _ λ s. refl

    pub retried_after :
        (s : SectorInfo Cid)
        → s.state ≡ SectorState.commit_failed
        → after_event L Event.sector_retry_invalid_proof s
          ≡ with_count SectorState.committing
              ((s.invalid_proofs + 1) % 2 ^ 64)
              (log_events L 0 (Event.sector_retry_invalid_proof ∷ []) s.log)
              s
    unfolding plan planners rows plan_one apply_global EventType-discrete type_of is_mutator apply
    retried_after = after_set L _ _ _ λ s. refl

    pub resealed_after :
        (x : Error) (s : SectorInfo Cid)
        → s.state ≡ SectorState.commit_failed
        → after_event L (Event.sector_seal_pre_commit1_failed x) s ≡ record s {
          state = SectorState.seal_pre_commit1_failed;
          invalid_proofs = 0;
          pre_commit2_fails = 0;
          log = log_events L 0 (Event.sector_seal_pre_commit1_failed x ∷ []) s.log;
        }
    unfolding plan planners rows plan_one apply_global EventType-discrete type_of is_mutator apply
    resealed_after x = after_set L _ _ _ λ s. refl

module _ {Cid Address World : Type 0} (m : Sealing Cid Address World) where
  -- Reads succeed and the verifier refuses every proof; the pre-commit on chain has the sector's ticket,
  -- which has not expired, and the data commitment is the one that the chain has.
  pub record Refuses (s : SectorInfo Cid) (pci : PreCommitOnChainInfo Cid) (d : Cid) : Type 0 where
    pub reads : Reads m s.sector_number pci
    pub refuses : (info : SealVerifyInfo Cid) → Answers (m.verify_seal info) false
    pub same_ticket : eqb_ℤ pci.seal_rand_epoch s.ticket_epoch ≡ true
    pub fresh :
        (w : World) (tok : Bytes) (height : ℤ)
        → (m.api.chain_head w).0 ≡ ok (tok, height)
        → ticket_expired m s height ≡ false
    pub same_data :
        (tok : Bytes) (w : World)
        → (chain_d : Cid) × ((m.api.state_compute_data_commitment m.maddr s.sector_type
              (deal_ids s)
              tok
              w).0
            ≡ ok chain_d)
          × (m.cid_equal chain_d d ≡ true)

  module _ (s : SectorInfo Cid) (pci : PreCommitOnChainInfo Cid) (d : Cid) (c : Refuses s pci d)
      (has_d : s.comm_d ≡ some d) (has_r : s.comm_r ≡ some pci.sealed_cid)
      (has_seed : s.seed_value ≡ c.reads.seed) (has_epoch : s.seed_epoch ≡ rand_height m pci)
      (i : ℕ) (l : List Log) where
    pub refused-Ends :
        (w : World)
        → Ends
            (handle_committing m (with_count SectorState.committing i l s))
            w
            (sends (Event.sector_commit_failed refusal))
    unfolding on_commit_checked
    refused-Ends w =
        (committing_by-Ends m (with_count SectorState.committing i l s) pci c.reads d has_d has_r
          has_seed has_epoch false (λ out proof ctx u v one two spt is. c.refuses _) (λ proof. Unit)
          (λ proof x. Event.sector_commit_failed refusal) (λ proof tok v. (tt, pure-Ends v)) w).2

    on_chain-Ends :
        (tok : Bytes) (height : ℤ) (v w : World)
        → (m.api.chain_head v).0 ≡ ok (tok, height)
        → Ends
            (check_precommit m (with_count SectorState.commit_failed i l s) tok height)
            w
            (rejects err_precommit_on_chain)
    unfolding check_precommit check_on_chain ticket_expired deal_ids
    on_chain-Ends tok height v w is =
        let (chain_d, has_chain_d, same) = c.same_data tok w in
        attempt-Ends _ _ _ w has_chain_d (
          on_nil-Ends _ _ _ has_d (
            when-false-Ends _ _ _ (ground (arith, same)) (
              when-false-Ends _ _ _ (c.fresh v tok height is) (
                attempt-Ends _ _ _ _ (c.reads.pre_committed tok _) (
                  on_nil-Ends _ _ _ refl
                    (when-false-Ends _ _ _ (ground (arith, c.same_ticket)) (pure-Ends _)))))))

    module _ (waits : (t : ℕ) → Answers (m.wait_until t) tt) (logged : is_nil l ≡ false) where
      recheck_by-Ends :
          {e : Event Cid} (w : World)
          → ((v : World)
              → Ends
                  (on_recheck m (with_count SectorState.commit_failed i l s) (verdict false))
                  v
                  (sends e))
          → Ends (handle_commit_failed m (with_count SectorState.commit_failed i l s)) w (sends e)
      unfolding handle_commit_failed after_precommit_check
      recheck_by-Ends w h =
          let (head, has_head) = c.reads.has_head w in
          let on_chain = on_chain-Ends head.0 head.1 w (m.api.chain_head w).1 has_head in
          let checked =
            checked-Ends m (with_count SectorState.commit_failed i l s) pci c.reads d has_d has_r
              has_seed has_epoch false s.proof head.0 on_chain.later (λ spt is. c.refuses _) in
          attempt-Ends _ _ _ w has_head
            (bind-Ends _ _ _ on_chain (bind-Ends _ _ _ checked (h checked.later)))

      -- The first refusal is tried again, the second one is not.
      pub try_again-Ends :
          (w : World)
          → i ≡ 0
          → Ends
              (handle_commit_failed m (with_count SectorState.commit_failed i l s))
              w
              (sends Event.sector_retry_invalid_proof)
      unfolding on_recheck
      try_again-Ends w first = recheck_by-Ends w λ v.
          cooldown-Ends m waits _ _ v logged
            λ u. when-false-Ends _ _ u (ground (arith, first)) (pure-Ends u)

      pub reseal-Ends :
          (w : World)
          → 0 < i
          → Ends
              (handle_commit_failed m (with_count SectorState.commit_failed i l s))
              w
              (sends (Event.sector_seal_pre_commit1_failed (errorf "consecutive invalid proofs")))
      unfolding on_recheck
      reseal-Ends w later = recheck_by-Ends w λ v.
          cooldown-Ends m waits _ _ v logged
            λ u. when-true-Ends _ _ u (ground (arith, later)) (pure-Ends u)
