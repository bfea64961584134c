-- ===== src/Handlers/Commit.antt =====
-- states_sealing.go: the wait for the seed, the proof and its message, and the end of sealing.
use storage_fsm.Base.{none, Bytes, not, String}
use storage_fsm.Base.{Error, errorf, wrapf}
use storage_fsm.Base.Int.{ℤ, eqb_ℤ}
use storage_fsm.Base.Int64.{add64}
use storage_fsm.Sector.{SectorInfo, piece_infos, sealing_ctx}
use storage_fsm.Events.{Event}
use storage_fsm.Api.{Sealing, PreCommitOnChainInfo, Tag, Method, interactive_porep_confidence}
use storage_fsm.Api.Action.{Act, pure, bind, attempt, check, on_nil, when}
use storage_fsm.Checks.{Check, passes, rejects, faults, to_error, check_commit}
use storage_fsm.Handlers.Outcome.{Step, schedules, send, idle, fail, panic, with_sector}

module _ {Cid Address World : Type 0} (m : Sealing Cid Address World) where
  abbrev pub rand_height : PreCommitOnChainInfo Cid → ℤ
  rand_height pci = add64 pci.pre_commit_epoch m.constants.pre_commit_challenge_delay

  -- `ChainAt` is asked to run `seed_at` at the height; its own error is only logged.
  unfoldable pub handle_wait_seed : SectorInfo Cid → Act World (Step Cid)
  handle_wait_seed s =
      attempt (m.api.state_sector_pre_commit_info m.maddr s.sector_number s.pre_commit_tip_set)
        (λ e. fail (wrapf "getting precommit info: %w" e))
        λ found.
          on_nil found
            (send
              (Event.sector_chain_pre_commit_failed (errorf "precommit info not found on chain")))
            λ pci. pure (schedules interactive_porep_confidence (rand_height pci))

  -- The callback that `handleWaitSeed` registers, at the chain's token; after a failed read of the
  -- seed it sends an event and then fails too.
  unfoldable pub seed_at : ℤ → Bytes → Act World (Step Cid)
  seed_at height tok = check (m.marshal_address m.maddr) fail λ entropy.
      attempt (m.api.chain_get_randomness tok Tag.interactive_seal_challenge_seed height entropy)
        (λ e. send (
          Event.sector_chain_pre_commit_failed
            (wrapf "failed to get randomness for computing seal proof: %w" e)))
        λ rand. send (Event.sector_seed_ready rand height)

  abbrev proof_failed : String → Error → Act World (Step Cid)
  proof_failed text e = send (Event.sector_compute_proof_failed (wrapf text e))

  abbrev commit_failed : String → Error → Act World (Step Cid)
  commit_failed text e = send (Event.sector_commit_failed (wrapf text e))

  -- `handleCommitting` after the check.
  unfoldable pub submit_proof : SectorInfo Cid → Bytes → Bytes → Act World (Step Cid)
  submit_proof s proof tok =
      check (m.marshal_prove_commit (record { sector_number = s.sector_number; proof = proof }))
        (commit_failed "could not serialize commit sector parameters: %w")
        λ enc.
          attempt (m.api.state_miner_worker_address m.maddr tok) (λ e. idle)
            λ waddr.
              attempt (m.api.state_miner_initial_pledge_collateral m.maddr s.sector_number tok)
                (λ e. fail (wrapf "getting initial pledge collateral: %w" e))
                λ collateral.
                  attempt
                    (m.api.send_msg waddr m.maddr Method.prove_commit_sector collateral (ℤ.pos 1)
                      (ℤ.pos 1000000) enc)
                    (commit_failed "pushing message to mpool: %w")
                    λ mcid. send (Event.sector_committed mcid proof)

  unfoldable pub on_commit_checked : SectorInfo Cid → Bytes → Bytes → Check → Act World (Step Cid)
  unfolding submit_proof
  on_commit_checked s proof tok passes = submit_proof s proof tok
  on_commit_checked s proof tok (rejects e) = commit_failed "commit check error: %w" (to_error e)
  on_commit_checked s proof tok faults = panic

  unfoldable pub handle_committing : SectorInfo Cid → Act World (Step Cid)
  unfolding on_commit_checked
  handle_committing s = on_nil s.comm_d panic λ comm_d. on_nil s.comm_r panic λ comm_r.
      with_sector m s.sector_number λ id.
        attempt
          (m.sealer.seal_commit1 (sealing_ctx s none) id s.ticket_value s.seed_value (piece_infos s)
            comm_d comm_r)
          (proof_failed "computing seal proof failed(1): %w")
          λ c2in.
            attempt (m.sealer.seal_commit2 (sealing_ctx s none) id c2in)
              (proof_failed "computing seal proof failed(2): %w")
              λ proof.
                attempt m.api.chain_head (λ e. idle)
                  λ (tok, epoch). bind (check_commit m s proof tok) (on_commit_checked s proof tok)

  unfoldable pub handle_commit_wait : SectorInfo Cid → Act World (Step Cid)
  handle_commit_wait s =
      on_nil s.commit_message
        (send (Event.sector_commit_failed (errorf "entered commit wait with no commit cid")))
        λ message.
          attempt (m.api.state_wait_msg message)
            (commit_failed "failed to wait for porep inclusion: %w")
            λ mw.
              when (not (eqb_ℤ mw.receipt.exit_code (ℤ.pos 0)))
                (send (Event.sector_commit_failed (errorf "submitting sector proof failed")))
                (attempt (m.api.state_sector_get_info m.maddr s.sector_number mw.tip_set_tok)
                  (commit_failed
                    "proof validation failed, sector not found in sector set after cron: %w")
                  λ found. send Event.sector_proving)

  unfoldable pub handle_finalize_sector : SectorInfo Cid → Act World (Step Cid)
  handle_finalize_sector s = with_sector m s.sector_number λ id.
      attempt (m.sealer.finalize_sector (sealing_ctx s none) id)
        (λ e. send (Event.sector_finalize_failed (wrapf "finalize sector: %w" e)))
        λ done. send Event.sector_finalized
