-- ===== src/Handlers/Precommit.antt =====
-- states_sealing.go: the two sealing phases, the pre-commit message, and the wait for it.
use storage_fsm.Base.{Option, none, some, [], Bytes, not, String}
use storage_fsm.Base.{Error, errorf, wrapf, Result, ok, err}
use storage_fsm.Base.Int.{ℤ, eqb_ℤ}
use storage_fsm.Base.Int64.{sub64}
use storage_fsm.Sector.{SectorInfo, piece_infos, deal_ids, sealing_ctx}
use storage_fsm.Events.{Event}
use storage_fsm.Api.{Sealing, PreCommitOnChainInfo, Tag, Method, seal_randomness_lookback}
use storage_fsm.Api.Action.{Act, pure, bind, attempt, check, on_nil, when}
use storage_fsm.Checks.{
  Check, passes, rejects, faults, err_api, err_invalid_deals, err_expired_deals, err_bad_comm_d,
  err_expired_ticket, err_bad_ticket, err_precommit_on_chain, to_error, check_pieces,
  check_precommit,
}
use storage_fsm.Handlers.Outcome.{Step, send, idle, fail, panic, with_sector}

module _ {Cid Address World : Type 0} (m : Sealing Cid Address World) where
  -- The epoch of the ticket: that of a pre-commitment on the chain, or one far enough back.
  abbrev pub ticket_epoch_for : ℤ → Option (PreCommitOnChainInfo Cid) → ℤ
  ticket_epoch_for epoch none = sub64 epoch (seal_randomness_lookback m.constants)
  ticket_epoch_for epoch (some pci) = pci.seal_rand_epoch

  -- A failed `ChainHead` gives an empty ticket and no error.
  unfoldable pub get_ticket : SectorInfo Cid → Act World (Result (Bytes × ℤ))
  get_ticket s =
      attempt m.api.chain_head (λ e. pure (ok ([], ℤ.pos 0)))
        λ (tok, epoch).
          check (m.marshal_address m.maddr) (λ e. pure (err e))
            λ entropy.
              attempt (m.api.state_sector_pre_commit_info m.maddr s.sector_number tok)
                (λ e. pure (err (wrapf "getting precommit info: %w" e)))
                λ pci.
                  attempt
                    (m.api.chain_get_randomness tok Tag.seal_randomness (ticket_epoch_for epoch pci)
                      entropy)
                    (λ e. pure (err e)) λ rand. pure (ok (rand, ticket_epoch_for epoch pci))

  abbrev seal1_failed : String → Error → Act World (Step Cid)
  seal1_failed text e = send (Event.sector_seal_pre_commit1_failed (wrapf text e))

  -- `handlePreCommit1` after the check.
  unfoldable pub replicate_sector : SectorInfo Cid → Act World (Step Cid)
  unfolding get_ticket
  replicate_sector s =
      attempt (get_ticket s) (seal1_failed "getting ticket failed: %w") λ (value, epoch).
        with_sector m s.sector_number λ id.
          attempt (m.sealer.seal_pre_commit1 (sealing_ctx s none) id value (piece_infos s))
            (seal1_failed "seal pre commit(1) failed: %w")
            λ out. send (Event.sector_pre_commit1 out value epoch)

  unfoldable pub on_pieces_checked : SectorInfo Cid → Check → Act World (Step Cid)
  unfolding replicate_sector
  on_pieces_checked s passes = replicate_sector s
  on_pieces_checked s (rejects (err_api e)) = idle
  on_pieces_checked s (rejects (err_invalid_deals e)) =
      send (Event.sector_packing_failed (wrapf "invalid dealIDs in sector: %w" e))
  on_pieces_checked s (rejects (err_expired_deals e)) =
      send (Event.sector_packing_failed (wrapf "expired dealIDs in sector: %w" e))
  on_pieces_checked s (rejects e) = fail (wrapf "checkPieces sanity check error: %w" (to_error e))
  on_pieces_checked s faults = panic

  unfoldable pub handle_pre_commit1 : SectorInfo Cid → Act World (Step Cid)
  unfolding on_pieces_checked
  handle_pre_commit1 s = bind (check_pieces m s) (on_pieces_checked s)

  unfoldable pub handle_pre_commit2 : SectorInfo Cid → Act World (Step Cid)
  handle_pre_commit2 s = with_sector m s.sector_number λ id.
      attempt (m.sealer.seal_pre_commit2 (sealing_ctx s none) id s.pre_commit1_out)
        (λ e. send (Event.sector_seal_pre_commit2_failed (wrapf "seal pre commit(2) failed: %w" e)))
        λ (sealed, unsealed). send (Event.sector_pre_commit2 sealed unsealed)

  abbrev chain_failed : String → Error → Act World (Step Cid)
  chain_failed text e = send (Event.sector_chain_pre_commit_failed (wrapf text e))

  -- `handlePreCommitting` after the check.
  unfoldable pub submit_pre_commit : SectorInfo Cid → Address → Act World (Step Cid)
  submit_pre_commit s waddr =
      attempt (m.expiration s.pieces)
        (seal1_failed "handlePreCommitting: failed to compute pre-commit expiry: %w")
        λ expiration. on_nil s.comm_r panic λ comm_r.
          check
            (m.marshal_pre_commit (record {
              expiration = expiration;
              sector_number = s.sector_number;
              seal_proof = s.sector_type;
              sealed_cid = comm_r;
              seal_rand_epoch = s.ticket_epoch;
              deal_ids = deal_ids s;
            }))
            (chain_failed "could not serialize pre-commit sector parameters: %w")
            λ enc.
              attempt
                (m.api.send_msg waddr m.maddr Method.pre_commit_sector (ℤ.pos 0) (ℤ.pos 1)
                  (ℤ.pos 1000000) enc)
                (chain_failed "pushing message to mpool: %w")
                λ mcid. send (Event.sector_pre_committed mcid)

  unfoldable pub on_precommit_checked :
      SectorInfo Cid → Bytes → Address → Check → Act World (Step Cid)
  unfolding submit_pre_commit
  on_precommit_checked s tok waddr passes = submit_pre_commit s waddr
  on_precommit_checked s tok waddr (rejects (err_api e)) = idle
  on_precommit_checked s tok waddr (rejects (err_bad_comm_d e)) =
      seal1_failed "bad CommD error: %w" (to_error (err_bad_comm_d e))
  on_precommit_checked s tok waddr (rejects (err_expired_ticket e)) =
      seal1_failed "ticket expired: %w" (to_error (err_expired_ticket e))
  on_precommit_checked s tok waddr (rejects err_bad_ticket) =
      seal1_failed "bad ticket: %w" (to_error err_bad_ticket)
  on_precommit_checked s tok waddr (rejects err_precommit_on_chain) =
      send (Event.sector_pre_commit_landed tok)
  on_precommit_checked s tok waddr (rejects e) =
      fail (wrapf "checkPrecommit sanity check error: %w" (to_error e))
  on_precommit_checked s tok waddr faults = panic

  unfoldable pub handle_pre_committing : SectorInfo Cid → Act World (Step Cid)
  unfolding on_precommit_checked
  handle_pre_committing s =
      attempt m.api.chain_head (λ e. idle)
        λ (tok, height).
          attempt (m.api.state_miner_worker_address m.maddr tok) (λ e. idle)
            λ waddr. bind (check_precommit m s tok height) (on_precommit_checked s tok waddr)

  unfoldable pub handle_pre_commit_wait : SectorInfo Cid → Act World (Step Cid)
  handle_pre_commit_wait s =
      on_nil s.pre_commit_message
        (send (Event.sector_chain_pre_commit_failed (errorf "precommit message was nil")))
        λ message.
          attempt (m.api.state_wait_msg message)
            (λ e. send (Event.sector_chain_pre_commit_failed e))
            λ mw.
              when (not (eqb_ℤ mw.receipt.exit_code (ℤ.pos 0)))
                (send (Event.sector_chain_pre_commit_failed (errorf "sector precommit failed: %d")))
                (send (Event.sector_pre_commit_landed mw.tip_set_tok))
