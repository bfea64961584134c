-- ===== src/Checks.antt =====
-- checks.go: the checks of a sector against the chain. An error of a type of its own is a
-- constructor of `CheckError`; `plain` is any other error.
pub mod Pieces
pub mod Precommit
pub mod Commit
use storage_fsm.Base.{ℕ, Bool, true, false, not, ◌||◌, Option, none, some, List, [], ◌∷◌}
use storage_fsm.Base.{Bytes, bytes_equal, ◌==◌, Error, errorf, wrapf, Result, ok, err}
use storage_fsm.Base.Int.{ℤ, leb_ℤ, ltb_ℤ, eqb_ℤ}
use storage_fsm.Base.Int64.{add64, sub64}
use storage_fsm.Sector.{Piece, SectorInfo, deal_ids}
use storage_fsm.Api.Action.{Act, pure, attempt, check, on_nil, when}
use storage_fsm.Api.{
  Sealing, SectorId, SealVerifyInfo, PreCommitOnChainInfo, DealProposal, Tag,
  seal_randomness_lookback, seal_randomness_lookback_limit,
}

pub data CheckError : Type 0 where
  err_api err_invalid_deals err_invalid_piece err_expired_deals : Error → CheckError
  err_bad_comm_d err_expired_ticket : Error → CheckError
  err_bad_ticket err_precommit_on_chain : CheckError
  err_bad_seed err_invalid_proof err_no_precommit : Error → CheckError
  plain : Error → CheckError

-- The error inside; that of `ErrBadTicket` and `ErrPrecommitOnChain` is nil, and has no text.
abbrev pub to_error : CheckError → Error
to_error (err_api e) = e
to_error (err_invalid_deals e) = e
to_error (err_invalid_piece e) = e
to_error (err_expired_deals e) = e
to_error (err_bad_comm_d e) = e
to_error (err_expired_ticket e) = e
to_error err_bad_ticket = errorf ""
to_error err_precommit_on_chain = errorf ""
to_error (err_bad_seed e) = e
to_error (err_invalid_proof e) = e
to_error (err_no_precommit e) = e
to_error (plain e) = e

-- A check passes, rejects the sector, or panics on a nil pointer or a bad miner address.
pub data Check : Type 0 where
  passes : Check
  rejects : CheckError → Check
  faults : Check

module _ {Cid Address World : Type 0} (m : Sealing Cid Address World) where
  abbrev pub reject : CheckError → Act World Check
  reject e = pure (rejects e)

  -- `minerSector`, with `absent` for its panic.
  unfoldable pub miner_sector :
      {B : Type 0} → ℕ → Act World B → (SectorId → Act World B) → Act World B
  miner_sector num absent k =
      check (m.id_from_address m.maddr) (λ e. absent)
        λ mid. k (record { miner = mid; number = num })

  -- The checks of `checkPieces` on a piece whose deal's proposal is at hand.
  unfoldable pub check_proposal :
      ℤ → Piece Cid → DealProposal Cid → Act World Check → Act World Check
  check_proposal height p proposal rest =
      when (not (m.cid_equal proposal.piece_cid p.piece.piece_cid))
        (reject (err_invalid_deals (errorf "piece refers deal with wrong PieceCID")))
        (when (not (p.piece.size == proposal.piece_size))
          (reject (err_invalid_deals (errorf "piece refers deal with different size")))
          (when (leb_ℤ proposal.start_epoch height)
            (reject (err_expired_deals (errorf "piece refers expired deal"))) rest))

  -- The loop of `checkPieces`.
  unfoldable pub check_each : Bytes → ℤ → List (Piece Cid) → Act World Check
  unfolding check_proposal
  check_each tok height [] = pure passes
  check_each tok height (p ∷ ps) =
      let rest = check_each tok height ps in
      on_nil p.deal_info
        (when
          (not (m.cid_equal p.piece.piece_cid (m.zero_piece_commitment (m.unpadded p.piece.size))))
          (reject (err_invalid_piece (errorf "piece had non-zero PieceCID"))) rest)
        λ d.
          attempt (m.api.state_market_storage_deal d.deal_id tok)
            (λ e. reject (err_api (wrapf "getting deal for piece: %w" e)))
            λ proposal. check_proposal height p proposal rest

  unfoldable pub check_pieces : SectorInfo Cid → Act World Check
  unfolding check_each
  check_pieces si =
      attempt m.api.chain_head (λ e. reject (err_api (wrapf "getting chain head: %w" e)))
        λ (tok, height). check_each tok height si.pieces

  -- The last part of `checkPrecommit`.
  unfoldable pub check_on_chain :
      SectorInfo Cid → Option (PreCommitOnChainInfo Cid) → Act World Check
  check_on_chain si pci = on_nil pci (pure passes) λ info.
      when (not (eqb_ℤ info.seal_rand_epoch si.ticket_epoch)) (reject err_bad_ticket)
        (reject err_precommit_on_chain)

  -- Has the seal ticket of the sector expired at this height?
  unfoldable pub ticket_expired : SectorInfo Cid → ℤ → Bool
  ticket_expired si height =
      ltb_ℤ (seal_randomness_lookback_limit m.constants si.sector_type)
        (sub64 height (add64 si.ticket_epoch (seal_randomness_lookback m.constants)))

  unfoldable pub check_precommit : SectorInfo Cid → Bytes → ℤ → Act World Check
  unfolding check_on_chain ticket_expired
  check_precommit si tok height =
      attempt (m.api.state_compute_data_commitment m.maddr si.sector_type (deal_ids si) tok)
        (λ e. reject (err_api (wrapf "calling StateComputeDataCommitment: %w" e)))
        λ chain_comm_d. on_nil si.comm_d (pure faults) λ comm_d.
          when (not (m.cid_equal chain_comm_d comm_d))
            (reject (err_bad_comm_d (errorf "on chain CommD differs from sector")))
            (when (ticket_expired si height) (reject (err_expired_ticket (errorf "ticket expired")))
              (attempt (m.api.state_sector_pre_commit_info m.maddr si.sector_number tok)
                (λ e. reject (err_api (wrapf "getting precommit info: %w" e)))
                λ pci. check_on_chain si pci))

  -- `checkCommit` from the read of the chain's seed on.
  unfoldable pub check_proof :
      SectorInfo Cid → Bytes → Bytes → PreCommitOnChainInfo Cid → Bytes → Act World Check
  check_proof si proof tok pci seed =
      when (not (bytes_equal seed si.seed_value))
        (reject (err_bad_seed (errorf "seed has changed")))
        (attempt (m.api.state_miner_sector_size m.maddr tok) (λ e. reject (err_api e))
          λ ss.
            check (m.seal_proof_type_from_sector_size ss) (λ e. reject (plain e))
              λ spt. on_nil si.comm_r (pure faults) λ comm_r.
                on_nil si.comm_d (pure faults) λ comm_d.
                  miner_sector si.sector_number (pure faults) λ id.
                    attempt
                      (m.verify_seal (record {
                        sector_id = id;
                        sealed_cid = pci.sealed_cid;
                        seal_proof = spt;
                        proof = proof;
                        randomness = si.ticket_value;
                        interactive_randomness = si.seed_value;
                        unsealed_cid = comm_d;
                      }))
                      (λ e. reject (plain (wrapf "verify seal: %w" e)))
                      λ valid.
                        when (not valid) (reject (err_invalid_proof (errorf "invalid proof")))
                          (pure passes))

  unfoldable pub check_commit : SectorInfo Cid → Bytes → Bytes → Act World Check
  unfolding check_proof
  check_commit si proof tok =
      when (eqb_ℤ si.seed_epoch (ℤ.pos 0)) (reject (err_bad_seed (errorf "seed epoch was not set")))
        (attempt (m.api.state_sector_pre_commit_info m.maddr si.sector_number tok)
          (λ e. reject (plain (wrapf "getting precommit info: %w" e)))
          λ found.
            on_nil found (reject (err_no_precommit (errorf "precommit info not found on-chain")))
              λ pci.
                when
                  (not (
                    eqb_ℤ (add64 pci.pre_commit_epoch m.constants.pre_commit_challenge_delay)
                      si.seed_epoch))
                  (reject (err_bad_seed (errorf "seed epoch doesn't match on chain info")))
                  (check (m.marshal_address m.maddr) (λ e. reject (plain e))
                    λ entropy.
                      attempt
                        (m.api.chain_get_randomness tok Tag.interactive_seal_challenge_seed
                          si.seed_epoch entropy)
                        (λ e. reject (
                          err_api
                            (wrapf "failed to get randomness for computing seal proof: %w" e)))
                        λ seed. check_proof si proof tok pci seed))
