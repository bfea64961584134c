-- ===== src/System/Completes/Verdict.antt =====
-- Committing where reads succeed: the proof is made, and what the verifier says of it decides.
use storage_fsm.Base.{
  ℕ, ◌≡◌, refl, Bool, true, false, not, some, none, Option, Bytes, bytes_equal_iff, errorf, ok,
  arith,
}
use storage_fsm.Base.Int.{ℤ, eqb_ℤ_iff}
use storage_fsm.Sector.{SectorInfo, sealing_ctx, piece_infos}
use storage_fsm.Events.{Event}
use storage_fsm.Api.{Sealing, PreCommitOnChainInfo}
use storage_fsm.Api.Action.{pure, when}
use storage_fsm.Checks.{
  Check, passes, rejects, reject, err_invalid_proof, check_commit, check_proof, miner_sector,
}
use storage_fsm.Handlers.Outcome.{sends}
use storage_fsm.Handlers.Commit.{rand_height, on_commit_checked, handle_committing}
use storage_fsm.System.Run.Ends.{
  Ends, Answers, pure-Ends, bind-Ends, attempt-Ends, check-Ends, on_nil-Ends, when-true-Ends,
  when-false-Ends,
}
use storage_fsm.System.Completes.Services.{IsSealType, Reads}

-- What `checkCommit` says of a proof, by the verifier.
abbrev pub verdict : Bool → Check
verdict true = passes
verdict false = rejects (err_invalid_proof (errorf "invalid proof"))

module _ {Cid Address World : Type 0} (m : Sealing Cid Address World) where
  verdict-Ends :
      (valid : Bool) (w : World)
      → Ends
          (when (not valid) (reject m (err_invalid_proof (errorf "invalid proof"))) (pure passes))
          w
          (verdict valid)
  verdict-Ends true w = when-false-Ends _ _ w refl (pure-Ends w)
  verdict-Ends false w = when-true-Ends _ _ w refl (pure-Ends w)

  module _ (s : SectorInfo Cid) (pci : PreCommitOnChainInfo Cid) (c : Reads m s.sector_number pci)
      (d : Cid) (has_d : s.comm_d ≡ some d) (has_r : s.comm_r ≡ some pci.sealed_cid)
      (has_seed : s.seed_value ≡ c.seed) (has_epoch : s.seed_epoch ≡ rand_height m pci)
      (valid : Bool) where
    -- The verifier says so of the proof for the sector, as a proof of the miner's type.
    abbrev pub Says : Bytes → Type 0
    Says proof =
        (spt : ℤ)
        → IsSealType m spt
        → Answers
            (m.verify_seal (record {
              sector_id = record { miner = c.miner; number = s.sector_number };
              sealed_cid = pci.sealed_cid;
              seal_proof = spt;
              proof = proof;
              randomness = s.ticket_value;
              interactive_randomness = s.seed_value;
              unsealed_cid = d;
            }))
            valid

    proof-Ends :
        (proof tok : Bytes) (w : World)
        → Says proof
        → Ends (check_proof m s proof tok pci c.seed) w (verdict valid)
    unfolding check_proof miner_sector
    proof-Ends proof tok w says =
        when-false-Ends _ _ w (ground (arith, has_seed, bytes_equal_iff c.seed s.seed_value)) (
          let (size, seal_type, has_size, has_type) = c.has_size tok w in
          attempt-Ends _ _ _ w has_size (
            check-Ends _ _ _ has_type (
              on_nil-Ends _ _ _ has_r (
                on_nil-Ends _ _ _ has_d (
                  check-Ends _ _ _ c.has_id (
                    attempt-Ends _ _ _ _ (says seal_type (tok, w, size, has_size, has_type) _)
                      (verdict-Ends valid _)))))))

    pub checked-Ends :
        (proof tok : Bytes) (w : World)
        → Says proof
        → Ends (check_commit m s proof tok) w (verdict valid)
    unfolding check_commit
    checked-Ends proof tok w says = when-false-Ends _ _ w (rw has_epoch c.not_genesis) (
        attempt-Ends _ _ _ w (c.pre_committed tok w) (
          on_nil-Ends _ _ _ refl (
            when-false-Ends _ _ _
              (ground (arith, has_epoch, eqb_ℤ_iff (rand_height m pci) s.seed_epoch))
              (check-Ends _ _ _ c.address_bytes (
                attempt-Ends {r = ok c.seed} _ _ _ _ (rw has_epoch (c.randomness tok _))
                  (proof-Ends proof tok _ says))))))

    -- `handleCommitting` makes the proof and goes on with what the verifier says of it.
    pub committing_by-Ends :
        (says : (out proof : Bytes) (ctx : Option ℕ) (u v : World)
          → (m.sealer.seal_commit1 ctx
              (record { miner = c.miner; number = s.sector_number })
              s.ticket_value
              s.seed_value
              (piece_infos s)
              d
              pci.sealed_cid
              u).0
            ≡ ok out
          → (m.sealer.seal_commit2 ctx
              (record { miner = c.miner; number = s.sector_number })
              out
              v).0
            ≡ ok proof
          → Says proof)
        (X : Bytes → Type 0) (event : (proof : Bytes) → X proof → Event Cid)
        (tail : (proof tok : Bytes) (w : World)
          → (x : X proof) × Ends
              (on_commit_checked m s proof tok (verdict valid))
              w
              (sends (event proof x)))
        (w : World)
        → (proof : Bytes) × (x : X proof) × Ends (handle_committing m s) w (sends (event proof x))
    unfolding handle_committing miner_sector
    committing_by-Ends says X event tail w =
        let ctx = sealing_ctx s none in
        let (out, one) =
          c.proves1 ctx s.ticket_value s.seed_value (piece_infos s) d pci.sealed_cid w in
        let v =
          (m.sealer.seal_commit1 ctx (record { miner = c.miner; number = s.sector_number })
            s.ticket_value s.seed_value (piece_infos s) d pci.sealed_cid w).1 in
        let (proof, two) = c.proves2 ctx out v in
        let u =
          (m.sealer.seal_commit2 ctx (record { miner = c.miner; number = s.sector_number }) out
            v).1 in
        let (head, has_head) = c.has_head u in
        let checked =
          checked-Ends proof head.0 (m.api.chain_head u).1 (says out proof ctx w v one two) in
        let (x, sent) = tail proof head.0 checked.later in
        (
          proof,
          x,
          on_nil-Ends _ _ w has_d (
              on_nil-Ends _ _ w has_r (
                check-Ends _ _ w c.has_id (
                  attempt-Ends _ _ _ w one (
                    attempt-Ends _ _ _ v two
                      (attempt-Ends _ _ _ u has_head (bind-Ends _ _ _ checked sent)))))),
        )
