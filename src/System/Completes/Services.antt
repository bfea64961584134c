-- ===== src/System/Completes/Services.antt =====
-- The services of a sector whose pre-commit is on chain, where all goes well.
use storage_fsm.Base.{ℕ, ◌≡◌, ok, some, false, true, Bytes, List, Option, Result}
use storage_fsm.Base.Int.{ℤ, eqb_ℤ}
use storage_fsm.Sector.{PieceInfo, MsgLookup}
use storage_fsm.Api.{Sealing, PreCommitOnChainInfo, ProveCommitParams, SealVerifyInfo, Tag, Method}
use storage_fsm.Api.Action.{Act}
use storage_fsm.Handlers.Commit.{rand_height}
use storage_fsm.System.Run.Ends.{Answers}

-- In every world the call answers with some value.
abbrev pub Succeeds : {World A : Type 0} → Act World (Result A) → Type 0
Succeeds {World} {A} x = (w : World) → (a : A) × ((x w).0 ≡ ok a)

module _ {Cid Address World : Type 0} (m : Sealing Cid Address World) where
  -- A message that is waited for is on chain with the exit code 0.
  abbrev pub Lands : Cid → Type 0
  Lands message =
      (w : World)
      → (mw : MsgLookup) × ((m.api.state_wait_msg message w).0 ≡ ok mw)
        × (mw.receipt.exit_code ≡ ℤ.pos 0)

  -- The type of the proofs for the size that the chain has for the miner's sectors.
  abbrev pub IsSealType : ℤ → Type 0
  IsSealType seal_type =
      (tok : Bytes) × (w : World) × (size : ℕ) × ((m.api.state_miner_sector_size m.maddr tok w).0
        ≡ ok size)
      × (m.seal_proof_type_from_sector_size size ≡ ok seal_type)

  -- What the two phases of a proof answer for these inputs is accepted by the verifier, as a proof of
  -- that type.
  abbrev pub Complete : Type 0
  Complete =
      (ctx : Option ℕ) (info : SealVerifyInfo Cid) (ps : List (PieceInfo Cid)) (out : Bytes)
      (w v : World)
      → IsSealType info.seal_proof
      → (m.sealer.seal_commit1 ctx info.sector_id info.randomness info.interactive_randomness ps
          info.unsealed_cid info.sealed_cid w).0
        ≡ ok out
      → (m.sealer.seal_commit2 ctx info.sector_id out v).0 ≡ ok info.proof
      → Answers (m.verify_seal info) true

  -- The pre-commit `pci` of the sector `number` is on chain, the chain has the seed of its challenge
  -- epoch, the prover answers, and reads of the chain succeed.
  pub record Reads (number : ℕ) (pci : PreCommitOnChainInfo Cid) : Type 0 where
    pub miner : ℕ
    pub has_id : m.id_from_address m.maddr ≡ ok miner
    pub entropy : Bytes
    pub seed : Bytes
    pub address_bytes : m.marshal_address m.maddr ≡ ok entropy
    pub pre_committed :
        (tok : Bytes) → Answers (m.api.state_sector_pre_commit_info m.maddr number tok) (some pci)
    pub not_genesis : eqb_ℤ (rand_height m pci) (ℤ.pos 0) ≡ false
    pub randomness :
        (tok : Bytes)
        → Answers
            (m.api.chain_get_randomness tok Tag.interactive_seal_challenge_seed
              (rand_height m pci)
              entropy)
            seed
    pub has_head : Succeeds m.api.chain_head
    pub proves1 :
        (ctx : Option ℕ) (ticket seed : Bytes) (ps : List (PieceInfo Cid)) (unsealed sealed : Cid)
        → Succeeds (
            m.sealer.seal_commit1 ctx
              (record { miner = miner; number = number })
              ticket
              seed
              ps
              unsealed
              sealed)
    pub proves2 :
        (ctx : Option ℕ) (out : Bytes)
        → Succeeds (m.sealer.seal_commit2 ctx (record { miner = miner; number = number }) out)
    pub has_size :
        (tok : Bytes) (w : World)
        → (size : ℕ) × (seal_type : ℤ) × ((m.api.state_miner_sector_size m.maddr tok w).0 ≡ ok size)
          × (m.seal_proof_type_from_sector_size size ≡ ok seal_type)

  -- The verifier accepts what the prover answers, other calls of the chain succeed too, and messages
  -- land.
  pub record Cooperates (number : ℕ) (pci : PreCommitOnChainInfo Cid) : Type 0 where
    pub reads : Reads number pci
    pub complete : Complete
    pub marshals : (p : ProveCommitParams) → (b : Bytes) × (m.marshal_prove_commit p ≡ ok b)
    pub has_worker : (tok : Bytes) → Succeeds (m.api.state_miner_worker_address m.maddr tok)
    pub has_collateral :
        (tok : Bytes) → Succeeds (m.api.state_miner_initial_pledge_collateral m.maddr number tok)
    pub takes :
        (from : Address) (value : ℤ) (params : Bytes)
        → Succeeds (
            m.api.send_msg from m.maddr Method.prove_commit_sector value
              (ℤ.pos 1)
              (ℤ.pos 1000000)
              params)
    pub lands : (message : Cid) → Lands message
    pub known : (tok : Bytes) → Answers (m.api.state_sector_get_info m.maddr number tok) tt
