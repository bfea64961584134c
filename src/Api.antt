-- ===== src/Api.antt =====
-- sealing.go (`SealingAPI`, `Sealing`), events.go and constants.go: the services that the handlers
-- call, as parameters. `World` stands for everything that the services may change, so two equal
-- calls may have different answers.
pub mod Action
use storage_fsm.Base.{ℕ, Bool, Option, List, Bytes, Error, Result}
use storage_fsm.Base.Int.{ℤ}
use storage_fsm.Sector.{Piece, PieceInfo, MsgLookup}
use Action.{Act}

-- The fields of `miner.SectorPreCommitOnChainInfo` and of the `Info` in it that the code reads.
pub record PreCommitOnChainInfo (Cid : Type 0) : Type 0 where
  pub sealed_cid : Cid
  pub seal_rand_epoch : ℤ
  pub pre_commit_epoch : ℤ

-- The fields of `market.DealProposal` that the code reads.
pub record DealProposal (Cid : Type 0) : Type 0 where
  pub piece_cid : Cid
  pub piece_size : ℕ
  pub start_epoch : ℤ

-- `abi.SectorID`.
pub record SectorId : Type 0 where
  pub miner : ℕ
  pub number : ℕ

-- `miner.SectorPreCommitInfo`, as `handlePreCommitting` fills it.
pub record PreCommitParams (Cid : Type 0) : Type 0 where
  pub expiration : ℤ
  pub sector_number : ℕ
  pub seal_proof : ℤ
  pub sealed_cid : Cid
  pub seal_rand_epoch : ℤ
  pub deal_ids : List ℕ

-- `miner.ProveCommitSectorParams`.
pub record ProveCommitParams : Type 0 where
  pub sector_number : ℕ
  pub proof : Bytes

-- `abi.SealVerifyInfo`, as `checkCommit` fills it.
pub record SealVerifyInfo (Cid : Type 0) : Type 0 where
  pub sector_id : SectorId
  pub sealed_cid : Cid
  pub seal_proof : ℤ
  pub proof : Bytes
  pub randomness : Bytes
  pub interactive_randomness : Bytes
  pub unsealed_cid : Cid

-- The domain-separation tags that the code passes to `ChainGetRandomness`.
pub data Tag : Type 0 where
  seal_randomness interactive_seal_challenge_seed : Tag

-- The methods of the miner actor that the code calls.
pub data Method : Type 0 where
  pre_commit_sector prove_commit_sector : Method

-- Constants of specs-actors.
pub record Constants : Type 0 where
  pub chain_finalityish : ℤ
  pub max_seal_duration : ℤ → ℤ
  pub pre_commit_challenge_delay : ℤ
  pub wpost_proving_period : ℤ

-- `SealRandomnessLookback` and `SealRandomnessLookbackLimit` of constants.go.
abbrev pub seal_randomness_lookback : Constants → ℤ
seal_randomness_lookback k = k.chain_finalityish

abbrev pub seal_randomness_lookback_limit : Constants → ℤ → ℤ
seal_randomness_lookback_limit k spt = k.max_seal_duration spt

-- `InteractivePoRepConfidence`.
abbrev pub interactive_porep_confidence : ℤ
interactive_porep_confidence = ℤ.pos 6

-- The methods of `SealingAPI` that the code calls.
pub record SealingApi (Cid Address World : Type 0) : Type 0 where
  pub state_wait_msg : Cid → Act World (Result MsgLookup)
  pub state_compute_data_commitment : Address → ℤ → List ℕ → Bytes → Act World (Result Cid)
  pub state_sector_pre_commit_info :
      Address → ℕ → Bytes → Act World (Result (Option (PreCommitOnChainInfo Cid)))
  pub state_sector_get_info : Address → ℕ → Bytes → Act World (Result (Unit {0}))
  pub state_miner_sector_size : Address → Bytes → Act World (Result ℕ)
  pub state_miner_worker_address : Address → Bytes → Act World (Result Address)
  pub state_miner_initial_pledge_collateral : Address → ℕ → Bytes → Act World (Result ℤ)
  pub state_market_storage_deal : ℕ → Bytes → Act World (Result (DealProposal Cid))
  -- from, to, method, value, gas price, gas limit, parameters
  pub send_msg : Address → Address → Method → ℤ → ℤ → ℤ → Bytes → Act World (Result Cid)
  pub chain_head : Act World (Result (Bytes × ℤ))
  pub chain_get_randomness : Bytes → Tag → ℤ → Bytes → Act World (Result Bytes)

-- The methods of `sectorstorage.SectorManager` that the code calls. The first argument of most is
-- the priority that the context carries.
pub record SectorManager (Cid World : Type 0) : Type 0 where
  pub sector_size : ℕ
  pub new_sector : SectorId → Act World (Result (Unit {0}))
  -- the sizes of the pieces that are there, the size of the new one, and its data
  pub add_piece : Option ℕ → SectorId → List ℕ → ℕ → Bytes → Act World (Result (PieceInfo Cid))
  pub seal_pre_commit1 :
      Option ℕ → SectorId → Bytes → List (PieceInfo Cid) → Act World (Result Bytes)
  -- sealed, unsealed
  pub seal_pre_commit2 : Option ℕ → SectorId → Bytes → Act World (Result (Cid × Cid))
  -- ticket, seed, pieces, unsealed, sealed
  pub seal_commit1 :
      Option ℕ
      → SectorId
      → Bytes
      → Bytes
      → List (PieceInfo Cid)
      → Cid
      → Cid
      → Act World (Result Bytes)
  pub seal_commit2 : Option ℕ → SectorId → Bytes → Act World (Result Bytes)
  pub finalize_sector : Option ℕ → SectorId → Act World (Result (Unit {0}))
  pub remove : SectorId → Act World (Result (Unit {0}))

-- The struct `Sealing` without its state store, the constants, and the functions of other
-- packages: encoders, the clock and the timer.
pub record Sealing (Cid Address World : Type 0) : Type 0 where
  pub api : SealingApi Cid Address World
  -- `m.events.ChainAt`: from the confidence and the height, the world at the time when the callback
  -- is called, and the token that it gets
  pub chain_at : ℤ → ℤ → Act World Bytes
  pub maddr : Address
  pub sealer : SectorManager Cid World
  pub constants : Constants
  -- `m.sc.Next`
  pub next_number : Act World (Result ℕ)
  -- `m.verif.VerifySeal`
  pub verify_seal : SealVerifyInfo Cid → Act World (Result Bool)
  -- `m.pcp.Expiration`
  pub expiration : List (Piece Cid) → Act World (Result ℤ)
  pub cid_equal : Cid → Cid → Bool
  -- `abi.PaddedPieceSize.Unpadded`
  pub unpadded : ℕ → ℕ
  -- `padreader.PaddedSize`
  pub padded_size : ℕ → ℕ
  pub zero_piece_commitment : ℕ → Cid
  pub seal_proof_type_from_sector_size : ℕ → Result ℤ
  -- `m.maddr.MarshalCBOR`
  pub marshal_address : Address → Result Bytes
  pub marshal_pre_commit : PreCommitParams Cid → Result Bytes
  pub marshal_prove_commit : ProveCommitParams → Result Bytes
  -- `address.IDFromAddress`
  pub id_from_address : Address → Result ℕ
  -- `time.Now` in nanoseconds, and a wait up to a time, which the context may cancel
  pub now : Act World ℕ
  pub wait_until : ℕ → Act World (Result (Unit {0}))
