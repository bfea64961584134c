-- ===== src/Entry/New.antt =====
-- sealing.go `New`: the struct from the services that it is given, and its state store.
use storage_fsm.Base.{ℕ, Bool, List, Bytes, Result, String}
use storage_fsm.Base.Int.{ℤ}
use storage_fsm.Sector.{SectorInfo, Piece, zero_sector}
use storage_fsm.Api.{
  Sealing, SealingApi, SectorManager, Constants, PreCommitParams, ProveCommitParams, SealVerifyInfo,
}
use storage_fsm.Api.Action.{Act}
use storage_fsm.Entry.{StateGroup}

-- What the code takes of other packages by name, with no argument of `New` that brings it.
pub record Library (Cid Address World : Type 0) : Type 0 where
  pub constants : Constants
  pub cid_equal : Cid → Cid → Bool
  pub unpadded : ℕ → ℕ
  pub padded_size : ℕ → ℕ
  pub zero_piece_commitment : ℕ → Cid
  pub seal_proof_type_from_sector_size : ℕ → Result ℤ
  pub marshal_address : Address → Result Bytes
  pub marshal_pre_commit : PreCommitParams Cid → Result Bytes
  pub marshal_prove_commit : ProveCommitParams → Result Bytes
  pub id_from_address : Address → Result ℕ
  pub now : Act World ℕ
  pub wait_until : ℕ → Act World (Result (Unit {0}))

abbrev pub sector_store_prefix : String
sector_store_prefix = "/sectors"

module _ {Cid Address World Datastore : Type 0} (lib : Library Cid Address World)
    -- `namespace.Wrap` under a key, and `statemachine.New` for the handlers of a `Sealing`
    (wrap : Datastore → String → Datastore)
    (open_group : Datastore
      → Sealing Cid Address World
      → SectorInfo Cid
      → StateGroup Cid World) where
  -- The arguments that are interfaces with one method that the code calls are given by that method.
  unfoldable pub new :
      SealingApi Cid Address World
      → (ℤ → ℤ → Act World Bytes)
      → Address
      → Datastore
      → SectorManager Cid World
      → Act World (Result ℕ)
      → (SealVerifyInfo Cid → Act World (Result Bool))
      → (List (Piece Cid) → Act World (Result ℤ))
      → Sealing Cid Address World × StateGroup Cid World
  unfolding zero_sector
  new api events maddr ds sealer sc verif pcp =
      let s : Sealing Cid Address World = record {
        api = api;
        chain_at = events;
        maddr = maddr;
        sealer = sealer;
        constants = lib.constants;
        next_number = sc;
        verify_seal = verif;
        expiration = pcp;
        cid_equal = lib.cid_equal;
        unpadded = lib.unpadded;
        padded_size = lib.padded_size;
        zero_piece_commitment = lib.zero_piece_commitment;
        seal_proof_type_from_sector_size = lib.seal_proof_type_from_sector_size;
        marshal_address = lib.marshal_address;
        marshal_pre_commit = lib.marshal_pre_commit;
        marshal_prove_commit = lib.marshal_prove_commit;
        id_from_address = lib.id_from_address;
        now = lib.now;
        wait_until = lib.wait_until;
      } in
      (s, open_group (wrap ds sector_store_prefix) s zero_sector)
