-- ===== src/Tests.antt =====
-- Concrete services, logs and records on which the modules below run the model.
mod Machine
mod Sealed
mod Started
mod Codec
mod Stored
mod Grown
mod Later
mod Runs
mod Small
mod Expiring
mod Sold
mod Decoded
mod Packed
use storage_fsm.Base.{
  ℕ, ◌+◌, ◌-◌, ◌/◌, ◌==◌, true, none, some, [], ◌∷◌, sum, Bytes, errorf, Result, ok, err,
}
use storage_fsm.Base.Int.{ℤ}
use storage_fsm.Sector.{SectorState, SectorInfo, zero_sector}
use storage_fsm.Fsm.Plan.{Logging}
use storage_fsm.Api.{Sealing}
use storage_fsm.Api.Action.{Act}

-- Every event has a log entry.
abbrev pub logging : Logging ℕ
logging = record {
  now = λ i. 1700;
  marshal = λ e. some "{}";
  kind_text = λ e. "event";
  trace_text = λ e. "trace";
}

abbrev pub answer : {World A : Type 0} → A → Act World (Result A)
answer a w = (ok a, w)

-- A chain at height 100 and a miner with the ID 5, for which every call succeeds. CIDs are numbers.
abbrev pub services_on : (World : Type 0) → Sealing ℕ ℕ World
services_on World = record {
  api = record {
    state_wait_msg = λ c. answer (record {
      receipt = record { exit_code = ℤ.pos 0; return = []; gas_used = ℤ.pos 1 };
      tip_set_tok = [];
      height = ℤ.pos 90;
    });
    state_compute_data_commitment = λ a t ds tok. answer 11;
    state_sector_pre_commit_info = λ a n tok. answer (
        some (record { sealed_cid = 12; seal_rand_epoch = ℤ.pos 50; pre_commit_epoch = ℤ.pos 60 }));
    state_sector_get_info = λ a n tok. answer tt;
    state_miner_sector_size = λ a tok. answer 2048;
    state_miner_worker_address = λ a tok. answer 6;
    state_miner_initial_pledge_collateral = λ a n tok. answer (ℤ.pos 0);
    state_market_storage_deal =
        λ d tok. answer (record { piece_cid = 21; piece_size = 128; start_epoch = ℤ.pos 200 });
    send_msg = λ from to method value price limit params. answer 31;
    chain_head = answer (1 ∷ [], ℤ.pos 100);
    chain_get_randomness = λ tok tag epoch entropy. answer (9 ∷ []);
  };
  chain_at = λ confidence height w. (1 ∷ [], w);
  maddr = 7;
  sealer = record {
    sector_size = 2048;
    new_sector = λ id. answer tt;
    add_piece =
        λ p id existing size content. answer (record { size = size + size / 127; piece_cid = 22 });
    seal_pre_commit1 = λ p id ticket ps. answer (41 ∷ []);
    seal_pre_commit2 = λ p id out. answer (12, 11);
    seal_commit1 = λ p id ticket seed ps unsealed sealed. answer (42 ∷ []);
    seal_commit2 = λ p id out. answer (43 ∷ []);
    finalize_sector = λ p id. answer tt;
    remove = λ id. answer tt;
  };
  constants = record {
    chain_finalityish = ℤ.pos 50;
    max_seal_duration = λ t. ℤ.pos 1000;
    pre_commit_challenge_delay = ℤ.pos 10;
    wpost_proving_period = ℤ.pos 2880;
  };
  next_number = answer 1;
  verify_seal = λ v. answer true;
  expiration = λ ps. answer (ℤ.pos 3000);
  cid_equal = λ a b. a == b;
  unpadded = λ n. n - n / 128;
  padded_size = λ n. n;
  zero_piece_commitment = λ n. 22;
  seal_proof_type_from_sector_size = λ n. ok (ℤ.pos 3);
  marshal_address = λ a. ok [];
  marshal_pre_commit = λ p. ok [];
  marshal_prove_commit = λ p. ok [];
  id_from_address = λ a. ok 5;
  now = λ w. (1700, w);
  wait_until = λ t. answer tt;
}

abbrev pub services : Sealing ℕ ℕ (Unit {0})
services = services_on (Unit {0})

-- The same, with no pre-commit on chain, and a CID of a piece that its content decides.
abbrev pub unclaimed : Sealing ℕ ℕ (Unit {0})
unclaimed = record services {
  api = record services.api { state_sector_pre_commit_info = λ a n tok. answer none };
  sealer = record services.sealer {
    add_piece = λ p id existing size content.
        answer (record { size = size + size / 127; piece_cid = 22 + sum content });
  };
}
