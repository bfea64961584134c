-- ===== src/Tests/Runs.antt =====
-- Sectors that are left to themselves: one that gets on chain, one that gets to Proving, one whose
-- proof fails, and one whose proofs are refused.
use storage_fsm.Base.{
  ℕ, ◌≡◌, refl, arith, [], ◌∷◌, err, errorf, some, inr, true, is_some, ok, false, Result, Bool,
  Bytes, All, sum,
}
use storage_fsm.Base.Int.{ℤ, ◌+ℤ◌, ◌-ℤ◌}
use storage_fsm.Base.Int64.{add64, sub64, wrap64}
use storage_fsm.Sector.{SectorState, SectorInfo, deal_ids, zero_sector}
use storage_fsm.Handlers.Packing.{allocated_from}
use storage_fsm.Api.{Sealing, PreCommitOnChainInfo, SealVerifyInfo}
use storage_fsm.Api.Action.{Act}
use storage_fsm.System.Run.{Leads, turns_of}
use storage_fsm.System.GivesUp.Turns.{NeverProves}
use storage_fsm.Checks.{ticket_expired}
use storage_fsm.System.GivesUp.Refused.{Refuses}
use storage_fsm.System.GivesUp.Reseals.{refused_proofs_reseal}
use storage_fsm.System.GivesUp.{failing_prover_gives_up}
use storage_fsm.System.Completes.Services.{Reads, Cooperates}
use storage_fsm.System.Completes.{pre_committed_sector_proves}
use storage_fsm.System.Seals.Services.{Prepares}
use storage_fsm.System.Seals.{packed_sector_is_submitted}
use storage_fsm.Tests.{logging, services, unclaimed}
use storage_fsm.Tests.Later.{slow, slow-Patient}

-- A sector with both commitments and a pre-commit message.
abbrev claimed : SectorInfo ℕ
unfolding zero_sector
claimed = record (zero_sector {Cid = ℕ}) {
  state = SectorState.pre_commit_wait;
  sector_number = 4;
  comm_d = some 11;
  comm_r = some 12;
  pre_commit_message = some 31;
}

abbrev on_chain : PreCommitOnChainInfo ℕ
on_chain = record { sealed_cid = 12; seal_rand_epoch = ℤ.pos 50; pre_commit_epoch = ℤ.pos 60 }

slow_reads :
    (verify : SealVerifyInfo ℕ → Act ℕ (Result Bool))
    → Reads (record slow { verify_seal = verify }) 4 on_chain
unfolding add64 wrap64 ◌+ℤ◌
slow_reads verify = record {
  miner = 5;
  has_id = refl;
  entropy = [];
  seed = 9 ∷ [];
  address_bytes = refl;
  pre_committed = λ tok w. refl;
  not_genesis = refl;
  randomness = λ tok w. refl;
  has_head = λ w. (_, refl);
  proves1 = λ ctx ticket seed ps d r w. (_, refl);
  proves2 = λ ctx out w. (_, refl);
  has_size = λ tok w. (_, _, refl, refl);
}

slow-Cooperates : Cooperates slow 4 on_chain
unfolding slow_reads
slow-Cooperates = record {
  reads = slow_reads _;
  complete = λ ctx info ps out w v is one two u.
      let h : info.seal_proof ≡ ℤ.pos 3 = ground (arith, is.4) in rw h refl;
  marshals = λ p. (_, refl);
  has_worker = λ tok w. (_, refl);
  has_collateral = λ tok w. (_, refl);
  takes = λ from value params w. (_, refl);
  lands = λ message w. (_, refl, refl);
  known = λ tok w. refl;
}

pre_committed_sector_proves_example :
    (t : SectorInfo ℕ) × (v : ℕ) × Leads slow logging claimed 2 t v
    × (t.state ≡ SectorState.proving)
unfolding claimed
pre_committed_sector_proves_example =
    pre_committed_sector_proves slow logging slow-Patient (λ e. refl) claimed on_chain 11
      slow-Cooperates refl refl 31 refl refl 2

-- A sector with one deal.
abbrev fresh : SectorInfo ℕ
unfolding zero_sector
fresh = record (zero_sector {Cid = ℕ}) {
  state = SectorState.packing;
  sector_number = 4;
  sector_type = ℤ.pos 3;
  pieces =
      record {
        piece = record { size = 128; piece_cid = 21 };
        deal_info = some (record {
          deal_id = 9;
          deal_schedule = record { start_epoch = ℤ.pos 200; end_epoch = ℤ.pos 900 };
        });
      }
      ∷ [];
}

sum_of_zeros : (content : Bytes) → All (λ b. b ≡ 0) content → sum content ≡ 0
sum_of_zeros [] h = refl
sum_of_zeros (b ∷ content) h = omega (arith, h.0, sum_of_zeros content h.1)

unclaimed-Prepares : Prepares unclaimed fresh
unfolding fresh allocated_from add64 sub64 wrap64 ◌+ℤ◌ ◌-ℤ◌
unclaimed-Prepares = record {
  miner = 5;
  has_id = refl;
  has_room = refl;
  unpads = λ size. omega arith;
  has_size = omega arith;
  adds = λ existing size content zeros w. (_, refl, ground (arith, sum_of_zeros content zeros.1));
  has_head =
      λ w. (_, _, refl, (((λ e. ground (arith, e)), λ d e v. (_, refl, refl, refl, refl)), tt));
  steady = λ w v tok tok₁ height height₁ e e₁.
      let h : height ≡ ℤ.pos 100 = ground (arith, e) in
      let h₁ : height₁ ≡ ℤ.pos 100 = ground (arith, e₁) in rw (h, h₁) refl;
  entropy = [];
  address_bytes = refl;
  unclaimed = λ tok w. refl;
  randomness = λ tok epoch w. (_, refl);
  seals1 = λ ctx ticket ps w. (_, refl);
  seals2 = λ ctx out w. (_, _, refl, λ tok v. (_, refl, refl));
  has_worker = λ tok w. (_, refl);
  has_expiration = λ ps w. (_, refl);
  marshals = λ p. (_, refl);
  takes = λ from params w. (_, refl);
}

packed_sector_is_submitted_example :
    (t : SectorInfo ℕ) × (v : Unit {0}) × Leads unclaimed logging fresh tt t v
    × (t.state ≡ SectorState.pre_commit_wait)
    × (t.sector_number ≡ fresh.sector_number)
    × (deal_ids t ≡ deal_ids fresh)
    × (is_some t.comm_d ≡ true)
    × (is_some t.comm_r ≡ true)
    × (is_some t.pre_commit_message ≡ true)
unfolding fresh
packed_sector_is_submitted_example =
    packed_sector_is_submitted unclaimed logging fresh unclaimed-Prepares refl tt

-- A prover whose second phase fails.
abbrev broken : Sealing ℕ ℕ (Unit {0})
broken = record services {
  sealer = record services.sealer { seal_commit2 = λ p id out w. (err (errorf "no GPU"), w) };
}

broken-NeverProves : NeverProves broken
broken-NeverProves = record { fails = λ ctx id ticket seed ps d r w. inr (_, refl, λ v. (_, refl)) }

abbrev committing : SectorInfo ℕ
unfolding claimed
committing = record claimed { state = SectorState.committing; invalid_proofs = 1 }

failing_prover_gives_up_example :
    (t : SectorInfo ℕ) × (v : Unit {0}) × (l : Leads broken logging committing tt t v) × (turns_of
        broken logging l
      ≡ 4)
    × (t.state ≡ SectorState.seal_pre_commit1_failed)
    × (t.invalid_proofs ≡ 0)
    × (t.pre_commit2_fails ≡ 0)
unfolding committing
failing_prover_gives_up_example =
    failing_prover_gives_up broken (λ t w. refl) logging (λ e. refl) broken-NeverProves 5 refl
      committing 11 12 refl refl refl tt

-- A verifier that refuses every proof.
abbrev strict : Sealing ℕ ℕ ℕ
strict = record slow { verify_seal = λ v w. (ok false, w) }

abbrev refused : SectorInfo ℕ
unfolding claimed
refused = record claimed {
  state = SectorState.committing;
  ticket_epoch = ℤ.pos 50;
  seed_value = 9 ∷ [];
  seed_epoch = ℤ.pos 70;
}

strict_refusal : Refuses strict refused on_chain 11
unfolding refused claimed ticket_expired add64 sub64 wrap64 ◌+ℤ◌ ◌-ℤ◌
strict_refusal = record {
  reads = slow_reads _;
  refuses = λ info w. refl;
  same_ticket = refl;
  fresh = λ w tok height e. let h : height ≡ ℤ.pos 100 = ground (arith, e) in rw h refl;
  same_data = λ tok w. (_, refl, refl);
}

refused_proofs_reseal_example :
    (t : SectorInfo ℕ) × (v : ℕ) × (l : Leads strict logging refused 0 t v) × (turns_of strict
        logging l
      ≡ 4)
    × (t.state ≡ SectorState.seal_pre_commit1_failed)
    × (t.invalid_proofs ≡ 0)
    × (t.pre_commit2_fails ≡ 0)
unfolding refused claimed slow_reads strict_refusal add64 wrap64 ◌+ℤ◌
refused_proofs_reseal_example =
    refused_proofs_reseal strict logging (λ t w. refl) (λ e. refl) refused on_chain 11
      strict_refusal refl refl refl refl refl 0
