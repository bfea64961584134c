-- ===== src/Checks/Commit.antt =====
-- What `checkCommit` establishes.
use storage_fsm.Base.{not-eq_false, ◌≡◌, refl, sym, ap, ◌∙◌, true, some, [], ◌∷◌, Bytes, ok}
use storage_fsm.Base.{bytes_equal, arith}
use storage_fsm.Base.Int.{ℤ, eqb_ℤ_iff}
use storage_fsm.Base.Int64.{add64}
use storage_fsm.Sector.{SectorInfo}
use storage_fsm.Api.{Sealing, SectorId, PreCommitOnChainInfo, Tag}
use storage_fsm.Api.Action.{
  Always, pure-Always, when-Always, on_nil-Always, attempt-Always, check-Always,
}
use storage_fsm.Checks.{Check, passes, rejects, faults, miner_sector, check_proof, check_commit}

bytes_equal-eq : (xs ys : Bytes) → bytes_equal xs ys ≡ true → xs ≡ ys
unfolding bytes_equal
bytes_equal-eq [] [] h = refl
bytes_equal-eq [] (y ∷ ys) h = absurd (ground arith)
bytes_equal-eq (x ∷ xs) [] h = absurd (ground arith)
bytes_equal-eq (x ∷ xs) (y ∷ ys) h = ground (arith, bytes_equal-eq xs ys)

module _ {Cid Address World : Type 0} (m : Sealing Cid Address World) (si : SectorInfo Cid) where
  -- The seed is the chain's randomness at the challenge epoch of the sector's pre-commit, and the
  -- verifier accepts the proof for the ticket, the seed and both commitments.
  pub record Provable (proof tok : Bytes) : Type 0 where
    pub pci : PreCommitOnChainInfo Cid
    pub found :
        (w : World) × ((m.api.state_sector_pre_commit_info m.maddr si.sector_number tok w).0
          ≡ ok (some pci))
    pub seed_epoch :
        si.seed_epoch ≡ add64 pci.pre_commit_epoch m.constants.pre_commit_challenge_delay
    pub entropy : Bytes
    pub encoded : m.marshal_address m.maddr ≡ ok entropy
    pub drawn :
        (w : World) × ((m.api.chain_get_randomness tok Tag.interactive_seal_challenge_seed
            si.seed_epoch entropy w).0
          ≡ ok si.seed_value)
    pub id : SectorId
    pub spt : ℤ
    pub unsealed_cid : Cid
    pub has_comm_d : si.comm_d ≡ some unsealed_cid
    pub verified :
        (w : World) × ((m.verify_seal
            (record {
              sector_id = id;
              sealed_cid = pci.sealed_cid;
              seal_proof = spt;
              proof = proof;
              randomness = si.ticket_value;
              interactive_randomness = si.seed_value;
              unsealed_cid = unsealed_cid;
            })
            w).0
          ≡ ok true)

  abbrev pub PassProvable : Bytes → Bytes → Check → Type 0
  PassProvable proof tok passes = Provable proof tok
  PassProvable proof tok (rejects e) = Unit
  PassProvable proof tok faults = Unit

  check_proof-PassProvable :
      (proof tok : Bytes) (pci : PreCommitOnChainInfo Cid) (seed entropy : Bytes)
      → ((w : World) × ((m.api.state_sector_pre_commit_info m.maddr si.sector_number tok w).0
            ≡ ok (some pci)))
      → (si.seed_epoch ≡ add64 pci.pre_commit_epoch m.constants.pre_commit_challenge_delay)
      → m.marshal_address m.maddr ≡ ok entropy
      → ((w : World) × ((m.api.chain_get_randomness tok Tag.interactive_seal_challenge_seed
              si.seed_epoch entropy w).0
            ≡ ok seed))
      → Always (PassProvable proof tok) (check_proof m si proof tok pci seed)
  unfolding check_proof miner_sector
  check_proof-PassProvable proof tok pci seed entropy found at encoded drawn =
      when-Always _ (λ b. pure-Always _ tt)
        λ same.
          attempt-Always _ (λ e. pure-Always _ tt)
            λ ss w e.
              check-Always _ (λ e h. pure-Always _ tt)
                λ spt h.
                  on_nil-Always _ (λ e. pure-Always _ tt)
                    λ comm_r r.
                      on_nil-Always _ (λ e. pure-Always _ tt)
                        λ comm_d d.
                          check-Always _ (λ e h. pure-Always _ tt)
                            λ mid h.
                              attempt-Always _ (λ e. pure-Always _ tt)
                                λ valid w e.
                                  when-Always _ (λ b. pure-Always _ tt)
                                    λ b. pure-Always _ (record {
                                      pci = pci;
                                      found = found;
                                      seed_epoch = at;
                                      entropy = entropy;
                                      encoded = encoded;
                                      drawn = (
                                        drawn.0,
                                        drawn.1 ∙ ap ok (bytes_equal-eq _ _ (not-eq_false _ same)),
                                      );
                                      id = record { miner = mid; number = si.sector_number };
                                      spt = spt;
                                      unsealed_cid = comm_d;
                                      has_comm_d = d;
                                      verified = (w, e ∙ ap ok (not-eq_false valid b));
                                    })

  pub check_commit-PassProvable :
      (proof tok : Bytes) → Always (PassProvable proof tok) (check_commit m si proof tok)
  unfolding check_commit
  check_commit-PassProvable proof tok =
      when-Always _ (λ b. pure-Always _ tt)
        λ b.
          attempt-Always _ (λ e. pure-Always _ tt)
            λ found v f.
              on_nil-Always _ (λ e. pure-Always _ tt)
                λ pci p.
                  when-Always _ (λ b. pure-Always _ tt)
                    λ at.
                      check-Always _ (λ e h. pure-Always _ tt)
                        λ entropy h.
                          attempt-Always _ (λ e. pure-Always _ tt)
                            λ seed w r.
                              check_proof-PassProvable proof tok pci seed entropy (v, f ∙ ap ok p)
                                (sym ((eqb_ℤ_iff _ _).0 (not-eq_false _ at))) h (w, r)
