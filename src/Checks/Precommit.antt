-- ===== src/Checks/Precommit.antt =====
-- What `checkPrecommit` establishes.
use storage_fsm.Base.{not-eq_false, ◌≡◌, ap, ◌∙◌, true, false, Option, none, some, Bytes, ok}
use storage_fsm.Base.Int.{ℤ}
use storage_fsm.Sector.{SectorInfo, deal_ids}
use storage_fsm.Api.{Sealing, PreCommitOnChainInfo}
use storage_fsm.Api.Action.{Always, pure-Always, when-Always, on_nil-Always, attempt-Always}
use storage_fsm.Checks.{
  Check, passes, rejects, faults, check_on_chain, check_precommit, ticket_expired,
}

module _ {Cid Address World : Type 0} (m : Sealing Cid Address World) where
  -- The chain computes the data commitment of the record from its deals, the ticket has not
  -- expired at the height, and the sector is not pre-committed.
  pub record Committable (si : SectorInfo Cid) (tok : Bytes) (height : ℤ) : Type 0 where
    pub comm_d : Cid
    pub has_comm_d : si.comm_d ≡ some comm_d
    pub chain_comm_d : Cid
    pub computed :
        (w : World) × ((m.api.state_compute_data_commitment m.maddr si.sector_type
            (deal_ids si)
            tok
            w).0
          ≡ ok chain_comm_d)
    pub same : m.cid_equal chain_comm_d comm_d ≡ true
    pub unexpired : ticket_expired m si height ≡ false
    pub absent :
        (w : World) × ((m.api.state_sector_pre_commit_info m.maddr si.sector_number tok w).0
          ≡ ok none)

  abbrev pub PassCommittable : SectorInfo Cid → Bytes → ℤ → Check → Type 0
  PassCommittable si tok height passes = Committable si tok height
  PassCommittable si tok height (rejects e) = Unit
  PassCommittable si tok height faults = Unit

  on_chain-PassCommittable :
      (si : SectorInfo Cid) (tok : Bytes) (height : ℤ) (pci : Option (PreCommitOnChainInfo Cid))
      → (pci ≡ none → Committable si tok height)
      → Always (PassCommittable si tok height) (check_on_chain m si pci)
  unfolding check_on_chain
  on_chain-PassCommittable si tok height pci good =
      on_nil-Always pci (λ e. pure-Always _ (good e))
        λ info e. when-Always _ (λ b. pure-Always _ tt) λ b. pure-Always _ tt

  pub check_precommit-PassCommittable :
      (si : SectorInfo Cid) (tok : Bytes) (height : ℤ)
      → Always (PassCommittable si tok height) (check_precommit m si tok height)
  unfolding check_precommit
  check_precommit-PassCommittable si tok height =
      attempt-Always _ (λ e. pure-Always _ tt)
        λ chain v computed.
          on_nil-Always _ (λ e. pure-Always _ tt)
            λ comm_d d.
              when-Always _ (λ b. pure-Always _ tt)
                λ same.
                  when-Always _ (λ b. pure-Always _ tt)
                    λ fresh.
                      attempt-Always _ (λ e. pure-Always _ tt)
                        λ pci w a. on_chain-PassCommittable si tok height pci (λ e. record {
                          comm_d = comm_d;
                          has_comm_d = d;
                          chain_comm_d = chain;
                          computed = (v, computed);
                          same = not-eq_false _ same;
                          unexpired = fresh;
                          absent = (w, a ∙ ap ok e);
                        })
