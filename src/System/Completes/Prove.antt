-- ===== src/System/Completes/Prove.antt =====
-- The handlers from PreCommitWait to Committing on such services.
use storage_fsm.Base.{true, ◌≡◌, refl, some, Bytes}
use storage_fsm.Sector.{SectorInfo}
use storage_fsm.Events.{Event}
use storage_fsm.Api.{Sealing, PreCommitOnChainInfo, interactive_porep_confidence}
use storage_fsm.Handlers.Outcome.{sends, schedules}
use storage_fsm.Handlers.Precommit.{handle_pre_commit_wait}
use storage_fsm.Handlers.Commit.{
  rand_height, handle_wait_seed, seed_at, submit_proof, on_commit_checked, handle_committing,
}
use storage_fsm.System.Run.Ends.{
  Ends, pure-Ends, attempt-Ends, check-Ends, on_nil-Ends, when-false-Ends,
}
use storage_fsm.System.Completes.Services.{Lands, Cooperates}
use storage_fsm.System.Completes.Verdict.{committing_by-Ends}

module _ {Cid Address World : Type 0} (m : Sealing Cid Address World) where
  pub pre_commit_wait-Ends :
      (s : SectorInfo Cid) (message : Cid)
      → s.pre_commit_message ≡ some message
      → Lands m message
      → (w : World)
      → (tok : Bytes) × Ends
          (handle_pre_commit_wait m s)
          w
          (sends (Event.sector_pre_commit_landed tok))
  unfolding handle_pre_commit_wait
  pre_commit_wait-Ends s message has lands w =
      let (mw, is, zero_code) = lands w in
      (
        _,
        on_nil-Ends _ _ w has
            (attempt-Ends _ _ _ w is (when-false-Ends _ _ _ (rw zero_code refl) (pure-Ends _))),
      )

  module _ (s : SectorInfo Cid) (pci : PreCommitOnChainInfo Cid)
      (c : Cooperates m s.sector_number pci) where
    pub wait_seed-Ends :
        (w : World)
        → Ends (handle_wait_seed m s) w (schedules interactive_porep_confidence (rand_height m pci))
    unfolding handle_wait_seed
    wait_seed-Ends w =
        attempt-Ends _ _ _ w (c.reads.pre_committed _ w) (on_nil-Ends _ _ _ refl (pure-Ends _))

    pub seed-Ends :
        (tok : Bytes) (w : World)
        → Ends
            (seed_at m (rand_height m pci) tok)
            w
            (sends (Event.sector_seed_ready c.reads.seed (rand_height m pci)))
    unfolding seed_at
    seed-Ends tok w =
        check-Ends _ _ w c.reads.address_bytes
          (attempt-Ends _ _ _ w (c.reads.randomness tok w) (pure-Ends _))

    module _ (d : Cid) (has_d : s.comm_d ≡ some d) (has_r : s.comm_r ≡ some pci.sealed_cid)
        (has_seed : s.seed_value ≡ c.reads.seed)
        (has_epoch : s.seed_epoch ≡ rand_height m pci) where
      submit-Ends :
          (proof tok : Bytes) (w : World)
          → (message : Cid) × Ends
              (submit_proof m s proof tok)
              w
              (sends (Event.sector_committed message proof))
      unfolding submit_proof
      submit-Ends proof tok w =
          let (enc, marshals) =
            c.marshals (record { sector_number = s.sector_number; proof = proof }) in
          let (worker, has_worker) = c.has_worker tok w in
          let v = (m.api.state_miner_worker_address m.maddr tok w).1 in
          let (collateral, has_collateral) = c.has_collateral tok v in
          let u = (m.api.state_miner_initial_pledge_collateral m.maddr s.sector_number tok v).1 in
          let (message, takes) = c.takes worker collateral enc u in
          (
            message,
            check-Ends _ _ w marshals (
                attempt-Ends _ _ _ w has_worker
                  (attempt-Ends _ _ _ v has_collateral (attempt-Ends _ _ _ u takes (pure-Ends _)))),
          )

      pub committing-Ends :
          (w : World)
          → (proof : Bytes) × (message : Cid) × Ends
              (handle_committing m s)
              w
              (sends (Event.sector_committed message proof))
      unfolding on_commit_checked
      committing-Ends w =
          committing_by-Ends m s pci c.reads d has_d has_r has_seed has_epoch true
            (λ out proof ctx u v one two spt is. c.complete ctx _ _ out u v is one two)
            (λ proof. Cid) (λ proof message. Event.sector_committed message proof) submit-Ends w
