-- ===== src/System/Completes.antt =====
-- A pre-committed sector gets to Proving, on a chain that takes what it is sent.
pub mod Services
pub mod Verdict
pub mod Prove
use storage_fsm.Base.{
  ◌≡◌, refl, ap, sym, subst, true, false, some, [], ◌∷◌, is_some, Bytes, bytes_equal, ok, arith,
  List,
}
use storage_fsm.Base.Int.{ℤ, eqb_ℤ}
use storage_fsm.Sector.{SectorState, SectorInfo}
use storage_fsm.Events.{Event, type_of, is_mutator, apply, apply_global}
use storage_fsm.Fsm.Table.{
  EventType-discrete, plan_one, plan_committing, committing_round, rows, planners,
}
use storage_fsm.Fsm.Plan.{
  Logging, log_events, plan, handler_of, handle_pre_commit_wait as PreCommitWait,
  handle_wait_seed as WaitSeed, handle_committing as Committing,
}
use storage_fsm.Api.{Sealing, PreCommitOnChainInfo, interactive_porep_confidence}
use storage_fsm.Api.Action.{Act}
use storage_fsm.Handlers.{run_handler}
use storage_fsm.Handlers.Commit.{rand_height}
use storage_fsm.System.Run.{Leads, stops, turn, called_back, from_record, after_event, after_set}
use storage_fsm.System.Progress.{Patient, committed_sector_proves}
use Services.{Lands, Cooperates}
use Prove.{pre_commit_wait-Ends, wait_seed-Ends, seed-Ends, committing-Ends}

module _ {Cid : Type 0} (L : Logging Cid) where
  abbrev landed : Bytes → SectorInfo Cid → SectorInfo Cid
  landed tok s = record s {
    state = SectorState.wait_seed;
    pre_commit_tip_set = tok;
    log = log_events L 0 (Event.sector_pre_commit_landed tok ∷ []) s.log;
  }

  abbrev seeded : Bytes → ℤ → SectorInfo Cid → SectorInfo Cid
  seeded seed epoch s = record s {
    state = SectorState.committing;
    seed_value = seed;
    seed_epoch = epoch;
    log = log_events L 0 (Event.sector_seed_ready seed epoch ∷ []) s.log;
  }

  abbrev committed : Cid → Bytes → SectorInfo Cid → SectorInfo Cid
  committed message proof s = record s {
    state = SectorState.commit_wait;
    commit_message = some message;
    proof = proof;
    log = log_events L 0 (Event.sector_committed message proof ∷ []) s.log;
  }

  landed_after :
      (tok : Bytes) (s : SectorInfo Cid)
      → s.state ≡ SectorState.pre_commit_wait
      → after_event L (Event.sector_pre_commit_landed tok) s ≡ landed tok s
  unfolding plan planners rows plan_one apply_global EventType-discrete type_of is_mutator apply
  landed_after tok = after_set L _ _ _ λ s. refl

  seeded_after :
      (seed : Bytes) (epoch : ℤ) (s : SectorInfo Cid)
      → s.state ≡ SectorState.wait_seed
      → after_event L (Event.sector_seed_ready seed epoch) s ≡ seeded seed epoch s
  unfolding plan planners rows plan_one apply_global EventType-discrete type_of is_mutator apply
  seeded_after seed epoch = after_set L _ _ _ λ s. refl

  committed_after :
      (message : Cid) (proof : Bytes) (s : SectorInfo Cid)
      → s.state ≡ SectorState.committing
      → after_event L (Event.sector_committed message proof) s ≡ committed message proof s
  unfolding plan planners plan_committing committing_round apply
  committed_after message proof = after_set L _ _ _ λ s. refl

module _ {Cid Address World : Type 0} (m : Sealing Cid Address World) (L : Logging Cid)
    (p : Patient m L) (marshals : (e : Event Cid) → is_some (L.marshal e) ≡ true) where
  abbrev Proves : SectorInfo Cid → World → Type 0
  Proves s w =
      (t : SectorInfo Cid) × (v : World) × Leads m L s w t v × (t.state ≡ SectorState.proving)

  module _ (s : SectorInfo Cid) (pci : PreCommitOnChainInfo Cid) (d : Cid)
      (c : Cooperates m s.sector_number pci) (has_d : s.comm_d ≡ some d)
      (has_r : s.comm_r ≡ some pci.sealed_cid) where
    from_committing :
        (tok : Bytes) (w : World)
        → Proves (seeded L c.reads.seed (rand_height m pci) (landed L tok s)) w
    unfolding run_handler handler_of
    from_committing tok w =
        let s₁ = seeded L c.reads.seed (rand_height m pci) (landed L tok s) in
        let (proof, message, e) = committing-Ends m s₁ pci c d has_d has_r refl refl w in
        let (t, u, leads, done) =
          committed_sector_proves m L p c.reads.miner c.reads.has_id marshals
            (committed L message proof s₁) message refl refl (c.lands message) c.known e.later in
        (
          t,
          u,
          turn Committing refl e.is
              (from_record m L (committed_after L message proof s₁ refl) leads),
          done,
        )

    from_wait_seed : (tok : Bytes) (w : World) → Proves (landed L tok s) w
    unfolding run_handler handler_of
    from_wait_seed tok w =
        let s₁ = landed L tok s in
        let e = wait_seed-Ends m s₁ pci c w in
        let (tok₁, v) = m.chain_at interactive_porep_confidence (rand_height m pci) e.later in
        let sent = seed-Ends m s₁ pci c tok₁ v in
        let (t, u, leads, done) = from_committing tok sent.later in
        (
          t,
          u,
          called_back WaitSeed refl e.is sent.is
              (from_record m L (seeded_after L c.reads.seed (rand_height m pci) s₁ refl) leads),
          done,
        )

    -- A sector in PreCommitWait with both commitments gets to Proving, through its handlers, the
    -- callback for the seed and the events that they send, if its pre-commit message lands and the
    -- pre-commit is on chain with its replica commitment. The challenge epoch is not 0, the miner
    -- has an ID address, addresses and parameters encode, the calls of the chain succeed, the size
    -- that it has for the miner's sectors has a proof type, messages land, the prover answers and
    -- the verifier accepts what it answers for the inputs that it was given, as a proof of that
    -- type; the storage fails to finalize the sector finitely often, waits come to their end, and
    -- events marshal to JSON.
    pub pre_committed_sector_proves :
        (message : Cid)
        → s.state ≡ SectorState.pre_commit_wait
        → s.pre_commit_message ≡ some message
        → (w : World)
        → (t : SectorInfo Cid) × (v : World) × Leads m L s w t v × (t.state ≡ SectorState.proving)
    unfolding run_handler handler_of
    pre_committed_sector_proves message at has w =
        let (tok, e) = pre_commit_wait-Ends m s message has (c.lands message) w in
        let (t, u, leads, done) = from_wait_seed tok e.later in
        (
          t,
          u,
          turn PreCommitWait (ap handler_of at) e.is
              (from_record m L (landed_after L tok s at) leads),
          done,
        )
