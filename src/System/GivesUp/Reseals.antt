-- ===== src/System/GivesUp/Reseals.antt =====
-- The loop of Committing and CommitFailed with a verifier that refuses every proof.
use storage_fsm.Base.{
  ℕ, zero, suc, ◌-◌, ◌*◌, ◌≡◌, ◌<◌, refl, sym, subst, true, false, some, List, [], is_nil, is_some,
  errorf, arith,
}
use storage_fsm.Sector.{SectorState, SectorInfo, Log}
use storage_fsm.Events.{Event}
use storage_fsm.Fsm.Plan.{
  Logging, handler_of, handle_committing as Prove, handle_commit_failed as RetryCommit,
}
use storage_fsm.Api.{Sealing, PreCommitOnChainInfo}
use storage_fsm.Handlers.{run_handler}
use storage_fsm.Handlers.Commit.{rand_height}
use storage_fsm.System.Reach.{log_events-cons}
use storage_fsm.System.Run.{Leads, stops, turns_of}
use storage_fsm.System.Run.Ends.{Answers}
use storage_fsm.System.GivesUp.Turns.{GivesUpIn, preceded}
use storage_fsm.System.GivesUp.Refused.{
  refusal, with_count, refused_after, retried_after, resealed_after, Refuses, refused-Ends,
  try_again-Ends, reseal-Ends,
}

module _ {Cid Address World : Type 0} (m : Sealing Cid Address World) (L : Logging Cid)
    (waits : (t : ℕ) → Answers (m.wait_until t) tt)
    (marshals : (e : Event Cid) → is_some (L.marshal e) ≡ true) (s : SectorInfo Cid)
    (pci : PreCommitOnChainInfo Cid) (d : Cid) (c : Refuses m s pci d) (has_d : s.comm_d ≡ some d)
    (has_r : s.comm_r ≡ some pci.sealed_cid) (has_seed : s.seed_value ≡ c.reads.seed)
    (has_epoch : s.seed_epoch ≡ rand_height m pci) where
  -- A refused proof, then what the handler of the failure does.
  refused_round :
      (n i : ℕ) (l : List Log) (w : World)
      → ((k : List Log) (v : World)
          → is_nil k ≡ false
          → GivesUpIn m L n (with_count SectorState.commit_failed i k s) v)
      → GivesUpIn m L (suc n) (with_count SectorState.committing i l s) w
  unfolding run_handler handler_of
  refused_round n i l w rest =
      let e = refused-Ends m s pci d c has_d has_r has_seed has_epoch i l w in
      preceded m L Prove refl e.is (refused_after L refusal _ refl)
        (rest _ e.later (log_events-cons L marshals 0 _ [] l))

  resealed :
      (i : ℕ) (l : List Log) (w : World)
      → is_nil l ≡ false
      → 0 < i
      → GivesUpIn m L 1 (with_count SectorState.commit_failed i l s) w
  unfolding run_handler handler_of
  resealed i l w logged later =
      let e = reseal-Ends m s pci d c has_d has_r has_seed has_epoch i l waits logged w later in
      preceded m L RetryCommit refl e.is
        (resealed_after L (errorf "consecutive invalid proofs") _ refl)
        (_, e.later, stops, refl, refl, refl, refl)

  from_committing :
      (i : ℕ) (l : List Log) (w : World)
      → GivesUpIn m L (2 * suc (1 - i)) (with_count SectorState.committing i l s) w
  unfolding run_handler handler_of
  from_committing zero l w = refused_round 3 0 l w λ k v logged.
      let e = try_again-Ends m s pci d c has_d has_r has_seed has_epoch 0 k waits logged v refl in
      preceded m L RetryCommit refl e.is (retried_after L _ refl)
        (refused_round 1 1 _ e.later λ j u logged. resealed 1 j u logged (omega arith))
  from_committing (suc i) l w =
      subst (λ n. GivesUpIn m L n (with_count SectorState.committing (suc i) l s) w) (omega arith)
        (refused_round 1 (suc i) l w λ k v logged. resealed (suc i) k v logged (omega arith))

  -- If the verifier refuses every proof, a sector in Committing with both commitments and the seed
  -- of its pre-commit gets to SealPreCommit1Failed with its counters at 0, through its handlers
  -- and the events that they send: four of them if no invalid proof was counted before, and two
  -- otherwise. The pre-commit on chain has the replica commitment and the ticket of the sector,
  -- the ticket has not expired, the data commitment is the one of the chain, the challenge epoch
  -- is not 0, the miner has an ID address, which encodes, the prover answers and reads of the
  -- chain succeed, waits come to their end, and events marshal to JSON.
  pub refused_proofs_reseal :
      s.state ≡ SectorState.committing
      → (w : World)
      → (t : SectorInfo Cid) × (v : World) × (l : Leads m L s w t v) × (turns_of m L l
          ≡ 2 * suc (1 - s.invalid_proofs))
        × (t.state ≡ SectorState.seal_pre_commit1_failed)
        × (t.invalid_proofs ≡ 0)
        × (t.pre_commit2_fails ≡ 0)
  refused_proofs_reseal at w =
      subst (λ st. GivesUpIn m L (2 * suc (1 - s.invalid_proofs)) (record s { state = st }) w)
        (sym at) (from_committing s.invalid_proofs s.log w)
