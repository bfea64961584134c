-- ===== src/System/GivesUp.antt =====
-- A prover that fails every time: the loop of Committing and ComputeProofFailed comes to an end.
pub mod Turns
pub mod Refused
pub mod Reseals
use storage_fsm.Base.{
  ℕ, zero, suc, ◌+◌, ◌-◌, ◌*◌, ◌%◌, ◌^◌, ◌≡◌, ◌<◌, ◌≤◌, refl, subst, ap, ◌∙◌, ◌⊎◌, inl, inr, true,
  false, Bytes, Option, none, some, [], ◌∷◌, is_nil, is_some, Error, errorf, ok, err, arith, List,
}
use storage_fsm.Sector.{SectorState, SectorInfo, PieceInfo, piece_infos, sealing_ctx}
use storage_fsm.Events.{Event, type_of, is_mutator, apply, apply_global}
use storage_fsm.Fsm.Table.{
  EventType-discrete, plan_one, plan_committing, committing_round, rows, planners,
}
use storage_fsm.Fsm.Plan.{
  Logging, log_events, plan, handler_of, handle_committing as Prove,
  handle_compute_proof_failed as RetryProof,
}
use storage_fsm.Api.{Sealing, SectorId}
use storage_fsm.Handlers.{run_handler}
use storage_fsm.Handlers.Outcome.{sends}
use storage_fsm.Handlers.Commit.{handle_committing}
use storage_fsm.Handlers.Failed.{handle_compute_proof_failed}
use storage_fsm.Checks.{miner_sector}
use storage_fsm.System.Run.{Leads, stops, turn, turns_of, after_event, after_set, logged_after}
use storage_fsm.System.Run.Ends.{
  Ends, Answers, pure-Ends, attempt-Ends, check-Ends, on_nil-Ends, when-true-Ends, when-false-Ends,
  cooldown-Ends,
}
use Turns.{
  preceded, GivesUpIn, proof_failed_after, retry_after, gives_up_after, NeverProves,
  committing-Ends, retry-Ends, give_up-Ends,
}

module _ {Cid Address World : Type 0} (m : Sealing Cid Address World)
    (waits : (t : ℕ) → Answers (m.wait_until t) tt) (L : Logging Cid)
    (marshals : (e : Event Cid) → is_some (L.marshal e) ≡ true) (p : NeverProves m) (mid : ℕ)
    (has_id : m.id_from_address m.maddr ≡ ok mid) where
  -- A failed proof, then what the handler of the failure does.
  round :
      (n : ℕ) (s : SectorInfo Cid) (w : World) (d r : Cid)
      → s.state ≡ SectorState.committing
      → s.comm_d ≡ some d
      → s.comm_r ≡ some r
      → ((t : SectorInfo Cid) (v : World)
          → t.state ≡ SectorState.compute_proof_failed
          → t.comm_d ≡ some d
          → t.comm_r ≡ some r
          → t.invalid_proofs ≡ s.invalid_proofs
          → is_nil t.log ≡ false
          → GivesUpIn m L n t v)
      → GivesUpIn m L (suc n) s w
  unfolding run_handler handler_of
  round n s w d r at has_d has_r rest =
      let (x, e) = committing-Ends m p mid has_id s d r w has_d has_r in
      let after = proof_failed_after L x s at in
      preceded m L Prove (ap handler_of at) e.is refl (
        rest (after_event L (Event.sector_compute_proof_failed x) s) e.later
          (ap (λ s. s.state) after) (ap (λ s. s.comm_d) after ∙ has_d)
          (ap (λ s. s.comm_r) after ∙ has_r) (ap (λ s. s.invalid_proofs) after)
          (logged_after L marshals _ s))

  last_time :
      (t : SectorInfo Cid) (v : World)
      → t.state ≡ SectorState.compute_proof_failed
      → is_nil t.log ≡ false
      → 1 < t.invalid_proofs
      → GivesUpIn m L 1 t v
  unfolding run_handler handler_of
  last_time t v at logged many =
      let e = give_up-Ends m waits t v logged many in
      let after = gives_up_after L (errorf "consecutive compute fails") t at in
      preceded m L RetryProof (ap handler_of at) e.is after (_, _, stops, refl, refl, refl, refl)

  again :
      (n : ℕ) (t : SectorInfo Cid) (v : World)
      → t.state ≡ SectorState.compute_proof_failed
      → is_nil t.log ≡ false
      → t.invalid_proofs ≤ 1
      → ((s : SectorInfo Cid) (w : World)
          → s.state ≡ SectorState.committing
          → s.comm_d ≡ t.comm_d
          → s.comm_r ≡ t.comm_r
          → s.invalid_proofs ≡ t.invalid_proofs + 1
          → GivesUpIn m L n s w)
      → GivesUpIn m L (suc n) t v
  unfolding run_handler handler_of
  again n t v at logged few rest =
      let e = retry-Ends m waits t v logged few in
      let after = retry_after L t at few in
      preceded m L RetryProof (ap handler_of at) e.is refl (
        rest (after_event L Event.sector_retry_compute_proof t) e.later (ap (λ s. s.state) after)
          (ap (λ s. s.comm_d) after) (ap (λ s. s.comm_r) after) (ap (λ s. s.invalid_proofs) after))

  loop :
      (n : ℕ) (s : SectorInfo Cid) (w : World) (d r : Cid)
      → s.state ≡ SectorState.committing
      → s.comm_d ≡ some d
      → s.comm_r ≡ some r
      → 2 - s.invalid_proofs ≡ n
      → GivesUpIn m L (2 * suc n) s w
  loop zero s w d r at has_d has_r few =
      round 1 s w d r at has_d has_r
        λ t v at hd hr same logged. last_time t v at logged (omega (arith, same, few))
  loop (suc n) s w d r at has_d has_r few =
      subst (λ k. GivesUpIn m L k s w) (omega arith)
        (round (suc (2 * suc n)) s w d r at has_d has_r λ t v at hd hr same logged.
          again (2 * suc n) t v at logged (omega (arith, same, few)) λ u x at cd cr more.
            loop n u x d r at (cd ∙ hd) (cr ∙ hr) (omega (arith, more, same, few)))

  -- If one of the two phases of the proof fails every time, a sector in Committing with both
  -- commitments gets to SealPreCommit1Failed with its counters at 0, through its handlers and the
  -- events that they send: six of them, two less for each invalid proof that was counted before,
  -- and two at least. Waits come to their end, the miner has an ID address, and events marshal
  -- to JSON.
  pub failing_prover_gives_up :
      (s : SectorInfo Cid) (d r : Cid)
      → s.state ≡ SectorState.committing
      → s.comm_d ≡ some d
      → s.comm_r ≡ some r
      → (w : World)
      → (t : SectorInfo Cid) × (v : World) × (l : Leads m L s w t v) × (turns_of m L l
          ≡ 2 * suc (2 - s.invalid_proofs))
        × (t.state ≡ SectorState.seal_pre_commit1_failed)
        × (t.invalid_proofs ≡ 0)
        × (t.pre_commit2_fails ≡ 0)
  failing_prover_gives_up s d r at has_d has_r w = loop _ s w d r at has_d has_r refl
