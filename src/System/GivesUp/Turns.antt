-- ===== src/System/GivesUp/Turns.antt =====
-- Committing and ComputeProofFailed with a prover that fails: the records after the events, and the
-- handlers.
use storage_fsm.Base.{
  suc, sym, subst, ℕ, ◌+◌, ◌%◌, ◌^◌, ◌≡◌, ◌<◌, ◌≤◌, refl, ap, ◌∙◌, ◌⊎◌, inl, inr, false, Bytes,
  Option, none, some, [], ◌∷◌, is_nil, Error, errorf, ok, err, arith, List,
}
use storage_fsm.Sector.{SectorState, SectorInfo, PieceInfo, piece_infos, sealing_ctx}
use storage_fsm.Events.{Event, type_of, is_mutator, apply, apply_global}
use storage_fsm.Fsm.Table.{
  EventType-discrete, plan_one, plan_committing, committing_round, rows, planners,
}
use storage_fsm.Fsm.Plan.{Logging, Handler, handler_of, log_events, plan}
use storage_fsm.Api.{Sealing, SectorId}
use storage_fsm.Handlers.{run_handler}
use storage_fsm.Handlers.Outcome.{sends}
use storage_fsm.Handlers.Commit.{handle_committing}
use storage_fsm.Handlers.Failed.{handle_compute_proof_failed}
use storage_fsm.Checks.{miner_sector}
use storage_fsm.System.Run.{Leads, turn, turns_of, after_event, after_set}
use storage_fsm.System.Run.Ends.{
  Ends, Answers, pure-Ends, attempt-Ends, check-Ends, on_nil-Ends, when-true-Ends, when-false-Ends,
  cooldown-Ends,
}

module _ {Cid : Type 0} (L : Logging Cid) where
  -- The record after an event that changes the state and the count of invalid proofs only.
  abbrev pub with_event : Event Cid → SectorState → ℕ → SectorInfo Cid → SectorInfo Cid
  with_event e st n s = record s {
    state = st;
    invalid_proofs = n;
    log = log_events L 0 (e ∷ []) s.log;
  }

  pub proof_failed_after :
      (x : Error) (s : SectorInfo Cid)
      → s.state ≡ SectorState.committing
      → after_event L (Event.sector_compute_proof_failed x) s
        ≡ with_event
            (Event.sector_compute_proof_failed x)
            SectorState.compute_proof_failed
            s.invalid_proofs
            s
  unfolding plan planners plan_committing committing_round
  proof_failed_after x = after_set L _ _ _ λ s. refl

  pub retry_after :
      (s : SectorInfo Cid)
      → s.state ≡ SectorState.compute_proof_failed
      → s.invalid_proofs ≤ 1
      → after_event L Event.sector_retry_compute_proof s
        ≡ with_event Event.sector_retry_compute_proof SectorState.committing
            (s.invalid_proofs + 1)
            s
  unfolding plan planners rows plan_one apply_global EventType-discrete type_of is_mutator apply
  retry_after s at few =
      after_set L Event.sector_retry_compute_proof SectorState.compute_proof_failed
        (λ s.
          with_event Event.sector_retry_compute_proof SectorState.committing
            ((s.invalid_proofs + 1) % 2 ^ 64) s)
        (λ s. refl) s at
      ∙ ap (λ n. with_event Event.sector_retry_compute_proof SectorState.committing n s)
          (ground (arith, few))

  pub gives_up_after :
      (x : Error) (s : SectorInfo Cid)
      → s.state ≡ SectorState.compute_proof_failed
      → after_event L (Event.sector_seal_pre_commit1_failed x) s
        ≡ record (with_event
            (Event.sector_seal_pre_commit1_failed x)
            SectorState.seal_pre_commit1_failed
            0
            s) { pre_commit2_fails = 0 }
  unfolding plan planners rows plan_one apply_global EventType-discrete type_of is_mutator apply
  gives_up_after x = after_set L _ _ _ λ s. refl

-- The sector gets to SealPreCommit1Failed with its counters at 0, in so many turns.
abbrev pub GivesUpIn :
    {Cid Address World : Type 0}
    → Sealing Cid Address World
    → Logging Cid
    → ℕ
    → SectorInfo Cid
    → World
    → Type 0
GivesUpIn {World = World} m L n s w =
    (t : SectorInfo _) × (v : World) × (l : Leads m L s w t v) × (turns_of m L l ≡ n)
    × (t.state ≡ SectorState.seal_pre_commit1_failed)
    × (t.invalid_proofs ≡ 0)
    × (t.pre_commit2_fails ≡ 0)

module _ {Cid Address World : Type 0} (m : Sealing Cid Address World) where
  -- The first turn of such a run, by the record that the event leaves.
  pub preceded :
      (L : Logging Cid) {n : ℕ} {t u : SectorInfo Cid} {e : Event Cid} {w v : World} (h : Handler)
      → handler_of t.state ≡ some h
      → run_handler m h t w ≡ (sends e, v)
      → after_event L e t ≡ u
      → GivesUpIn m L n u v
      → GivesUpIn m L (suc n) t w
  preceded L {n} {v = v} h at is same rest =
      let (x, y, l, k, q, i, f) = subst (λ x. GivesUpIn m L n x v) (sym same) rest in
      (x, y, turn h at is l, ap suc k, q, i, f)

  -- One of the two phases of the proof fails, in every world.
  pub record NeverProves : Type 0 where
    pub fails :
        (ctx : Option ℕ) (id : SectorId) (ticket seed : Bytes) (ps : List (PieceInfo Cid))
        (unsealed sealed : Cid) (w : World)
        → ((e : Error) × ((m.sealer.seal_commit1 ctx id ticket seed ps unsealed sealed w).0
              ≡ err e))
          ⊎ ((out : Bytes) × ((m.sealer.seal_commit1 ctx id ticket seed ps unsealed sealed w).0
                ≡ ok out)
              × ((v : World) → (e : Error) × ((m.sealer.seal_commit2 ctx id out v).0 ≡ err e)))

  module _ (p : NeverProves) (mid : ℕ) (has_id : m.id_from_address m.maddr ≡ ok mid) where
    pub committing-Ends :
        (s : SectorInfo Cid) (d r : Cid) (w : World)
        → s.comm_d ≡ some d
        → s.comm_r ≡ some r
        → (x : Error) × Ends (handle_committing m s) w (sends (Event.sector_compute_proof_failed x))
    unfolding handle_committing miner_sector
    committing-Ends s d r w has_d has_r =
        elim (p.fails (sealing_ctx s none) (record { miner = mid; number = s.sector_number })
          s.ticket_value s.seed_value (piece_infos s) d r w) [
            | inl (e, is) ↦ (
              _,
              on_nil-Ends _ _ w has_d (
                  on_nil-Ends _ _ w has_r
                    (check-Ends _ _ w has_id (attempt-Ends _ _ _ w is (pure-Ends _)))),
            )
            | inr (out, is, f) ↦ (
              _,
              on_nil-Ends _ _ w has_d (
                  on_nil-Ends _ _ w has_r (
                    check-Ends _ _ w has_id
                      (attempt-Ends _ _ _ w is (attempt-Ends _ _ _ _ (f _).1 (pure-Ends _))))),
            )
          ]

  module _ (waits : (t : ℕ) → Answers (m.wait_until t) tt) where
    pub retry-Ends :
        (s : SectorInfo Cid) (w : World)
        → is_nil s.log ≡ false
        → s.invalid_proofs ≤ 1
        → Ends (handle_compute_proof_failed m s) w (sends Event.sector_retry_compute_proof)
    unfolding handle_compute_proof_failed
    retry-Ends s w logged few =
        cooldown-Ends m waits s _ w logged
          λ v. when-false-Ends _ _ v (ground (arith, few)) (pure-Ends v)

    pub give_up-Ends :
        (s : SectorInfo Cid) (w : World)
        → is_nil s.log ≡ false
        → 1 < s.invalid_proofs
        → Ends
            (handle_compute_proof_failed m s)
            w
            (sends (Event.sector_seal_pre_commit1_failed (errorf "consecutive compute fails")))
    unfolding handle_compute_proof_failed
    give_up-Ends s w logged many =
        cooldown-Ends m waits s _ w logged
          λ v. when-true-Ends _ _ v (ground (arith, many)) (pure-Ends v)
