-- ===== src/System/Progress.antt =====
-- A sector whose proof is on chain gets to Proving: the loop of FinalizeSector and FinalizeFailed.
pub mod Steps
use storage_fsm.Base.{
  ℕ, zero, suc, ◌+◌, ◌*◌, ◌≡◌, ◌<◌, ◌≤◌, refl, sym, ap, ◌∙◌, subst, ◌⊎◌, inl, inr, Bool, true,
  false, ltb, Option, none, some, List, [], ◌∷◌, is_nil, is_some, Error, wrapf, Result, ok, err,
  arith,
}
use storage_fsm.Base.{Bytes, not}
use storage_fsm.Base.Int.{ℤ, eqb_ℤ}
use storage_fsm.Sector.{SectorState, SectorInfo, Log, MsgLookup, sealing_ctx}
use storage_fsm.Events.{Event, type_of, is_mutator, apply, apply_global}
use storage_fsm.Fsm.Table.{EventType-discrete, plan_one, rows, planners}
use storage_fsm.Fsm.Plan.{
  Logging, Handler, plan, handler_of, handle_finalize_failed as RetryFinalize,
  handle_finalize_sector as Finalize, handle_commit_wait as CommitWait,
}
use storage_fsm.Fsm.History.{log-plan}
use storage_fsm.Api.{Sealing, SectorId}
use storage_fsm.Api.Action.{Act, pure, bind, attempt, branch, run_then, when, on_nil, check}
use storage_fsm.Handlers.{run_handler}
use storage_fsm.Handlers.Outcome.{Step, sends, send, fail}
use storage_fsm.Handlers.Commit.{handle_commit_wait, handle_finalize_sector}
use storage_fsm.Handlers.Failed.{
  min_retry_time, last_entry, failed_cooldown, handle_finalize_failed,
}
use storage_fsm.Checks.{miner_sector}
use storage_fsm.System.Run.{Leads, stops, turn, logged_after}
use storage_fsm.System.Run.Ends.{last_entry-some}
use Steps.{finalized-state, proving-state, failed-state, retried-state, commit_wait-Ends}

module _ {Cid Address World : Type 0} (m : Sealing Cid Address World) (L : Logging Cid) where
  -- How often the storage fails to finalize a sector is bounded, and a cooldown ends.
  pub record Patient : Type 0 where
    pub failures_left : World → ℕ
    pub finalizes :
        (ctx : Option ℕ) (id : SectorId) (w : World)
        → ((m.sealer.finalize_sector ctx id w).0 ≡ ok tt)
          ⊎ (failures_left (m.sealer.finalize_sector ctx id w).1 < failures_left w)
    pub clock_keeps : (w : World) → failures_left (m.now w).1 ≤ failures_left w
    pub waits :
        (t : ℕ) (w : World)
        → ((m.wait_until t w).0 ≡ ok tt) × (failures_left (m.wait_until t w).1 ≤ failures_left w)

  module _ (p : Patient) where
    -- A wait, then the event.
    waited :
        (e : Event Cid) (n : ℕ) (r : Result (Unit {0}) × World)
        → (r.0 ≡ ok tt) × (p.failures_left r.1 ≤ n)
        → (v : World) × (run_then r (branch fail (λ done. send e)) ≡ (sends e, v))
          × (p.failures_left v ≤ n)
    unfolding pure
    waited e n (ok u, v) h = (v, refl, h.1)
    waited e n (err x, v) h = absurd (ground (arith, h.0))

    -- A cooldown on a record with a log comes to its end.
    cooldown_ends :
        (s : SectorInfo Cid) (e : Event Cid) (w : World)
        → is_nil s.log ≡ false
        → (v : World) × (failed_cooldown m s (send e) w ≡ (sends e, v))
          × (p.failures_left v ≤ p.failures_left w)
    unfolding failed_cooldown on_nil bind attempt pure
    cooldown_ends s e w logged =
        let (l, is) = last_entry-some s.log logged in
        rw is (timed (l.timestamp * 1000000000 + min_retry_time) (m.now w) (p.clock_keeps w))
      where
        timed :
            (start : ℕ) (r : ℕ × World)
            → p.failures_left r.1 ≤ p.failures_left w
            → (v : World) × (run_then r (λ now.
                  when (ltb start now) (send e) (attempt (m.wait_until start) fail λ done. send e))
                ≡ (sends e, v))
              × (p.failures_left v ≤ p.failures_left w)
        timed start (now, u) le = by (ltb start now)
          where
            by :
                (b : Bool)
                → (v : World) × (when b
                      (send e)
                      (attempt (m.wait_until start) fail λ done. send e)
                      u
                    ≡ (sends e, v))
                  × (p.failures_left v ≤ p.failures_left w)
            by true = unfold when in (u, refl, le)
            by false =
                let (v, is, le2) =
                  waited e (p.failures_left u) (m.wait_until start u) (p.waits start u) in
                unfold when in (v, is, omega (arith, le, le2))

    module _ (mid : ℕ) (has_id : m.id_from_address m.maddr ≡ ok mid)
        (marshals : (e : Event Cid) → is_some (L.marshal e) ≡ true) where
      abbrev Proves : SectorInfo Cid → World → Type 0
      Proves s w =
          (t : SectorInfo Cid) × (v : World) × Leads m L s w t v × (t.state ≡ SectorState.proving)

      -- The handler of FinalizeSector, by what the storage answers.
      finalize_by :
          (s : SectorInfo Cid) (w : World)
          → handle_finalize_sector m s w
            ≡ run_then
                (m.sealer.finalize_sector
                  (sealing_ctx s none)
                  (record { miner = mid; number = s.sector_number })
                  w)
                (branch
                  (λ e. send (Event.sector_finalize_failed (wrapf "finalize sector: %w" e)))
                  (λ done. send Event.sector_finalized))
      unfolding handle_finalize_sector miner_sector check attempt bind
      finalize_by s w = rw has_id refl

      retry_by :
          (s : SectorInfo Cid)
          → s.state ≡ SectorState.finalize_failed
          → is_nil s.log ≡ false
          → (w : World)
          → (v : World) × (p.failures_left v ≤ p.failures_left w)
            × ((t : SectorInfo Cid) (u : World)
                → Leads m L (plan L (Event.sector_retry_finalize ∷ []) s).0 v t u
                → Leads m L s w t u)
      unfolding run_handler handle_finalize_failed handler_of
      retry_by s at logged w =
          let (v, is, le) = cooldown_ends s Event.sector_retry_finalize w logged in
          (v, le, λ t u more. turn RetryFinalize (ap handler_of at) is more)

      -- A turn in FinalizeSector, and the retry after a failure.
      round :
          (n : ℕ)
          → ((s : SectorInfo Cid) (w : World)
              → s.state ≡ SectorState.finalize_sector
              → p.failures_left w < n
              → Proves s w)
          → (s : SectorInfo Cid) (w : World) → s.state ≡ SectorState.finalize_sector
          → p.failures_left w < suc n
          → (r : Result (Unit {0}) × World)
          → handle_finalize_sector m s w
            ≡ run_then r (
                branch
                  (λ e. send (Event.sector_finalize_failed (wrapf "finalize sector: %w" e)))
                  (λ done. send Event.sector_finalized))
          → (r.0 ≡ ok tt) ⊎ (p.failures_left r.1 < p.failures_left w)
          → Proves s w
      unfolding run_handler handler_of pure
      round n again s w at less (ok u, v) is h =
          (_, v, turn Finalize (ap handler_of at) is stops, finalized-state L s at)
      round n again s w at less (err e, v) is (inl h) = absurd (ground (arith, h))
      round n again s w at less (err e, v) is (inr lt) =
          let failed = Event.sector_finalize_failed (wrapf "finalize sector: %w" e) in
          let s₁ = (plan L (failed ∷ []) s).0 in
          let at₁ = failed-state L _ s at in
          let (u, le, go) = retry_by s₁ at₁ (logged_after L marshals failed s) v in
          let (t, x, leads, done) =
            again (plan L (Event.sector_retry_finalize ∷ []) s₁).0 u (retried-state L s₁ at₁)
              (omega (arith, less, lt, le)) in
          (t, x, turn Finalize (ap handler_of at) is (go t x leads), done)

      finalizing :
          (n : ℕ) (s : SectorInfo Cid) (w : World)
          → s.state ≡ SectorState.finalize_sector
          → p.failures_left w < n
          → Proves s w
      finalizing zero s w at less = absurd (omega (arith, less))
      finalizing (suc n) s w at less =
          round n (finalizing n) s w at less _ (finalize_by s w) (p.finalizes _ _ w)

      -- A sector in CommitWait gets to Proving, through its handlers and the events that they send,
      -- if its message is on chain with the exit code 0 and the chain then knows the sector. The
      -- storage fails to finalize it finitely often, waits come to their end, the miner has an ID
      -- address, and events marshal to JSON.
      pub committed_sector_proves :
          (s : SectorInfo Cid) (message : Cid)
          → s.state ≡ SectorState.commit_wait
          → s.commit_message ≡ some message
          → ((w : World)
              → (mw : MsgLookup) × ((m.api.state_wait_msg message w).0 ≡ ok mw)
                × (mw.receipt.exit_code ≡ ℤ.pos 0))
          → ((tok : Bytes) (w : World)
              → (m.api.state_sector_get_info m.maddr s.sector_number tok w).0 ≡ ok tt)
          → (w : World)
          → (t : SectorInfo Cid) × (v : World) × Leads m L s w t v × (t.state ≡ SectorState.proving)
      unfolding run_handler handler_of
      committed_sector_proves s message at has lands known w =
          let e = commit_wait-Ends m s message has lands known w in
          let v = e.later in
          let below : p.failures_left v < suc (p.failures_left v) = omega arith in
          let (t, u, leads, done) =
            finalizing (suc (p.failures_left v)) (plan L (Event.sector_proving ∷ []) s).0 v
              (proving-state L s at) below in
          (t, u, turn CommitWait (ap handler_of at) e.is leads, done)
