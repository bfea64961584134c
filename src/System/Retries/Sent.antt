-- ===== src/System/Retries/Sent.antt =====
-- states_failed.go `handleSealPrecommit2Failed`: when a retry of the second phase is sent.
use storage_fsm.Base.{◌≡◌, ◌≤◌, subst, Bool, true, false, arith}
use storage_fsm.Sector.{SectorInfo}
use storage_fsm.Events.{Event, EventType, type_of}
use storage_fsm.Fsm.Rules.{Unforced}
use storage_fsm.Api.{Sealing}
use storage_fsm.Api.Action.{Always, pure-Always, when-Always}
use storage_fsm.Handlers.Outcome.{Step, sends}
use storage_fsm.Handlers.Failed.{handle_seal_precommit2_failed}
use storage_fsm.Handlers.Dead.{cooldown-Always}

abbrev pub is_retry : EventType → Bool
is_retry EventType.retry_seal2 = true
is_retry _ = false

module _ {Cid Address World : Type 0} (m : Sealing Cid Address World) where
  -- A retry of the second phase comes from the handler of the record; no state is forced.
  abbrev pub Fair : SectorInfo Cid → Event Cid → Type 0
  Fair s e =
      Unforced e
      × (is_retry (type_of e) ≡ true
          → (w : World) × ((handle_seal_precommit2_failed m s w).0 ≡ sends e))

  -- A retry is sent after one failure at most.
  abbrev Early : SectorInfo Cid → Step Cid → Type 0
  Early s (sends e) = is_retry (type_of e) ≡ true → s.pre_commit2_fails ≤ 1
  Early s _ = Unit

  handle_seal_precommit2_failed-Early :
      (s : SectorInfo Cid) → Always (Early s) (handle_seal_precommit2_failed m s)
  unfolding handle_seal_precommit2_failed type_of
  handle_seal_precommit2_failed-Early s =
      cooldown-Always m s (λ e. tt) tt
        (when-Always _ (λ b. pure-Always _ λ r. absurd (ground arith))
          (λ b. pure-Always _ λ r. ground arith))

  pub Fair-early :
      (s : SectorInfo Cid) (e : Event Cid)
      → Fair s e
      → is_retry (type_of e) ≡ true
      → s.pre_commit2_fails ≤ 1
  Fair-early s e (u, sent) r =
      let (w, is) = sent r in subst (Early s) is ((handle_seal_precommit2_failed-Early s).at w) r
