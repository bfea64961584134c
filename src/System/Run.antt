-- ===== src/System/Run.antt =====
-- A sector left to itself: its handlers run one after the other, and each event that they send is
-- planned alone. A callback is called when the chain gets to its height.
pub mod Ends
use storage_fsm.Base.{
  ℕ, suc, ◌+◌, ◌≡◌, refl, sym, ap, subst, true, false, Option, some, List, [], ◌∷◌, is_nil, is_some,
  Bytes, arith,
}
use storage_fsm.Base.Int.{ℤ}
use storage_fsm.Sector.{SectorState, SectorInfo}
use storage_fsm.Events.{Event}
use storage_fsm.Fsm.Plan.{Logging, Handler, plan, handler_of}
use storage_fsm.Fsm.History.{log-plan}
use storage_fsm.Api.{Sealing}
use storage_fsm.Api.Action.{Act}
use storage_fsm.Handlers.{run_handler}
use storage_fsm.Handlers.Outcome.{sends, schedules}
use storage_fsm.Handlers.Commit.{seed_at}
use storage_fsm.System.Reach.{log_events-cons}

-- The record after an event alone.
abbrev pub after_event : {Cid : Type 0} → Logging Cid → Event Cid → SectorInfo Cid → SectorInfo Cid
after_event L e s = (plan L (e ∷ []) s).0

module _ {Cid Address World : Type 0} (m : Sealing Cid Address World) (L : Logging Cid) where
  pub data Leads : SectorInfo Cid → World → SectorInfo Cid → World → Type 0 where
    stops : {s : SectorInfo Cid} {w : World} → Leads s w s w
    -- the handler of the state sends an event
    turn :
        {s t : SectorInfo Cid} {w v u : World} {e : Event Cid}
        → (h : Handler) → handler_of s.state ≡ some h
        → run_handler m h s w ≡ (sends e, v)
        → Leads (after_event L e s) v t u
        → Leads s w t u
    -- the callback that the handler of the state registers sends an event
    called_back :
        {s t : SectorInfo Cid} {w v x u : World} {confidence height : ℤ} {e : Event Cid}
        → (h : Handler) → handler_of s.state ≡ some h
        → run_handler m h s w ≡ (schedules confidence height, v)
        → seed_at m height (m.chain_at confidence height v).0 (m.chain_at confidence height v).1
          ≡ (sends e, x)
        → Leads (after_event L e s) x t u
        → Leads s w t u

  -- How many events were planned.
  abbrev pub turns_of : {s t : SectorInfo Cid} {w v : World} → Leads s w t v → ℕ
  turns_of stops = 0
  turns_of (turn h at is rest) = suc (turns_of rest)
  turns_of (called_back h at is sent rest) = suc (turns_of rest)

  -- A run from a record is one from any record that is equal to it.
  pub from_record :
      {s s₁ t : SectorInfo Cid} {w v : World} → s ≡ s₁ → Leads s₁ w t v → Leads s w t v
  from_record {t = t} {w} {v} same = subst (λ x. Leads x w t v) (sym same)

module _ {Cid : Type 0} (L : Logging Cid) where
  -- A record in the state is one in which the state was set.
  pub after_set :
      (e : Event Cid) (st : SectorState) (f : SectorInfo Cid → SectorInfo Cid)
      → ((s : SectorInfo Cid) → after_event L e (record s { state = st }) ≡ f s)
      → (s : SectorInfo Cid) → s.state ≡ st
      → after_event L e s ≡ f s
  after_set e st f h s at =
      subst (λ st. after_event L e (record s { state = st }) ≡ f s) (sym at) (h s)

  pub state_set :
      (e : Event Cid) (st next : SectorState)
      → ((s : SectorInfo Cid) → (after_event L e (record s { state = st })).state ≡ next)
      → (s : SectorInfo Cid) → s.state ≡ st
      → (after_event L e s).state ≡ next
  state_set e st next h s at =
      subst (λ st. (after_event L e (record s { state = st })).state ≡ next) (sym at) (h s)

  -- If events marshal to JSON, the log has an entry after one.
  pub logged_after :
      ((e : Event Cid) → is_some (L.marshal e) ≡ true)
      → (e : Event Cid) (s : SectorInfo Cid) → is_nil (after_event L e s).log ≡ false
  logged_after marshals e s =
      subst (λ l. is_nil l ≡ false) (sym (log-plan L (e ∷ []) s))
        (log_events-cons L marshals 0 e [] s.log)
