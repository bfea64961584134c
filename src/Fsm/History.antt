-- ===== src/Fsm/History.antt =====
-- fsm.go `plan` and the log of a sector.
use storage_fsm.Base.{
  ℕ, ◌+◌, ◌≡◌, refl, sym, ◌∙◌, Option, none, some, List, [], ◌∷◌, ◌++◌, All, String,
}
use storage_fsm.Base.{arith}
use mathlib.Core.List.{append-nil, append_assoc}
use storage_fsm.Sector.{SectorState, SectorInfo, Log}
use storage_fsm.Events.{Event, apply, apply_global}
use storage_fsm.Fsm.Table.{Row, committing_round}
use storage_fsm.Fsm.Plan.{Logging, log_entry, log_events, plan}
use storage_fsm.Fsm.Rules.{rows_of, RowKeeps, RoundKeeps, GlobalKeeps, plan-keeps}

module _ {Cid : Type 0} where
  apply_log : (e : Event Cid) (s : SectorInfo Cid) → (apply e s).log ≡ s.log
  unfolding apply
  apply_log (Event.sector_start i t ps) s = refl
  apply_log _ s = refl

  module _ (l : List Log) where
    abbrev Logs : SectorState → SectorInfo Cid → Type 0
    Logs st s = s.log ≡ l

    abbrev Any : Event Cid → Type 0
    Any e = Unit

    Any-All : (es : List (Event Cid)) → All Any es
    Any-All [] = tt
    Any-All (e ∷ es) = (tt, Any-All es)

    every_round :
        (e : Event Cid) (s : SectorInfo Cid)
        → Any e
        → s.log ≡ l
        → s.log ≡ l
        → RoundKeeps Logs Any (committing_round e s)
    unfolding committing_round apply_global apply
    every_round (Event.sector_committed m p) s u c q = ground arith
    every_round (Event.sector_seed_ready v e) s u c q = ground arith
    every_round _ s u c q = ground arith

    every_global :
        (e : Event Cid) (s : SectorInfo Cid)
        → Any e
        → s.log ≡ l
        → GlobalKeeps Logs Any (apply_global e s)
    unfolding apply_global
    every_global Event.sector_restart s u q = q
    every_global (Event.sector_fatal_error e) s u q = q
    every_global (Event.sector_force_state st) s u q = q
    every_global _ s u q = tt

every_row :
    (Cid : Type 0) (l : List Log) (st : SectorState) (ts : List Row)
    → All (RowKeeps {Cid = Cid} (Logs l) (Any l) st) ts
every_row Cid l st [] = tt
every_row Cid l st (t ∷ ts) = (λ e s u k q. apply_log e s ∙ q, every_row Cid l st ts)

module _ {Cid : Type 0} (L : Logging Cid) where
  -- After a batch, the log is the one that the loop of `plan` leaves.
  pub log-plan :
      (es : List (Event Cid)) (s : SectorInfo Cid) → (plan L es s).0.log ≡ log_events L 0 es s.log
  log-plan es s =
      plan-keeps (Logs l) (Any l) (every_global l) (every_round l) L
        (λ st. every_row Cid l st (rows_of st)) es s (Any-All l es) refl
    where
      l : List Log
      l = log_events L 0 es s.log

  -- The entries of a batch in its order, each with the place of its event; an event that does not
  -- marshal has none.
  abbrev pub entries : ℕ → List (Event Cid) → List Log
  entries i [] = []
  entries i (e ∷ es) = elim (L.marshal e) [
    | none ↦ entries (i + 1) es
    | some text ↦ log_entry L i e text ∷ entries (i + 1) es
  ]

  log_events-entries :
      (i : ℕ) (es : List (Event Cid)) (l : List Log) → log_events L i es l ≡ l ++ entries i es
  unfolding log_events
  log_events-entries i [] l = sym (append-nil l)
  log_events-entries i (e ∷ es) l = by (L.marshal e) (log_events-entries (i + 1) es)
    where
      by :
          (o : Option String)
          → ((k : List Log) → log_events L (i + 1) es k ≡ k ++ entries (i + 1) es)
          → log_events L
              (i + 1)
              es
              (elim o [ none ↦ l | some text ↦ l ++ log_entry L i e text ∷ [] ])
            ≡ l ++ elim o [
              | none ↦ entries (i + 1) es
              | some text ↦ log_entry L i e text ∷ entries (i + 1) es
            ]
      by none rest = rest l
      by (some text) rest = rest (l ++ log_entry L i e text ∷ []) ∙ append_assoc l _ _

  -- Whatever becomes of the batch, the log of the sector is the old one followed by one entry for
  -- each event of the batch that marshals to JSON, in the order of the batch, each made from its
  -- event and its place in the batch.
  pub plan_appends_entries :
      (es : List (Event Cid)) (s : SectorInfo Cid) → (plan L es s).0.log ≡ s.log ++ entries 0 es
  plan_appends_entries es s = log-plan es s ∙ log_events-entries 0 es s.log
