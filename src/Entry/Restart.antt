-- ===== src/Entry/Restart.antt =====
-- sealing.go `Run` and fsm.go `restartSectors`: the sectors that they reach.
use mathlib.Core.List.{append-nil, append_assoc}
use storage_fsm.Base.{
  ℕ, ◌≡◌, refl, ap, ◌∙◌, sym, List, [], ◌∷◌, ◌++◌, map, Result, ok, err, wrapf, arith,
}
use storage_fsm.Sector.{SectorInfo}
use storage_fsm.Events.{Event}
use storage_fsm.Api.{Sealing}
use storage_fsm.Api.Action.{Act, pure, attempt, bind, run_then, branch}
use storage_fsm.Entry.{StateGroup, restart_each, restart_sectors, list_sectors, run}

-- The events that a restart of these sectors sends.
abbrev pub restarts : {Cid : Type 0} → List (SectorInfo Cid) → List (ℕ × Event Cid)
restarts = map (λ s. (s.sector_number, Event.sector_restart))

-- The sectors that `ListSectors` answers; none if it fails.
abbrev pub tracked : {Cid : Type 0} → Result (List (SectorInfo Cid)) → List (SectorInfo Cid)
tracked (ok ss) = ss
tracked (err e) = []

module _ {Cid Address World : Type 0} (m : Sealing Cid Address World) (g : StateGroup Cid World)
    (trace : World → List (ℕ × Event Cid))
    (traces : (n : ℕ) (e : Event Cid) (w : World) → trace (g.send n e w).1 ≡ trace w ++ (n, e) ∷ [])
    (lists : (w : World) → trace (g.list w).1 ≡ trace w) where
  -- This run succeeds, and its trace is `t`.
  abbrev Ends : Result (Unit {0}) × World → List (ℕ × Event Cid) → Type 0
  Ends r t = (r.0 ≡ ok tt) × (trace r.1 ≡ t)

  restart_each-Ends :
      (ss : List (SectorInfo Cid)) (w : World)
      → Ends (restart_each m g ss w) (trace w ++ restarts ss)
  unfolding restart_each pure attempt bind
  restart_each-Ends [] w = (refl, sym (append-nil (trace w)))
  restart_each-Ends (s ∷ ss) w =
      by (g.send s.sector_number Event.sector_restart w) (traces _ _ w) (restart_each-Ends ss)
    where
      by :
          (r : Result (Unit {0}) × World)
          → trace r.1 ≡ trace w ++ (s.sector_number, Event.sector_restart) ∷ []
          → ((v : World) → Ends (restart_each m g ss v) (trace v ++ restarts ss))
          → Ends
              (run_then r (branch (λ e. restart_each m g ss) (λ d. restart_each m g ss)))
              (trace w ++ restarts (s ∷ ss))
      by (ok d, v) h rest = (
        (rest v).0,
        (rest v).1 ∙ ap (λ t. t ++ restarts ss) h ∙ append_assoc (trace w) _ (restarts ss),
      )
      by (err e, v) h rest = (
        (rest v).0,
        (rest v).1 ∙ ap (λ t. t ++ restarts ss) h ∙ append_assoc (trace w) _ (restarts ss),
      )

  -- `Run` returns with no error and has sent a `SectorRestart` to each tracked sector, in the order
  -- of the list, even if some sends failed; if the list failed, it sends nothing. The library
  -- traces the events that it is sent, and listing the sectors sends none.
  pub run-restarts :
      (w : World)
      → ((run m g w).0 ≡ ok tt) × (trace (run m g w).1 ≡ trace w ++ restarts (tracked (g.list w).0))
  unfolding run restart_sectors list_sectors attempt bind pure
  run-restarts w = by_list (g.list w) (lists w)
    where
      loaded : Result (Unit {0}) → Act World (Result (Unit {0}))
      loaded = branch (λ e. pure (err (wrapf "failed load sector states: %w" e))) λ d. pure (ok d)

      ended :
          (r : Result (Unit {0}) × World) (t : List (ℕ × Event Cid))
          → Ends r t
          → Ends (run_then r loaded) t
      ended (ok d, v) t h = h
      ended (err e, v) t h = absurd (ground (arith, h.0))

      by_list :
          (r : Result (List (SectorInfo Cid)) × World)
          → trace r.1 ≡ trace w
          → Ends
              (run_then (run_then r (branch (λ e. restart_each m g []) (restart_each m g))) loaded)
              (trace w ++ restarts (tracked r.0))
      by_list (ok ss, v) h =
          let k = restart_each-Ends ss v in
          ended (restart_each m g ss v) _ (k.0, k.1 ∙ ap (λ t. t ++ restarts ss) h)
      by_list (err e, v) h =
          let k = restart_each-Ends [] v in
          ended (restart_each m g [] v) _ (k.0, k.1 ∙ ap (λ t. t ++ []) h)
