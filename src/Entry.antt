-- ===== src/Entry.antt =====
-- sealing.go, garbage.go and fsm.go: the operations that clients call, which hand events to the
-- state-machine library, and the restart of the tracked sectors.
pub mod Restart
pub mod Begin
pub mod Pledged
pub mod New
use storage_fsm.Base.{ℕ, ◌==◌, not, none, some, List, [], ◌∷◌, map, Bytes}
use storage_fsm.Base.{Error, errorf, wrapf, Result, ok, err}
use storage_fsm.Base.Int.{ℤ}
use storage_fsm.Sector.{SectorState, DealInfo, Piece, SectorInfo, deal_sector_priority}
use storage_fsm.Events.{Event}
use storage_fsm.Api.{Sealing, SectorId}
use storage_fsm.Api.Action.{Act, pure, attempt, check, when}
use storage_fsm.Handlers.Packing.{pledge_sector}

-- The methods of `statemachine.StateGroup` that the code calls.
pub record StateGroup (Cid World : Type 0) : Type 0 where
  pub send : ℕ → Event Cid → Act World (Result (Unit {0}))
  pub list : Act World (Result (List (SectorInfo Cid)))
  pub get : ℕ → Act World (Result (SectorInfo Cid))
  -- `Stop`
  pub halt : Act World (Result (Unit {0}))

-- A call returns, or panics where the miner has no ID address.
pub data Call (A : Type 0) : Type 0 where
  returns : Result A → Call A
  panics : Call A

module _ {Cid Address World : Type 0} (m : Sealing Cid Address World)
    (g : StateGroup Cid World) where
  abbrev pub reply : {A : Type 0} → A → Act World (Call A)
  reply a = pure (returns (ok a))

  abbrev pub fail : {A : Type 0} → Error → Act World (Call A)
  fail e = pure (returns (err e))

  abbrev pub crash : {A : Type 0} → Act World (Call A)
  crash = pure panics

  -- `minerSector`
  abbrev pub with_sector : {A : Type 0} → ℕ → (SectorId → Act World (Call A)) → Act World (Call A)
  with_sector num k =
      check (m.id_from_address m.maddr) (λ e. crash) λ mid. k (record { miner = mid; number = num })

  unfoldable pub new_sector : ℕ → ℤ → List (Piece Cid) → Act World (Result (Unit {0}))
  new_sector sid rt pieces = g.send sid (Event.sector_start sid rt pieces)

  unfoldable pub remove : ℕ → Act World (Result (Unit {0}))
  remove sid = g.send sid Event.sector_remove

  unfoldable pub force_sector_state : ℕ → SectorState → Act World (Result (Unit {0}))
  force_sector_state id state = g.send id (Event.sector_force_state state)

  unfoldable pub stop : Act World (Result (Unit {0}))
  stop = g.halt

  unfoldable pub list_sectors : Act World (Result (List (SectorInfo Cid)))
  list_sectors = g.list

  unfoldable pub get_sector_info : ℕ → Act World (Result (SectorInfo Cid))
  get_sector_info sid = g.get sid

  -- The sector's number and the offset of the piece in it.
  unfoldable pub allocate_piece : ℕ → Act World (Call (ℕ × ℕ))
  allocate_piece size =
      when (not (m.padded_size size == size)) (fail (errorf "cannot allocate unpadded piece")) (
        attempt m.next_number (λ e. fail (wrapf "getting sector number: %w" e))
          λ sid. with_sector sid λ id.
            attempt (m.sealer.new_sector id) (λ e. fail (wrapf "initializing sector: %w" e))
              λ done. reply (sid, 0))

  unfoldable pub seal_piece : ℕ → Bytes → ℕ → DealInfo → Act World (Call (Unit {0}))
  unfolding new_sector
  seal_piece size content sector_id d = with_sector sector_id λ id.
      attempt (m.sealer.add_piece (some deal_sector_priority) id [] size content)
        (λ e. fail (wrapf "adding piece to sector: %w" e))
        λ ppi.
          check (m.seal_proof_type_from_sector_size m.sealer.sector_size)
            (λ e. fail (wrapf "bad sector size: %w" e))
            λ rt.
              attempt (new_sector sector_id rt (record { piece = ppi; deal_info = some d } ∷ []))
                fail reply

  -- The goroutine of `PledgeSector`; `PledgeSector` itself returns nil at once, and the errors of
  -- the goroutine are only logged.
  unfoldable pub pledge_in_background : Act World (Call (Unit {0}))
  unfolding new_sector
  pledge_in_background = check (m.seal_proof_type_from_sector_size m.sealer.sector_size) fail λ rt.
      attempt m.next_number fail λ sid. with_sector sid λ id.
        attempt (m.sealer.new_sector id) fail λ done.
          attempt (pledge_sector m id [] (m.unpadded m.sealer.sector_size ∷ [])) fail λ pieces.
            attempt (new_sector sid rt (map (λ p. record { piece = p; deal_info = none }) pieces))
              fail reply

  -- The loop of `restartSectors`; an error of `Send` is only logged.
  unfoldable pub restart_each : List (SectorInfo Cid) → Act World (Result (Unit {0}))
  restart_each [] = pure (ok tt)
  restart_each (s ∷ ss) =
      let rest = restart_each ss in
      attempt (g.send s.sector_number Event.sector_restart) (λ e. rest) λ done. rest

  -- An error of `ListSectors` is only logged too, and leaves no sectors.
  unfoldable pub restart_sectors : Act World (Result (Unit {0}))
  unfolding restart_each list_sectors
  restart_sectors = attempt list_sectors (λ e. restart_each []) restart_each

  unfoldable pub run : Act World (Result (Unit {0}))
  unfolding restart_sectors
  run =
      attempt restart_sectors (λ e. pure (err (wrapf "failed load sector states: %w" e)))
        λ done. pure (ok done)
