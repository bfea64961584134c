-- ===== src/Handlers/Outcome.antt =====
-- How a handler ends. The texts of errors are kept, their other format arguments are not.
use storage_fsm.Base.{ℕ, Error}
use storage_fsm.Base.Int.{ℤ}
use storage_fsm.Events.{Event}
use storage_fsm.Api.{Sealing, SectorId}
use storage_fsm.Api.Action.{Act, pure}
use storage_fsm.Checks.{miner_sector}

pub data Step (Cid : Type 0) : Type 0 where
  -- `return ctx.Send(evt)`
  sends : Event Cid → Step Cid
  -- `return nil`: the sector stays as it is
  idles : Step Cid
  -- `return err`, which `Plan` logs
  fails : Error → Step Cid
  -- a callback is registered for a height with a confidence, and `return nil`
  schedules : ℤ → ℤ → Step Cid
  panics : Step Cid

module _ {Cid World : Type 0} where
  abbrev pub send : Event Cid → Act World (Step Cid)
  send e = pure (sends e)

  abbrev pub idle : Act World (Step Cid)
  idle = pure idles

  abbrev pub fail : Error → Act World (Step Cid)
  fail e = pure (fails e)

  abbrev pub panic : Act World (Step Cid)
  panic = pure panics

-- `m.minerSector(num)` as an argument of a call; it panics if the miner has no ID address.
abbrev pub with_sector :
    {Cid Address World : Type 0}
    → Sealing Cid Address World
    → ℕ
    → (SectorId → Act World (Step Cid))
    → Act World (Step Cid)
with_sector m num k = miner_sector m num panic k
