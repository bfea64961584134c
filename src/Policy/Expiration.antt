-- ===== src/Policy/Expiration.antt =====
-- precommit_policy.go `BasicPreCommitPolicy`: its constructor and `Expiration`. The proving period
-- is `miner.WPoStProvingPeriod`.
use storage_fsm.Base.{Option, none, some, List, [], ◌∷◌, Bytes, Result, ok, if◌then◌else◌}
use storage_fsm.Base.Int.{ℤ, pos, ltb_ℤ}
use storage_fsm.Base.Int64.{add64, sub64, rem64}
use storage_fsm.Sector.{Piece, DealInfo}
use storage_fsm.Api.Action.{Act, pure, attempt}

pub record BasicPreCommitPolicy (World : Type 0) : Type 0 where
  pub chain_head : Act World (Result (Bytes × ℤ))
  pub proving_boundary : ℤ
  pub duration : ℤ

-- `NewBasicPreCommitPolicy`
unfoldable pub new_basic_pre_commit_policy :
    {World : Type 0} → Act World (Result (Bytes × ℤ)) → ℤ → ℤ → BasicPreCommitPolicy World
new_basic_pre_commit_policy api duration proving_boundary = record {
  chain_head = api;
  proving_boundary = proving_boundary;
  duration = duration;
}

-- The later of the end found so far and the end of a deal.
abbrev pub later : Option ℤ → ℤ → Option ℤ
later none deal_end = some deal_end
later (some end) deal_end = if ltb_ℤ end deal_end then some deal_end else some end

-- One round of the loop of `Expiration`: a piece without a deal and a deal that has ended are
-- skipped.
abbrev pub round_end : ℤ → Option ℤ → Option DealInfo → Option ℤ
round_end epoch end none = end
round_end epoch end (some d) =
    if ltb_ℤ d.deal_schedule.end_epoch epoch then end else later end d.deal_schedule.end_epoch

unfoldable pub latest_end : {Cid : Type 0} → ℤ → Option ℤ → List (Piece Cid) → Option ℤ
latest_end epoch end [] = end
latest_end epoch end (p ∷ ps) = latest_end epoch (round_end epoch end p.deal_info) ps

abbrev pub end_or : Option ℤ → ℤ → ℤ
end_or none e = e
end_or (some end) e = end

-- `*end += WPoStProvingPeriod - (*end % WPoStProvingPeriod) + p.provingBoundary - 1`
unfoldable pub round_up : ℤ → ℤ → ℤ → ℤ
round_up period boundary end =
    add64 end (sub64 (add64 (sub64 period (rem64 end period)) boundary) (pos 1))

module _ {Cid World : Type 0} (period : ℤ) (p : BasicPreCommitPolicy World) where
  unfoldable pub expiration_at : ℤ → List (Piece Cid) → ℤ
  unfolding latest_end round_up
  expiration_at epoch ps =
      round_up period p.proving_boundary
        (end_or (latest_end epoch none ps) (add64 epoch p.duration))

  -- A failed `ChainHead` gives the epoch 0 and no error.
  unfoldable pub expiration : List (Piece Cid) → Act World (Result ℤ)
  unfolding expiration_at
  expiration ps =
      attempt p.chain_head (λ e. pure (ok (pos 0)))
        λ (tok, epoch). pure (ok (expiration_at epoch ps))
