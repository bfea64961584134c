-- ===== src/Handlers/Replicated.antt =====
-- What holds when `handlePreCommit1` reports the first seal phase as done.
use storage_fsm.Base.{
  ◌≡◌, refl, ◌∙◌, none, subst, ◌⊎◌, inl, inr, Bytes, [], Error, Result, ok, err, All,
}
use storage_fsm.Base.Int.{ℤ}
use storage_fsm.Sector.{SectorInfo, sealing_ctx, piece_infos}
use storage_fsm.Events.{Event}
use storage_fsm.Api.{Sealing, SectorId, Tag}
use storage_fsm.Api.Action.{
  Act, Always, branch, attempt, pure-Always, bind-Always, attempt-Always, check-Always,
}
use storage_fsm.Checks.{
  Check, passes, rejects, faults, err_api, err_invalid_deals, err_expired_deals, miner_sector,
}
use storage_fsm.Checks.Pieces.{Fits, check_pieces_sound}
use storage_fsm.Handlers.Outcome.{Step, sends}
use storage_fsm.Handlers.Precommit.{
  get_ticket, replicate_sector, on_pieces_checked, handle_pre_commit1,
}

module _ {Cid Address World : Type 0} (m : Sealing Cid Address World) (s : SectorInfo Cid) where
  -- The ticket is the chain's randomness at its epoch, for the encoded address of the miner; or the
  -- chain had no head to answer, and the ticket is empty.
  abbrev pub IsTicket : Bytes → ℤ → Type 0
  IsTicket value epoch =
      ((w : World) × (tok : Bytes) × (entropy : Bytes) × (m.marshal_address m.maddr ≡ ok entropy)
        × ((m.api.chain_get_randomness tok Tag.seal_randomness epoch entropy w).0 ≡ ok value))
      ⊎ ((w : World) × (e : Error) × ((m.api.chain_head w).0 ≡ err e)
          × (value ≡ [])
          × (epoch ≡ ℤ.pos 0))

  abbrev Drawn : Result (Bytes × ℤ) → Type 0
  Drawn (ok (value, epoch)) = IsTicket value epoch
  Drawn (err e) = Unit

  attempt-failed :
      {A B : Type 0} {P : B → Type 0} (c : Act World (Result A)) {failed : Error → Act World B}
      {k : A → Act World B}
      → ((e : Error) (w : World) → (c w).0 ≡ err e → Always P (failed e))
      → ((a : A) (w : World) → (c w).0 ≡ ok a → Always P (k a))
      → Always P (attempt c failed k)
  unfolding attempt
  attempt-failed {A} {P = P} c {failed} {k} f g = bind-Always c by_result
    where
      by_result : (r : Result A) (w : World) → (c w).0 ≡ r → Always P (branch failed k r)
      by_result (ok a) w h = g a w h
      by_result (err e) w h = f e w h

  get_ticket-Drawn : Always Drawn (get_ticket m s)
  unfolding get_ticket
  get_ticket-Drawn =
      attempt-failed _ (λ e w h. pure-Always _ (inr (w, e, h, refl, refl)))
        λ head w e.
          check-Always _ (λ e h. pure-Always _ tt)
            λ entropy a.
              attempt-Always _ (λ e. pure-Always _ tt)
                λ pci w e.
                  attempt-Always _ (λ e. pure-Always _ tt)
                    λ value w r. pure-Always _ (inl (w, head.0, entropy, a, r))

  abbrev AllFit : Type 0
  AllFit =
      (v : World) × (tok : Bytes) × (height : ℤ) × ((m.api.chain_head v).0 ≡ ok (tok, height))
      × All (Fits m tok height) s.pieces

  -- The sealer has answered `out` for the ticket and the pieces of the record.
  abbrev pub IsOutput : Bytes → Bytes → Type 0
  IsOutput value out =
      (w : World) × (id : SectorId) × ((m.sealer.seal_pre_commit1 (sealing_ctx s none) id value
          (piece_infos s) w).0
        ≡ ok out)

  abbrev Replicates : Step Cid → Type 0
  Replicates (sends (Event.sector_pre_commit1 out value epoch)) =
      AllFit × IsTicket value epoch × IsOutput value out
  Replicates _ = Unit

  replicate_sector-Replicates : AllFit → Always Replicates (replicate_sector m s)
  unfolding replicate_sector miner_sector
  replicate_sector-Replicates fit =
      attempt-Always _ (λ e. pure-Always _ tt)
        λ ticket w drawn.
          check-Always _ (λ e h. pure-Always _ tt)
            λ mid h.
              attempt-Always _ (λ e. pure-Always _ tt)
                λ out v o. pure-Always _ (fit, subst Drawn drawn (get_ticket-Drawn.at w), (v, _, o))

  on_pieces_checked-Replicates :
      (c : Check) → (c ≡ passes → AllFit) → Always Replicates (on_pieces_checked m s c)
  unfolding on_pieces_checked
  on_pieces_checked-Replicates passes fit = replicate_sector-Replicates (fit refl)
  on_pieces_checked-Replicates (rejects (err_api e)) fit = pure-Always _ tt
  on_pieces_checked-Replicates (rejects (err_invalid_deals e)) fit = pure-Always _ tt
  on_pieces_checked-Replicates (rejects (err_expired_deals e)) fit = pure-Always _ tt
  on_pieces_checked-Replicates (rejects _) fit = pure-Always _ tt
  on_pieces_checked-Replicates faults fit = pure-Always _ tt

  -- If `handlePreCommit1` sends `SectorPreCommit1`, then at a head that the chain answered each
  -- piece is a zero piece or fits its deal; the ticket is the chain's randomness at its epoch, or
  -- empty because the chain had no head to answer; and the sealer answered the output for that
  -- ticket and the pieces of the record.
  pub pre_commit1_is_checked :
      (w : World) (out value : Bytes) (epoch : ℤ)
      → (handle_pre_commit1 m s w).0 ≡ sends (Event.sector_pre_commit1 out value epoch)
      → ((v : World) × (tok : Bytes) × (height : ℤ) × ((m.api.chain_head v).0 ≡ ok (tok, height))
          × All (Fits m tok height) s.pieces)
        × IsTicket value epoch
        × IsOutput value out
  unfolding handle_pre_commit1
  pre_commit1_is_checked w out value epoch h = subst Replicates h (replicates.at w)
    where
      replicates : Always Replicates (handle_pre_commit1 m s)
      replicates =
          bind-Always _
            λ c v e. on_pieces_checked-Replicates c (λ p. check_pieces_sound m s v (e ∙ p))
