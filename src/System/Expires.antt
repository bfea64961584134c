-- ===== src/System/Expires.antt =====
-- The pre-commit with the basic policy: the expiration in the message that is sent.
use storage_fsm.Base.{
  ℕ, ◌+◌, ◌%◌, ◌^◌, ◌≤◌, ◌<◌, ◌≡◌, refl, sym, ap, ◌∙◌, ◌⊎◌, inl, inr, Bytes, List, Error, Result,
  ok, err, arith,
}
use storage_fsm.Base.Int.{ℤ, pos}
use storage_fsm.Sector.{SectorInfo, Piece}
use storage_fsm.Events.{Event}
use storage_fsm.Api.{Sealing}
use storage_fsm.Api.Action.{attempt, bind, pure, branch}
use storage_fsm.Handlers.Outcome.{sends}
use storage_fsm.Handlers.Precommit.{handle_pre_committing}
use storage_fsm.Handlers.Submitted.{SentFor, pre_committed_is_checked}
use storage_fsm.Policy.Expiration.{new_basic_pre_commit_policy, expiration, expiration_at}
use storage_fsm.Policy.Deals.{EndsBy, AllEndBy}
use storage_fsm.Policy.Promise.{expiration_covers_deals}

ok-inj : {a b : ℤ} → ok a ≡ ok b → a ≡ b
ok-inj h = ground arith

module _ {Cid Address World : Type 0} (m : Sealing Cid Address World)
    (period boundary duration : ℕ) where
  -- The policy of the sector is the basic one, on the same chain.
  abbrev pub UsesBasic : Type 0
  UsesBasic =
      (ps : List (Piece Cid)) (w : World)
      → m.expiration ps w
        ≡ expiration (pos period)
            (new_basic_pre_commit_policy m.api.chain_head (pos duration) (pos boundary)) ps w

  -- The chain had no head and the expiration is 0; or the chain was at an epoch, and no deal that is
  -- live then ends after the expiration, which is on a boundary of the proving period.
  abbrev pub Expires : List (Piece Cid) → ℤ → Type 0
  Expires ps x =
      ((v : World) × (e : Error) × ((m.api.chain_head v).0 ≡ err e) × (x ≡ pos 0))
      ⊎ ((v : World) × (tok : Bytes) × (epoch : ℕ) × ((m.api.chain_head v).0 ≡ ok (tok, pos epoch))
          × (r : ℕ) × (x ≡ pos r)
          × ((r + 1) % period ≡ boundary % period)
          × EndsBy (pos epoch) (pos r) ps)

  no_head :
      (ps : List (Piece Cid)) (v : World) (e : Error)
      → (m.api.chain_head v).0 ≡ err e
      → (expiration
          (pos period)
          (new_basic_pre_commit_policy m.api.chain_head (pos duration) (pos boundary))
          ps
          v).0
        ≡ ok (pos 0)
  unfolding expiration new_basic_pre_commit_policy attempt bind pure
  no_head ps v e h =
      ap
        (λ r.
          (branch (λ e. pure (ok (pos 0)))
            (λ (tok, epoch). pure (
              ok (
                expiration_at (pos period)
                  (new_basic_pre_commit_policy m.api.chain_head (pos duration) (pos boundary)) epoch
                  ps)))
            r (m.api.chain_head v).1).0)
        h

  module _ (basic : UsesBasic) (hi : ℕ)
      (heads : (v : World) (tok : Bytes) (height : ℤ)
        → (m.api.chain_head v).0 ≡ ok (tok, height)
        → (epoch : ℕ) × (height ≡ pos epoch) × (epoch + duration ≤ hi))
      (some_period : 0 < period) (fits : hi + period + boundary < 2 ^ 63) (s : SectorInfo Cid)
      (deals : AllEndBy (pos hi) s.pieces) where
    answered :
        (v : World) (x : ℤ)
        → (m.expiration s.pieces v).0 ≡ ok x
        → (r : Result (Bytes × ℤ)) → (m.api.chain_head v).0 ≡ r
        → Expires s.pieces x
    answered v x is (err e) h =
        inl (v, e, h, ok-inj (sym is ∙ ap (λ y. y.0) (basic s.pieces v) ∙ no_head s.pieces v e h))
    answered v x is (ok (tok, height)) h =
        let (epoch, at, le) = heads v tok height h in
        let at_epoch : (m.api.chain_head v).0 ≡ ok (tok, pos epoch) =
          h ∙ ap (λ y. ok (tok, y)) at in
        let (r, answer, boundary_at, covers) =
          expiration_covers_deals period boundary epoch duration m.api.chain_head v tok at_epoch
            s.pieces hi some_period deals le fits in
        inr (
          v,
          tok,
          epoch,
          at_epoch,
          r,
          ok-inj (sym is ∙ ap (λ y. y.0) (basic s.pieces v) ∙ answer),
          boundary_at,
          covers,
        )

    -- If `handlePreCommitting` sends `SectorPreCommitted` where the sector's policy is the basic one,
    -- the expiration in the message is 0, because the chain had no head when the policy asked; or no
    -- deal that was live at the head ends after it, and it is on a boundary of the proving period.
    -- Epochs are not negative, the period is positive, and no deal and no default duration ends after
    -- `hi`, which is small enough for the int64 sums.
    pub submitted_expiration_covers_deals :
        (w : World) (message : Cid)
        → (handle_pre_committing m s w).0 ≡ sends (Event.sector_pre_committed message)
        → (q : SentFor m s message) × Expires s.pieces q.expiration
    submitted_expiration_covers_deals w message h =
        let q = (pre_committed_is_checked m s w message h).0 in
        (q, answered q.expires.0 q.expiration q.expires.1 _ refl)
