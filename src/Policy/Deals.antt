-- ===== src/Policy/Deals.antt =====
-- What the loop of `Expiration` finds among the deals.
use storage_fsm.Base.{◌≡◌, refl, Option, none, some, List, [], ◌∷◌, All, arith}
use storage_fsm.Base.Int.{ℤ, ◌≤ℤ◌}
use storage_fsm.Sector.{Piece, DealInfo}
use storage_fsm.Policy.Expiration.{latest_end, round_end}

-- Every deal of the pieces that has not ended by the epoch ends at `x` at the latest.
abbrev pub EndsBy : {Cid : Type 0} → ℤ → ℤ → List (Piece Cid) → Type 0
EndsBy epoch x ps =
    All
      (λ p.
        (d : DealInfo)
        → p.deal_info ≡ some d
        → epoch ≤ℤ d.deal_schedule.end_epoch
        → d.deal_schedule.end_epoch ≤ℤ x)
      ps

-- Every deal of the pieces ends at `x` at the latest.
abbrev pub AllEndBy : {Cid : Type 0} → ℤ → List (Piece Cid) → Type 0
AllEndBy x ps = All (λ p. (d : DealInfo) → p.deal_info ≡ some d → d.deal_schedule.end_epoch ≤ℤ x) ps

abbrev pub AtLeast : Option ℤ → ℤ → Type 0
AtLeast none x = ⊥
AtLeast (some y) x = x ≤ℤ y

abbrev pub Within : ℤ → ℤ → Option ℤ → Type 0
Within lo hi none = Unit
Within lo hi (some y) = (lo ≤ℤ y) × (y ≤ℤ hi)

module _ (epoch : ℤ) where
  -- The end that the loop holds after one more piece is no earlier.
  round_end-AtLeast :
      (end : Option ℤ) (deal : Option DealInfo) (x : ℤ)
      → AtLeast end x
      → AtLeast (round_end epoch end deal) x
  round_end-AtLeast none deal x h = absurd h
  round_end-AtLeast (some y) none x h = h
  round_end-AtLeast (some y) (some d) x h = ground arith

  latest_end-AtLeast :
      {Cid : Type 0} (end : Option ℤ) (ps : List (Piece Cid)) (x : ℤ)
      → AtLeast end x
      → AtLeast (latest_end epoch end ps) x
  unfolding latest_end
  latest_end-AtLeast end [] x h = h
  latest_end-AtLeast end (p ∷ ps) x h =
      latest_end-AtLeast (round_end epoch end p.deal_info) ps x
        (round_end-AtLeast end p.deal_info x h)

  round_end_live :
      (end : Option ℤ) (d : DealInfo)
      → epoch ≤ℤ d.deal_schedule.end_epoch
      → AtLeast (round_end epoch end (some d)) d.deal_schedule.end_epoch
  round_end_live none d h = ground arith
  round_end_live (some y) d h = ground arith

  round_end-Within :
      (hi : ℤ) (end : Option ℤ) (deal : Option DealInfo)
      → ((d : DealInfo) → deal ≡ some d → d.deal_schedule.end_epoch ≤ℤ hi)
      → Within epoch hi end
      → Within epoch hi (round_end epoch end deal)
  round_end-Within hi end none k h = h
  round_end-Within hi none (some d) k h = ground (arith, k d refl)
  round_end-Within hi (some y) (some d) k h = ground (arith, k d refl)

  pub latest_end-Within :
      {Cid : Type 0} (hi : ℤ) (end : Option ℤ) (ps : List (Piece Cid))
      → AllEndBy hi ps
      → Within epoch hi end
      → Within epoch hi (latest_end epoch end ps)
  unfolding latest_end
  latest_end-Within hi end [] k h = h
  latest_end-Within hi end (p ∷ ps) k h =
      latest_end-Within hi (round_end epoch end p.deal_info) ps k.1
        (round_end-Within hi end p.deal_info k.0 h)

  pub latest_end_covers :
      {Cid : Type 0} (end : Option ℤ) (ps : List (Piece Cid))
      → All
          (λ p.
            (d : DealInfo)
            → p.deal_info ≡ some d
            → epoch ≤ℤ d.deal_schedule.end_epoch
            → AtLeast (latest_end epoch end ps) d.deal_schedule.end_epoch)
          ps
  unfolding latest_end
  latest_end_covers end [] = tt
  latest_end_covers end (p ∷ ps) = (
    λ d e live.
        latest_end-AtLeast (round_end epoch end p.deal_info) ps _
          (rw e (round_end_live end d live)),
    latest_end_covers (round_end epoch end p.deal_info) ps,
  )
