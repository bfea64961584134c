-- ===== src/Sector/Methods.antt =====
-- types.go: the methods of the record and of a message's receipt.
use storage_fsm.Base.{
  ◌≡◌, refl, true, not, Option, none, some, List, [], ◌∷◌, is_nil, bytes_equal_iff, ◌↔◌, arith,
}
use storage_fsm.Base.Int.{eqb_ℤ_iff}
use storage_fsm.Sector.{
  SectorInfo, Piece, DealInfo, MessageReceipt, equals, has_deals, has_deals_in, deal_ids,
  deal_ids_of,
}

-- `Equals` tells whether two receipts are the same.
pub equals_iff : (mr o : MessageReceipt) → (equals mr o ≡ true) ↔ (mr ≡ o)
unfolding equals
equals_iff mr o = ground (
  arith,
  eqb_ℤ_iff mr.exit_code o.exit_code,
  bytes_equal_iff mr.return o.return,
  eqb_ℤ_iff mr.gas_used o.gas_used,
)

module _ {Cid : Type 0} where
  has_deals_in-deal_ids_of :
      (ps : List (Piece Cid)) → has_deals_in ps ≡ not (is_nil (deal_ids_of ps))
  unfolding has_deals_in deal_ids_of
  has_deals_in-deal_ids_of [] = refl
  has_deals_in-deal_ids_of (p ∷ ps) = by p.deal_info (has_deals_in-deal_ids_of ps)
    where
      by :
          (o : Option DealInfo)
          → has_deals_in ps ≡ not (is_nil (deal_ids_of ps))
          → elim o [ none ↦ has_deals_in ps | some d ↦ true ]
            ≡ not (is_nil (elim o [ none ↦ deal_ids_of ps | some d ↦ d.deal_id ∷ deal_ids_of ps ]))
      by none h = h
      by (some d) h = refl

  -- `hasDeals` tells whether `dealIDs` lists an identifier.
  has_deals-deal_ids : (t : SectorInfo Cid) → has_deals t ≡ not (is_nil (deal_ids t))
  unfolding has_deals deal_ids
  has_deals-deal_ids t = has_deals_in-deal_ids_of t.pieces
