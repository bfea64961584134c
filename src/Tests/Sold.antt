-- ===== src/Tests/Sold.antt =====
-- A piece that a client sells into sector 4, and a pledged sector.
use storage_fsm.Base.{ℕ, ◌≡◌, refl, [], ◌∷◌, List, ◌++◌, ok, arith}
use storage_fsm.Base.Int.{ℤ}
use storage_fsm.Sector.{SectorState, DealInfo, PieceInfo, zero_sector, deal_ids}
use storage_fsm.Events.{Event}
use storage_fsm.Fsm.Plan.{plan}
use storage_fsm.Api.Action.{attempt, bind, pure, check}
use storage_fsm.Api.{SectorId}
use storage_fsm.Handlers.Outcome.{sends}
use storage_fsm.Handlers.Packing.{pledge_each, pledge_sector, handle_packing}
use storage_fsm.Entry.{StateGroup, returns, seal_piece, pledge_in_background}
use storage_fsm.Entry.Pledged.{Pledged, Added, begun, pledged_sector_is_full}
use storage_fsm.Entry.Begin.{Started, sold, IsBegun, sold_piece_begins_sector}
use storage_fsm.Tests.{logging, services_on}

abbrev Sent : Type 0
Sent = List (ℕ × Event ℕ)

-- A group that keeps what it is sent.
abbrev group : StateGroup ℕ Sent
group = record {
  send = λ n e w. (ok tt, w ++ (n, e) ∷ []);
  list = λ w. (ok [], w);
  get = λ n w. (ok zero_sector, w);
  halt = λ w. (ok tt, w);
}

abbrev deal : DealInfo
deal = record {
  deal_id = 9;
  deal_schedule = record { start_epoch = ℤ.pos 200; end_epoch = ℤ.pos 900 };
}

piece_sold : (seal_piece (services_on Sent) group 127 [] 4 deal []).0 ≡ returns (ok tt)
unfolding seal_piece attempt bind pure check
piece_sold = refl

sold_piece_begins_sector_example :
    (q : Started (services_on Sent) group 127 [] 4 deal) × IsBegun
      (services_on Sent)
      group
      127
      []
      4
      deal
      q.seal_type
      (plan logging
        (Event.sector_start 4 q.seal_type (sold (services_on Sent) group 127 [] 4 deal q.piece)
          ∷ [])
        zero_sector).0
sold_piece_begins_sector_example =
    sold_piece_begins_sector (services_on Sent) group 127 [] 4 deal logging [] piece_sold

pledged_all : (pledge_in_background (services_on Sent) group []).0 ≡ returns (ok tt)
unfolding pledge_in_background pledge_sector pledge_each attempt bind pure check
pledged_all = refl

whole :
    (id : SectorId) (p : PieceInfo ℕ)
    → Added (services_on Sent) group id p
    → (services_on Sent).unpadded p.size ≡ 2032
whole id p (content, zeros, w, is) =
    let size : p.size ≡ 2048 = ground (arith, is) in omega (arith, size)

pledged_sector_is_full_example :
    (q : Pledged (services_on Sent) group) × ((begun (services_on Sent) group logging q).state
      ≡ SectorState.packing)
    × ((begun (services_on Sent) group logging q).sector_number ≡ q.sector_id)
    × (deal_ids (begun (services_on Sent) group logging q) ≡ [])
    × ((v : Sent)
        → (handle_packing (services_on Sent) (begun (services_on Sent) group logging q) v).0
          ≡ sends (Event.sector_packed []))
pledged_sector_is_full_example =
    pledged_sector_is_full (services_on Sent) group whole (omega arith) logging [] pledged_all
