-- ===== src/Tests/Packed.antt =====
-- Fillers, packing, the check of pieces and the expiration policy at concrete sizes, deals and
-- epochs, those of precommit_policy_test.go among them.
use storage_fsm.Base.{ℕ, ◌+◌, ◌-◌, ◌*◌, ◌/◌, ◌%◌, ◌^◌, ◌≡◌, ◌≤◌, ◌<◌, refl, List, [], ◌∷◌}
use storage_fsm.Base.{All, arith, none, some, sum, ok, Bytes, Option, Result, err, ap, subst}
use storage_fsm.Base.Int.{ℤ, ◌+ℤ◌, ◌-ℤ◌, ◌≤ℤ◌}
use storage_fsm.Base.Int64.{add64, sub64, rem64, wrap64}
use storage_fsm.Sector.{
  SectorState, SectorInfo, Piece, PieceInfo, DealInfo, zero_sector, existing_piece_sizes,
}
use storage_fsm.Events.{Event, apply}
use storage_fsm.Fillers.Loop.{
  fillers_from_rem, ones_count64, ones_from, zeros_from, trailing_zeros64, fill_from,
}
use storage_fsm.Fillers.Total.{Splits, sum-fillers_from_rem, fillers_are_pieces}
use storage_fsm.Api.{SectorId}
use storage_fsm.Api.Action.{Act, attempt, bind, pure, when, on_nil, check}
use storage_fsm.Checks.{passes, miner_sector, check_pieces, check_each, check_proposal}
use storage_fsm.Checks.Pieces.{Fits, check_pieces_sound}
use storage_fsm.Handlers.Outcome.{sends}
use storage_fsm.Handlers.Packing.{allocated_from, handle_packing, pledge_sector, pledge_each}
use storage_fsm.Handlers.Filled.{packed_sector_is_full}
use storage_fsm.Policy.Expiration.{
  BasicPreCommitPolicy, new_basic_pre_commit_policy, expiration, latest_end, expiration_at,
  round_up, end_or,
}
use storage_fsm.Policy.Deals.{EndsBy, AllEndBy}
use storage_fsm.Policy.Promise.{answer, expiration_covers_deals, expiration_is_tight}
use storage_fsm.Tests.{services}

abbrev unpad : ℕ → ℕ
unpad n = n - n / 128

unpad_ratio : (k : ℕ) → unpad (128 * k) ≡ 127 * k
unpad_ratio k = omega arith

-- A rest of 127 * 13 bytes takes three fillers.
fillers_of_thirteen : fillers_from_rem unpad (127 * 13) ≡ 127 ∷ 508 ∷ 1016 ∷ []
unfolding fillers_from_rem ones_count64 ones_from trailing_zeros64 zeros_from fill_from
fillers_of_thirteen = refl

sum-fillers_from_rem_example : sum (fillers_from_rem unpad (127 * 13)) ≡ 127 * 13
sum-fillers_from_rem_example = sum-fillers_from_rem unpad unpad_ratio 13 (omega arith)

fillers_are_pieces_example :
    Splits unpad ((1651 + 1651 / 127) % 2 ^ 64) (fillers_from_rem unpad 1651)
fillers_are_pieces_example = fillers_are_pieces unpad 1651

abbrev deal : DealInfo
deal = record {
  deal_id = 42;
  deal_schedule = record { start_epoch = ℤ.pos 170; end_epoch = ℤ.pos 300 };
}

abbrev deal_piece : Piece ℕ
deal_piece = record { piece = record { size = 128; piece_cid = 21 }; deal_info = some deal }

abbrev filler_piece : Piece ℕ
filler_piece = record { piece = record { size = 256; piece_cid = 22 }; deal_info = none }

unfoldable pub deal_sector : SectorInfo ℕ
unfolding zero_sector
deal_sector = record (zero_sector {Cid = ℕ}) {
  state = SectorState.packing;
  pieces = deal_piece ∷ filler_piece ∷ [];
}

abbrev fillers : List (PieceInfo ℕ)
fillers =
    record { size = 128; piece_cid = 22 }
    ∷ record { size = 512; piece_cid = 22 }
    ∷ record { size = 1024; piece_cid = 22 }
    ∷ []

-- A sector of 2048 bytes with pieces of 128 and 256 bytes gets fillers of 128, 512 and 1024.
packed : (handle_packing services deal_sector tt).0 ≡ sends (Event.sector_packed fillers)
unfolding handle_packing deal_sector allocated_from pledge_sector pledge_each miner_sector attempt
    bind pure when check fillers_from_rem ones_count64 ones_from trailing_zeros64 zeros_from
    fill_from
packed = refl

-- Unpadding gives back the size that `add_piece` was asked for.
adds :
    (priority : Option ℕ) (id : SectorId) (existing : List ℕ) (size : ℕ) (content : Bytes)
    (w : Unit {0}) (p : PieceInfo ℕ)
    → (services.sealer.add_piece priority id existing size content w).0 ≡ ok p
    → services.unpadded p.size ≡ size
adds priority id existing size content w p h = omega (arith, same_size)
  where
    size_of : Result (PieceInfo ℕ) → ℕ
    size_of (ok q) = q.size
    size_of (err e) = 0

    same_size : size + size / 127 ≡ p.size
    same_size = ap size_of h

packed_sector_is_full_example :
    sum (existing_piece_sizes services.unpadded (apply (Event.sector_packed fillers) deal_sector))
    ≡ services.unpadded services.sealer.sector_size
packed_sector_is_full_example =
    packed_sector_is_full services adds deal_sector unpad_ratio 3 16
      (unfold existing_piece_sizes deal_sector in refl) refl (omega arith) (omega arith) tt fillers
      packed

pieces_pass : (check_pieces services deal_sector tt).0 ≡ passes
unfolding check_pieces check_each check_proposal deal_sector attempt bind pure when on_nil
pieces_pass = refl

check_pieces_sound_example :
    (v : Unit {0}) × (tok : Bytes) × (height : ℤ) × ((services.api.chain_head v).0
      ≡ ok (tok, height))
    × All (Fits services tok height) deal_sector.pieces
check_pieces_sound_example = check_pieces_sound services deal_sector tt pieces_pass

abbrev head : Act (Unit {0}) (Result (Bytes × ℤ))
head w = (ok (1 ∷ [], ℤ.pos 55), w)

abbrev policy : ℕ → ℕ → BasicPreCommitPolicy (Unit {0})
policy boundary duration = new_basic_pre_commit_policy head (ℤ.pos duration) (ℤ.pos boundary)

-- `TestBasicPolicyEmptySector`, for a proving period of 3456 epochs.
empty_sector : (expiration {Cid = ℕ} (ℤ.pos 3456) (policy 0 10) [] tt).0 ≡ ok (ℤ.pos 3455)
unfolding new_basic_pre_commit_policy attempt bind pure expiration expiration_at latest_end round_up
    add64 sub64 rem64 wrap64 ◌+ℤ◌ ◌-ℤ◌
empty_sector = refl

-- `TestBasicPolicyMostConstrictiveSchedule`: deals that end at 75 and 100, a boundary of 11.
abbrev ending : ℕ → Piece ℕ
ending end = record {
  piece = record { size = 1024; piece_cid = 23 };
  deal_info = some (record {
    deal_id = end;
    deal_schedule = record { start_epoch = ℤ.pos 1; end_epoch = ℤ.pos end };
  });
}

abbrev two_deals : List (Piece ℕ)
two_deals = ending 75 ∷ ending 100 ∷ []

later_deal : (expiration (ℤ.pos 3456) (policy 11 100) two_deals tt).0 ≡ ok (ℤ.pos 3466)
unfolding new_basic_pre_commit_policy attempt bind pure expiration expiration_at latest_end round_up
    add64 sub64 rem64 wrap64 ◌+ℤ◌ ◌-ℤ◌
later_deal = refl

-- `TestBasicPolicyIgnoresExistingScheduleIfExpired`
expired_deal : (expiration (ℤ.pos 3456) (policy 0 100) (ending 10 ∷ []) tt).0 ≡ ok (ℤ.pos 3455)
unfolding new_basic_pre_commit_policy attempt bind pure expiration expiration_at latest_end round_up
    add64 sub64 rem64 wrap64 ◌+ℤ◌ ◌-ℤ◌
expired_deal = refl

two_deals_end : AllEndBy (ℤ.pos 200) two_deals
two_deals_end = (by 75 (omega arith), (by 100 (omega arith), tt))
  where
    end_of : Option DealInfo → ℤ
    end_of none = ℤ.pos 0
    end_of (some d) = d.deal_schedule.end_epoch

    by :
        (end : ℕ)
        → end ≤ 200
        → (d : DealInfo) → (ending end).deal_info ≡ some d
        → d.deal_schedule.end_epoch ≤ℤ ℤ.pos 200
    by end le d h = subst (λ x. x ≤ℤ ℤ.pos 200) (ap end_of h) (omega arith)

expiration_covers_deals_example :
    (r : ℕ) × (answer 3456 11 55 100 head tt (1 ∷ []) refl two_deals ≡ ok (ℤ.pos r))
    × ((r + 1) % 3456 ≡ 11 % 3456)
    × EndsBy (ℤ.pos 55) (ℤ.pos r) two_deals
expiration_covers_deals_example =
    expiration_covers_deals 3456 11 55 100 head tt (1 ∷ []) refl two_deals 200 (omega arith)
      two_deals_end (omega arith) (omega arith)

last_end : end_or (latest_end (ℤ.pos 55) none two_deals) (add64 (ℤ.pos 55) (ℤ.pos 100)) ≡ ℤ.pos 100
unfolding latest_end
last_end = refl

expiration_is_tight_example : (100 + 11 ≤ 3466) × (3466 < 100 + 3456 + 11)
expiration_is_tight_example =
    expiration_is_tight 3456 11 55 100 head tt (1 ∷ []) refl two_deals 200 (omega arith)
      two_deals_end (omega arith) (omega arith) 100 3466 last_end later_deal
