-- ===== src/Tests/Grown.antt =====
-- A sector with a deal through its first batches, written with the small codec and read back.
use mathlib.Core.Bool.{cond}
use storage_fsm.Base.{
  ℕ, ◌≤◌, length, Bool, true, false, ◌≡◌, refl, arith, [], ◌∷◌, ◌++◌, Bytes, ok, some, none, Option,
  subst,
}
use storage_fsm.Base.Int.{ℤ}
use storage_fsm.Sector.{SectorInfo, DealInfo, zero_sector}
use storage_fsm.Events.{Event, type_of, apply, apply_global, is_mutator, is_formatter}
use storage_fsm.Fsm.Table.{EventType-discrete, plan_one, rows, planners}
use storage_fsm.Fsm.Plan.{plan, log_events}
use storage_fsm.Cbor.SectorWrite.{marshal_sector}
use storage_fsm.Cbor.SectorRead.{unmarshal_sector}
use storage_fsm.Cbor.Deals.{IsDealInfo}
use storage_fsm.System.Storage.{Grows, created, grown, grown_record_reads_back}
use storage_fsm.System.Storage.Contents.{Leaves}
use storage_fsm.Tests.{logging}
use storage_fsm.Tests.Codec.{codec, codec-Behaves, cid_written, piece_written}

abbrev deal : DealInfo
deal = record {
  deal_id = 9;
  deal_schedule = record { start_epoch = ℤ.pos 200; end_epoch = ℤ.pos 900 };
}

abbrev start : Event ℕ
start =
    Event.sector_start 4 (ℤ.pos 3)
      (record { piece = record { size = 1024; piece_cid = 21 }; deal_info = some deal } ∷ [])

abbrev packed : Event ℕ
packed = Event.sector_packed (record { size = 1024; piece_cid = 22 } ∷ [])

abbrev replica : Event ℕ
replica = Event.sector_pre_commit1 (41 ∷ []) (7 ∷ 8 ∷ []) (ℤ.negsuc 4)

abbrev commitments : Event ℕ
commitments = Event.sector_pre_commit2 12 11

abbrev after : Event ℕ → SectorInfo ℕ → SectorInfo ℕ
after e s = (plan logging (e ∷ []) s).0

abbrev grown_sector : SectorInfo ℕ
grown_sector = after commitments (after replica (after packed (after start zero_sector)))

abbrev FitsIn : Option DealInfo → Type 0
FitsIn o = elim o [ none ↦ Unit | some d ↦ IsDealInfo d ]

leaves : (e : Event ℕ) → Leaves codec codec-Behaves logging e
leaves e i message is = (
  omega arith,
  traced (is_formatter e),
  subst (λ o. length (codec.bytes_of (elim o [ none ↦ "" | some t ↦ t ])) ≤ 8192) is (omega arith),
  omega arith,
)
  where
    traced : (b : Bool) → length (codec.bytes_of (cond b "trace" "")) ≤ 8192
    traced true = omega arith
    traced false = omega arith

grown_sector-Grows : Grows codec codec-Behaves logging grown_sector
grown_sector-Grows =
    grown
      (grown
        (grown
          (grown created (start ∷ []) (
            (
              refl,
              (
                omega arith,
                ground arith,
                (
                  (
                    piece_written _,
                    λ d e. subst FitsIn e (omega arith, (ground arith, ground arith)),
                  ),
                  tt,
                ),
              ),
              leaves start,
            ),
            tt,
          ))
          (packed ∷ []) ((refl, (piece_written _, tt), leaves packed), tt))
        (replica ∷ []) ((refl, (omega arith, omega arith, ground arith), leaves replica), tt))
      (commitments ∷ []) ((refl, (cid_written _, cid_written _), leaves commitments), tt)

grown_record_reads_back_example :
    ((marshal_sector codec (some grown_sector) []).0 ≡ ok tt)
    × (b : Bytes) × (codec-Behaves.out (marshal_sector codec (some grown_sector) []).1
        ≡ codec-Behaves.out [] ++ b)
    × (unmarshal_sector codec zero_sector (b ++ 0 ∷ []) ≡ ok (grown_sector, 0 ∷ []))
unfolding plan log_events planners rows plan_one apply_global EventType-discrete type_of is_mutator
    apply zero_sector
grown_record_reads_back_example =
    grown_record_reads_back codec codec-Behaves logging grown_sector-Grows (omega arith)
      (omega arith) [] (0 ∷ [])
