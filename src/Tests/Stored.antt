-- ===== src/Tests/Stored.antt =====
-- A record with a deal and a log that is written with the small codec and read back.
use storage_fsm.Base.{
  ℕ, ◌≡◌, refl, arith, [], ◌∷◌, ◌++◌, Bytes, ok, err, Error, some, none, Option, subst,
}
use storage_fsm.Base.Int.{ℤ}
use storage_fsm.Sector.{SectorState, SectorInfo, DealInfo, zero_sector}
use storage_fsm.Events.{Event}
use storage_fsm.Fsm.Plan.{plan}
use storage_fsm.Cbor.Services.{Cbg}
use storage_fsm.Cbor.SectorWrite.{marshal_sector}
use storage_fsm.Cbor.SectorRead.{unmarshal_sector}
use storage_fsm.Cbor.States.{state_of, state_text}
use storage_fsm.Cbor.Deals.{IsDealInfo}
use storage_fsm.Cbor.Storable.{IsStorable}
use storage_fsm.Cbor.Stored.{unmarshal-marshal}
use storage_fsm.Cbor.Limits.{full_log_is_refused, long_event_is_refused}
use storage_fsm.Tests.{logging}
use storage_fsm.Tests.Codec.{codec, codec-Behaves, cid_written, piece_written}

-- A sector with a deal that waits for its seed.
abbrev stored : SectorInfo ℕ
stored = record {
  state = SectorState.wait_seed;
  sector_number = 4;
  sector_type = ℤ.pos 3;
  pieces =
      record {
        piece = record { size = 1024; piece_cid = 21 };
        deal_info = some (record {
          deal_id = 9;
          deal_schedule = record { start_epoch = ℤ.pos 200; end_epoch = ℤ.pos 900 };
        });
      }
      ∷ record { piece = record { size = 1024; piece_cid = 22 }; deal_info = none }
      ∷ [];
  ticket_value = 7 ∷ 8 ∷ [];
  ticket_epoch = ℤ.negsuc 4;
  pre_commit1_out = 41 ∷ [];
  comm_d = some 11;
  comm_r = some 12;
  proof = [];
  pre_commit_message = some 31;
  pre_commit_tip_set = 1 ∷ [];
  pre_commit2_fails = 0;
  seed_value = [];
  seed_epoch = ℤ.pos 70;
  commit_message = none;
  invalid_proofs = 1;
  fault_report_msg = none;
  last_err = "late";
  log = record { timestamp = 1700; trace = ""; message = "{}"; kind = "event" } ∷ [];
}

abbrev Fits : Option DealInfo → Type 0
Fits o = elim o [ none ↦ Unit | some d ↦ IsDealInfo d ]

stored-IsStorable : IsStorable codec codec-Behaves stored
unfolding state_of state_text
stored-IsStorable = record {
  state_named = refl;
  state_fits = omega arith;
  sector_number_fits = omega arith;
  sector_type_fits = ground arith;
  pieces_fit = omega arith;
  pieces_storable = (
    (piece_written _, λ d e. subst Fits e (omega arith, (ground arith, ground arith))),
    ((piece_written _, λ d e. ground arith), tt),
  );
  ticket_value_fits = omega arith;
  ticket_epoch_fits = ground arith;
  pre_commit1_out_fits = omega arith;
  comm_d_fits = λ d e. cid_written d;
  comm_r_fits = λ d e. cid_written d;
  proof_fits = omega arith;
  pre_commit_message_fits = λ d e. cid_written d;
  pre_commit_tip_set_fits = omega arith;
  pre_commit2_fails_fits = omega arith;
  seed_value_fits = omega arith;
  seed_epoch_fits = ground arith;
  commit_message_fits = λ d e. cid_written d;
  invalid_proofs_fits = omega arith;
  fault_report_msg_fits = λ d e. cid_written d;
  last_err_fits = omega arith;
  log_fits = omega arith;
  log_storable = ((omega arith, omega arith, omega arith, omega arith), tt);
}

unmarshal-marshal_example :
    ((marshal_sector codec (some stored) []).0 ≡ ok tt)
    × (b : Bytes) × (codec-Behaves.out (marshal_sector codec (some stored) []).1
        ≡ codec-Behaves.out [] ++ b)
    × (unmarshal_sector codec zero_sector (b ++ 0 ∷ []) ≡ ok (stored, 0 ∷ []))
unmarshal-marshal_example =
    unmarshal-marshal codec codec-Behaves stored stored-IsStorable [] (0 ∷ [])

abbrev small : Cbg ℕ Bytes
small = record codec { max_length = 1 }

full_log_is_refused_example :
    (x : Error) × ((marshal_sector small
        (some (plan logging (Event.sector_packed [] ∷ []) stored).0)
        []).0
      ≡ err x)
full_log_is_refused_example =
    full_log_is_refused small logging stored (Event.sector_packed []) "{}" refl (omega arith) []

long_event_is_refused_example :
    (x : Error) × ((marshal_sector small
        (some (plan logging (Event.sector_packed [] ∷ []) stored).0)
        []).0
      ≡ err x)
long_event_is_refused_example =
    long_event_is_refused small logging stored (Event.sector_packed []) "{}" refl (omega arith) []
