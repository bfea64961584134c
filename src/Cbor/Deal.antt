-- ===== src/Cbor/Deal.antt =====
-- cbor_gen.go: `MarshalCBOR` and `UnmarshalCBOR` of DealSchedule, DealInfo and Piece. A pointer that
-- may be nil is an `Option`.
use text.Mathlib.Text.{◌==◌}
use storage_fsm.Base.{Option, none, some, [], ◌∷◌, String, if◌then◌else◌}
use storage_fsm.Base.Int.{ℤ}
use storage_fsm.Sector.{DealSchedule, DealInfo, Piece}
use storage_fsm.Cbor.Stream.{Write, ◌>>◌, Reader, give, wrapped, read_then}
use storage_fsm.Cbor.Services.{Cbg}
use storage_fsm.Cbor.Values.{
  write_null, write_field, write_uint, write_int, read_struct, read_fields, unknown_field,
  read_uint, read_int, read_pointer,
}

-- The zero values that Go makes for `new(DealInfo)` and `var v Piece`.
abbrev pub zero_schedule : DealSchedule
zero_schedule = record { start_epoch = ℤ.pos 0; end_epoch = ℤ.pos 0 }

abbrev pub zero_deal_info : DealInfo
zero_deal_info = record { deal_id = 0; deal_schedule = zero_schedule }

abbrev pub zero_piece : {Cid : Type 0} → Cid → Piece Cid
zero_piece undef = record { piece = record { size = 0; piece_cid = undef }; deal_info = none }

module _ {Cid World : Type 0} (c : Cbg Cid World) where
  unfoldable pub marshal_deal_schedule : Option DealSchedule → Write World
  unfolding write_field
  marshal_deal_schedule none = write_null c
  marshal_deal_schedule (some t) =
      c.write (162 ∷ [])
      >> (write_field c "StartEpoch" (write_int c t.start_epoch)
          >> write_field c "EndEpoch" (write_int c t.end_epoch))

  unfoldable pub deal_schedule_field : String → DealSchedule → Reader DealSchedule
  deal_schedule_field name t =
      if name == "StartEpoch"
      then read_then (read_int c) (λ v. give (record t { start_epoch = v }))
      else if name == "EndEpoch"
      then read_then (read_int c) (λ v. give (record t { end_epoch = v }))
      else unknown_field c

  unfoldable pub unmarshal_deal_schedule : DealSchedule → Reader DealSchedule
  unfolding deal_schedule_field read_struct
  unmarshal_deal_schedule t =
      read_struct c "DealSchedule: map struct too large (%d)" (read_fields c deal_schedule_field t)

  unfoldable pub marshal_deal_info : Option DealInfo → Write World
  unfolding marshal_deal_schedule
  marshal_deal_info none = write_null c
  marshal_deal_info (some t) =
      c.write (162 ∷ [])
      >> (write_field c "DealID" (write_uint c t.deal_id)
          >> write_field c "DealSchedule" (marshal_deal_schedule (some t.deal_schedule)))

  unfoldable pub deal_info_field : String → DealInfo → Reader DealInfo
  unfolding unmarshal_deal_schedule
  deal_info_field name t =
      if name == "DealID"
      then read_then (read_uint c) (λ v. give (record t { deal_id = v }))
      else if name == "DealSchedule"
      then read_then
          (wrapped "unmarshaling t.DealSchedule: %w" (unmarshal_deal_schedule t.deal_schedule))
          (λ v. give (record t { deal_schedule = v }))
      else unknown_field c

  unfoldable pub unmarshal_deal_info : DealInfo → Reader DealInfo
  unfolding deal_info_field
  unmarshal_deal_info t =
      read_struct c "DealInfo: map struct too large (%d)" (read_fields c deal_info_field t)

  unfoldable pub marshal_piece : Option (Piece Cid) → Write World
  unfolding marshal_deal_info
  marshal_piece none = write_null c
  marshal_piece (some t) =
      c.write (162 ∷ [])
      >> (write_field c "Piece" (c.write_piece_info t.piece)
          >> write_field c "DealInfo" (marshal_deal_info t.deal_info))

  unfoldable pub piece_field : String → Piece Cid → Reader (Piece Cid)
  unfolding unmarshal_deal_info
  piece_field name t =
      if name == "Piece"
      then read_then (wrapped "unmarshaling t.Piece: %w" (c.read_piece_info t.piece))
          (λ v. give (record t { piece = v }))
      else if name == "DealInfo"
      then read_then
          (read_pointer c t.deal_info
            (wrapped "unmarshaling t.DealInfo pointer: %w" (unmarshal_deal_info zero_deal_info)))
          (λ v. give (record t { deal_info = v }))
      else unknown_field c

  unfoldable pub unmarshal_piece : Piece Cid → Reader (Piece Cid)
  unfolding piece_field
  unmarshal_piece t = read_struct c "Piece: map struct too large (%d)" (read_fields c piece_field t)
