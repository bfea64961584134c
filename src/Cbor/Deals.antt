-- ===== src/Cbor/Deals.antt =====
-- A deal, a piece and a log entry, written and read back.
use storage_fsm.Base.{◌^◌, ◌<◌, ◌≤◌, ◌≡◌, refl, true, length, Option, none, some, arith, [], ◌∷◌}
use storage_fsm.Base.Int64.{IsInt64}
use storage_fsm.Sector.{DealSchedule, DealInfo, PieceInfo, Piece, Log}
use storage_fsm.Cbor.Stream.{wrapped}
use storage_fsm.Cbor.Services.{Cbg}
use storage_fsm.Cbor.Values.{write_null, read_pointer}
use storage_fsm.Cbor.Behaves.{Behaves}
use storage_fsm.Cbor.Rounds.{Round, wrapped-Reads, write-Appends}
use storage_fsm.Cbor.Rounds.Values.{
  text-Round, uint-Round, int-Round, null_pointer-Reads, pointer-Reads,
}
use storage_fsm.Cbor.Rounds.Structs.{Begun, struct-Begun, next-Emits, last-Emits, wrapped-Round}
use storage_fsm.Cbor.Deal.{
  zero_schedule, zero_deal_info, zero_piece, marshal_deal_schedule, deal_schedule_field,
  unmarshal_deal_schedule, marshal_deal_info, deal_info_field, unmarshal_deal_info, marshal_piece,
  piece_field, unmarshal_piece,
}
use storage_fsm.Cbor.Entries.{zero_log, marshal_log, log_field, unmarshal_log}

-- What Go's types hold: int64 epochs and a uint64 identifier.
abbrev pub IsSchedule : DealSchedule → Type 0
IsSchedule d = IsInt64 d.start_epoch × IsInt64 d.end_epoch

abbrev pub IsDealInfo : DealInfo → Type 0
IsDealInfo d = (d.deal_id < 2 ^ 64) × IsSchedule d.deal_schedule

module _ {Cid World : Type 0} (c : Cbg Cid World) (h : Behaves c) where
  abbrev pub IsPiece : Piece Cid → Type 0
  IsPiece p =
      (h.is_piece_info p.piece ≡ true) × ((d : DealInfo) → p.deal_info ≡ some d → IsDealInfo d)

  -- A timestamp of 64 bits, and texts that are not too long to be written.
  abbrev pub IsEntry : Log → Type 0
  IsEntry l =
      (l.timestamp < 2 ^ 64)
      × (length (c.bytes_of l.trace) ≤ c.max_length)
      × (length (c.bytes_of l.message) ≤ c.max_length)
      × (length (c.bytes_of l.kind) ≤ c.max_length)

  schedule-Begun :
      (d : DealSchedule)
      → IsSchedule d
      → Begun c h 162 (marshal_deal_schedule c (some d)) (unmarshal_deal_schedule c zero_schedule) d
  unfolding marshal_deal_schedule unmarshal_deal_schedule deal_schedule_field
  schedule-Begun d q = struct-Begun c h _ (deal_schedule_field c) 2 (omega arith) (
      next-Emits c h (deal_schedule_field c) "StartEpoch" (λ t v. record t { start_epoch = v })
        (omega arith) (int-Round c h d.start_epoch q.0) refl
        (last-Emits c h (deal_schedule_field c) "EndEpoch" (λ t v. record t { end_epoch = v })
          (omega arith) (int-Round c h d.end_epoch q.1) refl))

  deal_info-Begun :
      (d : DealInfo)
      → IsDealInfo d
      → Begun c h 162 (marshal_deal_info c (some d)) (unmarshal_deal_info c zero_deal_info) d
  unfolding marshal_deal_info unmarshal_deal_info deal_info_field
  deal_info-Begun d q = struct-Begun c h _ (deal_info_field c) 2 (omega arith) (
      next-Emits c h (deal_info_field c) "DealID" (λ t v. record t { deal_id = v }) (omega arith)
        (uint-Round c h d.deal_id q.0) refl
        (last-Emits c h (deal_info_field c) "DealSchedule" (λ t v. record t { deal_schedule = v })
          (omega arith) (wrapped-Round c h _ (schedule-Begun d.deal_schedule q.1).round) refl))

  pointer-Round :
      (p : Option DealInfo)
      → ((d : DealInfo) → p ≡ some d → IsDealInfo d)
      → Round c h
          (marshal_deal_info c p)
          (read_pointer c none
            (wrapped "unmarshaling t.DealInfo pointer: %w" (unmarshal_deal_info c zero_deal_info)))
          p
  unfolding marshal_deal_info write_null
  pointer-Round none ok_d = record {
    bytes = c.cbor_null ∷ [];
    appends = write-Appends c h _;
    reads = null_pointer-Reads c h _;
  }
  pointer-Round (some d) ok_d =
      let b = deal_info-Begun d (ok_d d refl) in
      record {
        bytes = b.round.bytes;
        appends = b.round.appends;
        reads =
            pointer-Reads c h 162 b.tail b.begins (ground arith)
              (wrapped-Reads "unmarshaling t.DealInfo pointer: %w" b.round.reads);
      }

  piece_info-Round :
      (old p : PieceInfo Cid)
      → h.is_piece_info p ≡ true
      → Round c h (c.write_piece_info p) (c.read_piece_info old) p
  piece_info-Round old p q = record {
    bytes = h.piece_bytes p;
    appends = record { at = λ w. h.writes_piece p w q };
    reads = record { at = λ rest. h.reads_piece old p rest q };
  }

  pub piece-Round :
      (p : Piece Cid)
      → IsPiece p
      → Round c h (marshal_piece c (some p)) (unmarshal_piece c (zero_piece c.undef)) p
  unfolding marshal_piece unmarshal_piece piece_field
  piece-Round p q =
      (struct-Begun c h _ (piece_field c) 2 (omega arith) (
        next-Emits c h (piece_field c) "Piece" (λ t v. record t { piece = v }) (omega arith)
          (wrapped-Round c h _ (piece_info-Round _ p.piece q.0)) refl
          (last-Emits c h (piece_field c) "DealInfo" (λ t v. record t { deal_info = v })
            (omega arith) (pointer-Round p.deal_info q.1) refl))).round

  pub entry-Round :
      (l : Log) → IsEntry l → Round c h (marshal_log c (some l)) (unmarshal_log c zero_log) l
  unfolding marshal_log unmarshal_log log_field
  entry-Round l q =
      (struct-Begun c h _ (log_field c) 4 (omega arith) (
        next-Emits c h (log_field c) "Timestamp" (λ t v. record t { timestamp = v }) (omega arith)
          (uint-Round c h l.timestamp q.0) refl
          (next-Emits c h (log_field c) "Trace" (λ t v. record t { trace = v }) (omega arith)
            (text-Round c h _ l.trace q.1) refl
            (next-Emits c h (log_field c) "Message" (λ t v. record t { message = v }) (omega arith)
              (text-Round c h _ l.message q.2) refl
              (last-Emits c h (log_field c) "Kind" (λ t v. record t { kind = v }) (omega arith)
                (text-Round c h _ l.kind q.3) refl))))).round
