-- ===== src/System/Storage/Contents.antt =====
-- What a sector's record holds, as far as it must be written: each event brings values that can be
-- written, and the record keeps them.
use storage_fsm.Base.{
  ℕ, ◌+◌, ◌^◌, ◌&&◌, bytes_equal, ◌<◌, ◌≤◌, ◌≡◌, refl, length, All, List, [], ◌∷◌, ◌++◌, map,
  Option, none, some, String, Bool, true, false, arith,
}
use storage_fsm.Base.{Bytes}
use storage_fsm.Base.Int.{ℤ, eqb_ℤ}
use storage_fsm.Base.Int64.{IsInt64}
use storage_fsm.Sector.{SectorState, SectorInfo, PieceInfo, Piece, Log}
use storage_fsm.Events.{Event, apply, apply_global}
use storage_fsm.Fsm.Table.{Row, goes_on, returns, planned, committing_round}
use storage_fsm.Fsm.Plan.{Logging, log_entry, log_events, plan}
use storage_fsm.Fsm.Rules.{Unforced, rows_of, RowKeeps, RoundKeeps, GlobalKeeps, plan-keeps}
use storage_fsm.Cbor.Services.{Cbg}
use storage_fsm.Cbor.Behaves.{Behaves}
use storage_fsm.Cbor.Deals.{IsPiece, IsEntry}

module _ {Cid World : Type 0} (c : Cbg Cid World) (h : Behaves c) where
  -- A CID that is there can be written.
  abbrev pub CidFits : Option Cid → Type 0
  CidFits o = (d : Cid) → o ≡ some d → h.is_cid d ≡ true

  -- What a start brings, and what the two sealing phases, the two messages and the seed bring.
  abbrev pub OriginFits : ℕ → ℤ → List (Piece Cid) → Type 0
  OriginFits id t pieces = (id < 2 ^ 64) × IsInt64 t × All (IsPiece c h) pieces

  abbrev pub TicketFits : Bytes → Bytes → ℤ → Type 0
  TicketFits out value epoch =
      (length out ≤ c.byte_array_max_len) × (length value ≤ c.byte_array_max_len) × IsInt64 epoch

  abbrev pub SeedFits : Bytes → ℤ → Type 0
  SeedFits value epoch = (length value ≤ c.byte_array_max_len) × IsInt64 epoch

  -- Every value of the record can be written. The state, and how many pieces and log entries there
  -- are, is left aside.
  abbrev pub IsWritable : SectorInfo Cid → Type 0
  IsWritable s =
      OriginFits s.sector_number s.sector_type s.pieces
      × TicketFits s.pre_commit1_out s.ticket_value s.ticket_epoch
      × (CidFits s.comm_d × CidFits s.comm_r)
      × (CidFits s.pre_commit_message × (length s.pre_commit_tip_set ≤ c.byte_array_max_len))
      × SeedFits s.seed_value s.seed_epoch
      × (CidFits s.commit_message × (length s.proof ≤ c.byte_array_max_len))
      × ((s.pre_commit2_fails < 2 ^ 64) × (s.invalid_proofs < 2 ^ 64))
      × CidFits s.fault_report_msg
      × (s.last_err ≡ "")
      × All (IsEntry c h) s.log

  -- The values that an event brings can be written.
  abbrev pub Brings : Event Cid → Type 0
  Brings (Event.sector_start id t pieces) = OriginFits id t pieces
  Brings (Event.sector_packed fillers) = All (λ p. h.is_piece_info p ≡ true) fillers
  Brings (Event.sector_pre_commit1 out value epoch) = TicketFits out value epoch
  Brings (Event.sector_pre_commit2 sealed unsealed) =
      (h.is_cid sealed ≡ true) × (h.is_cid unsealed ≡ true)
  Brings (Event.sector_pre_commit_landed tip_set) = length tip_set ≤ c.byte_array_max_len
  Brings (Event.sector_pre_committed message) = h.is_cid message ≡ true
  Brings (Event.sector_seed_ready value epoch) = SeedFits value epoch
  Brings (Event.sector_committed message proof) =
      (h.is_cid message ≡ true) × (length proof ≤ c.byte_array_max_len)
  Brings (Event.sector_fault_reported message) = h.is_cid message ≡ true
  Brings _ = Unit

  some-CidFits : {d : Cid} → h.is_cid d ≡ true → CidFits (some d)
  some-CidFits {d} q e eq = ground (arith, eq, q)

  with_fillers :
      (ps : List (Piece Cid)) (fs : List (PieceInfo Cid))
      → All (IsPiece c h) ps
      → All (λ p. h.is_piece_info p ≡ true) fs
      → All (IsPiece c h) (ps ++ map (λ p. record { piece = p; deal_info = none }) fs)
  with_fillers [] [] a b = tt
  with_fillers [] (f ∷ fs) a b = ((b.0, λ d e. ground arith), with_fillers [] fs tt b.1)
  with_fillers (p ∷ ps) fs a b = (a.0, with_fillers ps fs a.1 b)

  apply-IsWritable :
      (e : Event Cid) (s : SectorInfo Cid) → Brings e → IsWritable s → IsWritable (apply e s)
  unfolding apply
  apply-IsWritable (Event.sector_start id t ps) s b (o, k, d, p, r, m, n, g, e, l) =
      (b, k, d, p, r, m, n, g, e, l)
  apply-IsWritable (Event.sector_packed fs) s b ((id, t, ps), k, d, p, r, m, n, g, e, l) =
      ((id, t, with_fillers s.pieces fs ps b), k, d, p, r, m, n, g, e, l)
  apply-IsWritable (Event.sector_pre_commit1 out v t) s b (o, k, d, p, r, m, (f, i), g, e, l) =
      (o, b, d, p, r, m, (omega arith, i), g, e, l)
  apply-IsWritable (Event.sector_pre_commit2 sealed unsealed) s b (o, k, d, p, r, m, n, g, e, l) =
      (o, k, (some-CidFits b.1, some-CidFits b.0), p, r, m, n, g, e, l)
  apply-IsWritable (Event.sector_pre_commit_landed tip) s b
        (o, k, d, (p, tip_fits), r, m, n, g, e, l) =
      (o, k, d, (p, b), r, m, n, g, e, l)
  apply-IsWritable (Event.sector_seal_pre_commit1_failed x) s b (o, k, d, p, r, m, n, g, e, l) =
      (o, k, d, p, r, m, (omega arith, omega arith), g, e, l)
  apply-IsWritable (Event.sector_seal_pre_commit2_failed x) s b (o, k, d, p, r, m, n, g, e, l) =
      (o, k, d, p, r, m, (ground arith, omega arith), g, e, l)
  apply-IsWritable (Event.sector_pre_committed x) s b (o, k, d, (p, tip_fits), r, m, n, g, e, l) =
      (o, k, d, (some-CidFits b, tip_fits), r, m, n, g, e, l)
  apply-IsWritable (Event.sector_seed_ready v t) s b (o, k, d, p, r, m, n, g, e, l) =
      (o, k, d, p, b, m, n, g, e, l)
  apply-IsWritable (Event.sector_committed x pf) s b (o, k, d, p, r, m, n, g, e, l) =
      (o, k, d, p, r, (some-CidFits b.0, b.1), n, g, e, l)
  apply-IsWritable Event.sector_retry_compute_proof s b (o, k, d, p, r, m, (f, i), g, e, l) =
      (o, k, d, p, r, m, (f, ground arith), g, e, l)
  apply-IsWritable Event.sector_retry_invalid_proof s b (o, k, d, p, r, m, (f, i), g, e, l) =
      (o, k, d, p, r, m, (f, ground arith), g, e, l)
  apply-IsWritable (Event.sector_fault_reported x) s b (o, k, d, p, r, m, n, g, e, l) =
      (o, k, d, p, r, m, n, some-CidFits b, e, l)
  apply-IsWritable _ s b q = q

  -- So do the entries of the log.
  module _ (L : Logging Cid) where
    abbrev pub Leaves : Event Cid → Type 0
    Leaves e =
        (i : ℕ) (message : String)
        → L.marshal e ≡ some message
        → IsEntry c h (log_entry L i e message)

    log_grows :
        (l : List Log) (k : Log)
        → All (IsEntry c h) l
        → IsEntry c h k
        → All (IsEntry c h) (l ++ k ∷ [])
    log_grows [] k a b = (b, tt)
    log_grows (x ∷ l) k a b = (a.0, log_grows l k a.1 b)

    abbrev pub IsFitting : Event Cid → Type 0
    IsFitting e = Unforced e × Brings e × Leaves e

    log_events-writable :
        (i : ℕ) (es : List (Event Cid)) (l : List Log)
        → All IsFitting es
        → All (IsEntry c h) l
        → All (IsEntry c h) (log_events L i es l)
    unfolding log_events
    log_events-writable i [] l u a = a
    log_events-writable i (e ∷ es) l u a =
        log_events-writable (i + 1) es _ u.1 (by (L.marshal e) (u.0.2 i))
      where
        by :
            (o : Option String)
            → ((message : String) → o ≡ some message → IsEntry c h (log_entry L i e message))
            → All (IsEntry c h) (elim o [ none ↦ l | some m ↦ l ++ log_entry L i e m ∷ [] ])
        by none f = a
        by (some m) f = log_grows l _ a (f m refl)

    abbrev Kept : SectorState → SectorInfo Cid → Type 0
    Kept st s = IsWritable s

    rounds :
        (e : Event Cid) (s : SectorInfo Cid)
        → IsFitting e
        → IsWritable s
        → IsWritable s
        → RoundKeeps Kept IsFitting (committing_round e s)
    unfolding committing_round apply_global
    rounds Event.sector_restart s u q k = (q, k)
    rounds (Event.sector_committed m p) s u q k =
        let a = apply-IsWritable (Event.sector_committed m p) s u.1 q in (a, a)
    rounds (Event.sector_seed_ready v e) s u q k =
        by (eqb_ℤ e s.seed_epoch && bytes_equal v s.seed_value)
      where
        by :
            (b : Bool)
            → RoundKeeps Kept IsFitting (elim b [
              | true ↦ goes_on s
              | false ↦
                  returns
                    (record (apply (Event.sector_seed_ready v e) s) {
                      state = SectorState.committing;
                    })
                    planned
            ])
        by true = (q, k)
        by false = apply-IsWritable (Event.sector_seed_ready v e) s u.1 q
    rounds (Event.sector_compute_proof_failed x) s u q k = (q, q)
    rounds (Event.sector_seal_pre_commit1_failed x) s u q k = (q, q)
    rounds (Event.sector_commit_failed x) s u q k = (q, q)
    rounds _ s u q k = q

    globals :
        (e : Event Cid) (s : SectorInfo Cid)
        → IsFitting e
        → IsWritable s
        → GlobalKeeps Kept IsFitting (apply_global e s)
    unfolding apply_global
    globals Event.sector_restart s u q = q
    globals (Event.sector_fatal_error x) s u q = q
    globals (Event.sector_force_state st) s u q = q
    globals _ s u q = tt

    each_row : (st : SectorState) (ts : List Row) → All (RowKeeps Kept IsFitting st) ts
    each_row st [] = tt
    each_row st (t ∷ ts) = (λ e s u k q. apply-IsWritable e s u.1 q, each_row st ts)

    -- A batch of events whose values can be written keeps those of the record so.
    pub plan-IsWritable :
        (es : List (Event Cid)) (s : SectorInfo Cid)
        → All IsFitting es
        → IsWritable s
        → IsWritable (plan L es s).0
    plan-IsWritable es s u (o, k, d, p, r, m, n, g, e, l) =
        plan-keeps Kept IsFitting globals rounds L (λ st. each_row st (rows_of st)) es s u
          (o, k, d, p, r, m, n, g, e, log_events-writable 0 es s.log u l)
