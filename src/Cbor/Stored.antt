-- ===== src/Cbor/Stored.antt =====
-- A sector's record, written and read back.
use storage_fsm.Base.{refl, ◌≡◌, subst, All, some}
use storage_fsm.Base.{Bytes, List, [], ◌∷◌, ◌++◌, ok, arith}
use storage_fsm.Sector.{SectorInfo, Piece, Log, zero_sector}
use storage_fsm.Cbor.Services.{Cbg}
use storage_fsm.Cbor.Storable.{IsStorable, blank, with_origin, with_seal, with_chain}
use storage_fsm.Cbor.Behaves.{Behaves}
use storage_fsm.Cbor.Rounds.{Round, Emits, then-Emits}
use storage_fsm.Cbor.Rounds.Values.{text-Round, uint-Round, int-Round, bytes-Round, cid-Round}
use storage_fsm.Cbor.Rounds.Structs.{slice-Round, struct-Begun, last-Emits, next-Emits}
use storage_fsm.Cbor.Deals.{IsPiece, IsEntry, piece-Round, entry-Round}
use storage_fsm.Cbor.Deal.{zero_piece, marshal_piece, unmarshal_piece}
use storage_fsm.Cbor.Entries.{zero_log, marshal_log, unmarshal_log}
use storage_fsm.Cbor.Values.{write_field, write_text}
use storage_fsm.Cbor.States.{state_text, state_of}
use storage_fsm.Cbor.SectorWrite.{
  write_origin, write_seal, write_chain, write_outcome, marshal_sector,
}
use storage_fsm.Cbor.SectorRead.{
  origin_field, seal_field, chain_field, outcome_field, unmarshal_sector,
}

module _ {Cid World : Type 0} (c : Cbg Cid World) (h : Behaves c) where
  module _ (s : SectorInfo Cid) where
    each_piece :
        (ps : List (Piece Cid))
        → All (IsPiece c h) ps
        → All
            (λ p. Round c h (marshal_piece c (some p)) (unmarshal_piece c (zero_piece c.undef)) p)
            ps
    each_piece [] a = tt
    each_piece (p ∷ ps) a = (piece-Round c h p a.0, each_piece ps a.1)

    each_entry :
        (ls : List Log)
        → All (IsEntry c h) ls
        → All (λ l. Round c h (marshal_log c (some l)) (unmarshal_log c zero_log) l) ls
    each_entry [] a = tt
    each_entry (l ∷ ls) a = (entry-Round c h l a.0, each_entry ls a.1)

    state_step :
        (q : IsStorable c h s)
        → Emits c h
            (origin_field c)
            1
            (write_field c "State"
              (write_text c "Value in field t.State was too long" (state_text s.state)))
            (blank s)
            (record (blank s) { state = s.state })
    unfolding origin_field zero_sector
    state_step q =
        subst
          (λ st.
            Emits c h (origin_field c) 1
              (write_field c "State"
                (write_text c "Value in field t.State was too long" (state_text s.state)))
              (blank s) (record (blank s) { state = st }))
          q.state_named
          (last-Emits c h (origin_field c) "State" (λ t v. record t { state = state_of v })
            (omega arith) (text-Round c h _ (state_text s.state) q.state_fits) refl)

    origin-Emits :
        IsStorable c h s → Emits c h (origin_field c) 4 (write_origin c s) (blank s) (with_origin s)
    unfolding write_origin origin_field zero_sector
    origin-Emits q = then-Emits c h (origin_field c) (state_step q) (
        next-Emits c h (origin_field c) "SectorNumber" (λ t v. record t { sector_number = v })
          (omega arith) (uint-Round c h s.sector_number q.sector_number_fits) refl
          (next-Emits c h (origin_field c) "SectorType" (λ t v. record t { sector_type = v })
            (omega arith) (int-Round c h s.sector_type q.sector_type_fits) refl
            (last-Emits c h (origin_field c) "Pieces" (λ t v. record t { pieces = v }) (omega arith)
              (slice-Round c h _ _ _ _ s.pieces q.pieces_fit
                (each_piece s.pieces q.pieces_storable))
              refl)))

    seal-Emits :
        IsStorable c h s
        → Emits c h (origin_field c) 6 (write_seal c s) (with_origin s) (with_seal s)
    unfolding write_seal origin_field seal_field zero_sector
    seal-Emits q =
        next-Emits c h (origin_field c) "TicketValue" (λ t v. record t { ticket_value = v })
          (omega arith) (bytes-Round c h _ _ s.ticket_value q.ticket_value_fits) refl
          (next-Emits c h (origin_field c) "TicketEpoch" (λ t v. record t { ticket_epoch = v })
            (omega arith) (int-Round c h s.ticket_epoch q.ticket_epoch_fits) refl
            (next-Emits c h (origin_field c) "PreCommit1Out"
              (λ t v. record t { pre_commit1_out = v }) (omega arith)
              (bytes-Round c h _ _ s.pre_commit1_out q.pre_commit1_out_fits) refl
              (next-Emits c h (origin_field c) "CommD" (λ t v. record t { comm_d = v })
                (omega arith) (cid-Round c h _ _ s.comm_d q.comm_d_fits) refl
                (next-Emits c h (origin_field c) "CommR" (λ t v. record t { comm_r = v })
                  (omega arith) (cid-Round c h _ _ s.comm_r q.comm_r_fits) refl
                  (last-Emits c h (origin_field c) "Proof" (λ t v. record t { proof = v })
                    (omega arith) (bytes-Round c h _ _ s.proof q.proof_fits) refl)))))

    chain-Emits :
        IsStorable c h s
        → Emits c h (origin_field c) 5 (write_chain c s) (with_seal s) (with_chain s)
    unfolding write_chain origin_field seal_field chain_field zero_sector
    chain-Emits q =
        next-Emits c h (origin_field c) "PreCommitMessage"
          (λ t v. record t { pre_commit_message = v }) (omega arith)
          (cid-Round c h _ _ s.pre_commit_message q.pre_commit_message_fits) refl
          (next-Emits c h (origin_field c) "PreCommitTipSet"
            (λ t v. record t { pre_commit_tip_set = v }) (omega arith)
            (bytes-Round c h _ _ s.pre_commit_tip_set q.pre_commit_tip_set_fits) refl
            (next-Emits c h (origin_field c) "PreCommit2Fails"
              (λ t v. record t { pre_commit2_fails = v }) (omega arith)
              (uint-Round c h s.pre_commit2_fails q.pre_commit2_fails_fits) refl
              (next-Emits c h (origin_field c) "SeedValue" (λ t v. record t { seed_value = v })
                (omega arith) (bytes-Round c h _ _ s.seed_value q.seed_value_fits) refl
                (last-Emits c h (origin_field c) "SeedEpoch" (λ t v. record t { seed_epoch = v })
                  (omega arith) (int-Round c h s.seed_epoch q.seed_epoch_fits) refl))))

    outcome-Emits :
        IsStorable c h s → Emits c h (origin_field c) 5 (write_outcome c s) (with_chain s) s
    unfolding write_outcome origin_field seal_field chain_field outcome_field zero_sector
    outcome-Emits q =
        next-Emits c h (origin_field c) "CommitMessage" (λ t v. record t { commit_message = v })
          (omega arith) (cid-Round c h _ _ s.commit_message q.commit_message_fits) refl
          (next-Emits c h (origin_field c) "InvalidProofs" (λ t v. record t { invalid_proofs = v })
            (omega arith) (uint-Round c h s.invalid_proofs q.invalid_proofs_fits) refl
            (next-Emits c h (origin_field c) "FaultReportMsg"
              (λ t v. record t { fault_report_msg = v }) (omega arith)
              (cid-Round c h _ _ s.fault_report_msg q.fault_report_msg_fits) refl
              (next-Emits c h (origin_field c) "LastErr" (λ t v. record t { last_err = v })
                (omega arith) (text-Round c h _ s.last_err q.last_err_fits) refl
                (last-Emits c h (origin_field c) "Log" (λ t v. record t { log = v }) (omega arith)
                  (slice-Round c h _ _ _ _ s.log q.log_fits (each_entry s.log q.log_storable))
                  refl))))

    sector-Round :
        IsStorable c h s → Round c h (marshal_sector c (some s)) (unmarshal_sector c zero_sector) s
    unfolding marshal_sector unmarshal_sector zero_sector
    sector-Round q =
        (struct-Begun c h _ (origin_field c) 20 {s = blank s} (omega arith) (
          then-Emits c h (origin_field c) (origin-Emits q) (
            then-Emits c h (origin_field c) (seal-Emits q)
              (then-Emits c h (origin_field c) (chain-Emits q) (outcome-Emits q))))).round

    -- `MarshalCBOR` of a storable record succeeds, and `UnmarshalCBOR` into a zero value reads what
    -- was written back as that record, with whatever follows left over. The writer takes all that it
    -- is given, and headers, strings, CIDs and piece infos read back as they were written.
    pub unmarshal-marshal :
        IsStorable c h s
        → (w : World) (rest : Bytes)
        → ((marshal_sector c (some s) w).0 ≡ ok tt)
          × (b : Bytes) × (h.out (marshal_sector c (some s) w).1 ≡ h.out w ++ b)
          × (unmarshal_sector c zero_sector (b ++ rest) ≡ ok (s, rest))
    unmarshal-marshal q w rest =
        let r = sector-Round q in ((r.appends.at w).0, r.bytes, (r.appends.at w).1, r.reads.at rest)
