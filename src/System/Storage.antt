-- ===== src/System/Storage.antt =====
-- A sector's record and the datastore: what batches of events lead to is written and read back.
pub mod Contents
use storage_fsm.Base.{
  ◌≡◌, ◌≤◌, refl, length, All, List, [], ◌∷◌, ◌++◌, sym, subst, some, Bytes, ok, true, false, arith,
}
use storage_fsm.Sector.{SectorState, SectorInfo, zero_sector}
use storage_fsm.Events.{Event}
use storage_fsm.Fsm.Plan.{Logging, plan}
use storage_fsm.Fsm.Rules.{Unforced}
use storage_fsm.Fsm.Invariant.{is_unused}
use storage_fsm.Cbor.Services.{Cbg}
use storage_fsm.Cbor.Behaves.{Behaves}
use storage_fsm.Cbor.States.{state_text}
use storage_fsm.Cbor.States.Names.{is_constant, constants_named, constants_are_short}
use storage_fsm.Cbor.Storable.{IsStorable}
use storage_fsm.Cbor.Stored.{unmarshal-marshal}
use storage_fsm.Cbor.SectorWrite.{marshal_sector}
use storage_fsm.Cbor.SectorRead.{unmarshal_sector}
use storage_fsm.System.Reach.{Reach, fresh, Reach-Holds}
use Contents.{IsWritable, IsFitting, plan-IsWritable}

used_is_constant : (st : SectorState) → is_unused st ≡ false → is_constant st ≡ true
used_is_constant (SectorState.other name) h = absurd (ground arith)
used_is_constant st h = refl

module _ {Cid World : Type 0} (c : Cbg Cid World) (h : Behaves c) (L : Logging Cid) where
  -- The records of a sector, from its creation, through batches that force no state and whose
  -- values and log entries can be written.
  pub data Grows : SectorInfo Cid → Type 0 where
    created : Grows zero_sector
    grown :
        {s : SectorInfo Cid}
        → Grows s
        → (es : List (Event Cid)) → All (IsFitting c h L) es
        → Grows (plan L es s).0

  all_unforced : (es : List (Event Cid)) → All (IsFitting c h L) es → All Unforced es
  all_unforced [] u = tt
  all_unforced (e ∷ es) u = (u.0.0, all_unforced es u.1)

  Grows-Reach : {s : SectorInfo Cid} → Grows s → Reach L s
  Grows-Reach created = fresh
  Grows-Reach (grown g es u) = Reach.batch (Grows-Reach g) es (all_unforced es u)

  Grows-IsWritable : {s : SectorInfo Cid} → Grows s → IsWritable c h s
  Grows-IsWritable created = unfold zero_sector in ground arith
  Grows-IsWritable (grown {s} g es u) = plan-IsWritable c h L es s u (Grows-IsWritable g)

  -- The lists are all that keeps such a record from being written.
  Grows-IsStorable :
      {s : SectorInfo Cid}
      → Grows s
      → length s.pieces ≤ c.max_length
      → length s.log ≤ c.max_length
      → IsStorable c h s
  Grows-IsStorable {s} g pieces_fit log_fits =
      let constant = used_is_constant s.state (Reach-Holds L (Grows-Reach g)).used in
      let (o, k, d, p, r, m, n, f, e, l) = Grows-IsWritable g in
      record {
        state_named = constants_named s.state constant;
        state_fits = omega (
          arith,
          h.utf8 (state_text s.state),
          constants_are_short s.state constant,
          h.some_length,
        );
        sector_number_fits = o.0;
        sector_type_fits = o.1;
        pieces_fit = pieces_fit;
        pieces_storable = o.2;
        ticket_value_fits = k.1;
        ticket_epoch_fits = k.2;
        pre_commit1_out_fits = k.0;
        comm_d_fits = d.0;
        comm_r_fits = d.1;
        proof_fits = m.1;
        pre_commit_message_fits = p.0;
        pre_commit_tip_set_fits = p.1;
        pre_commit2_fails_fits = n.0;
        seed_value_fits = r.0;
        seed_epoch_fits = r.1;
        commit_message_fits = m.0;
        invalid_proofs_fits = n.1;
        fault_report_msg_fits = f;
        last_err_fits =
            subst (λ t. length (c.bytes_of t) ≤ c.max_length) (sym e)
              (omega (arith, h.utf8 "", h.some_length));
        log_fits = log_fits;
        log_storable = l;
      }

  -- A record that batches lead to from the creation of the sector, with no forced state and with
  -- events whose values and log entries can be written, is written and reads back as it was, as
  -- long as it has no more pieces and log entries than `MaxLength`. The writer takes all that it is
  -- given, and headers, strings, CIDs and piece infos read back as they were written.
  pub grown_record_reads_back :
      {s : SectorInfo Cid}
      → Grows s
      → length s.pieces ≤ c.max_length
      → length s.log ≤ c.max_length
      → (w : World) (rest : Bytes)
      → ((marshal_sector c (some s) w).0 ≡ ok tt)
        × (b : Bytes) × (h.out (marshal_sector c (some s) w).1 ≡ h.out w ++ b)
        × (unmarshal_sector c zero_sector (b ++ rest) ≡ ok (s, rest))
  grown_record_reads_back {s} g pieces_fit log_fits =
      unmarshal-marshal c h s (Grows-IsStorable g pieces_fit log_fits)
