-- ===== src/Fsm/Invariant.antt =====
-- What a stored record holds in each state, as long as no operator forces the state.
use storage_fsm.Base.{◌≡◌, refl, Bool, true, false, not, ◌&&◌, ◌||◌}
use storage_fsm.Base.{List, All, is_some, arith}
use storage_fsm.Sector.{SectorState, SectorInfo, zero_sector}
use storage_fsm.Events.{Event, EventType, type_of, apply, apply_global}
use storage_fsm.Fsm.Table.{committing_round, rows}
use storage_fsm.Fsm.Plan.{Logging, plan, log_events}
use storage_fsm.Fsm.Rules.{Unforced, rows_of, RowKeeps, RoundKeeps, GlobalKeeps, plan-keeps}

-- The states past the second sealing phase: the data and replica commitments are known.
abbrev pub is_sealed : SectorState → Bool
is_sealed SectorState.pre_committing = true
is_sealed SectorState.pre_commit_wait = true
is_sealed SectorState.wait_seed = true
is_sealed SectorState.committing = true
is_sealed SectorState.commit_wait = true
is_sealed SectorState.finalize_sector = true
is_sealed SectorState.proving = true
is_sealed SectorState.pre_commit_failed = true
is_sealed SectorState.compute_proof_failed = true
is_sealed SectorState.commit_failed = true
is_sealed SectorState.finalize_failed = true
is_sealed SectorState.faulty = true
is_sealed SectorState.fault_reported = true
is_sealed SectorState.removing = true
is_sealed SectorState.remove_failed = true
is_sealed SectorState.removed = true
is_sealed _ = false

-- The states past the submission of the proof: the message that carries it is known.
abbrev pub is_committed : SectorState → Bool
is_committed SectorState.commit_wait = true
is_committed SectorState.finalize_sector = true
is_committed SectorState.proving = true
is_committed SectorState.finalize_failed = true
is_committed SectorState.faulty = true
is_committed SectorState.fault_reported = true
is_committed SectorState.removing = true
is_committed SectorState.remove_failed = true
is_committed SectorState.removed = true
is_committed _ = false

-- The states that the table never leads to.
abbrev pub is_unused : SectorState → Bool
is_unused SectorState.empty = true
is_unused SectorState.failed_unrecoverable = true
is_unused SectorState.faulted_final = true
is_unused (SectorState.other name) = true
is_unused _ = false

abbrev pub is_fault_reported : SectorState → Bool
is_fault_reported SectorState.fault_reported = true
is_fault_reported _ = false

pub record HoldsAt {Cid : Type 0} (st : SectorState) (s : SectorInfo Cid) : Type 0 where
  pub used : is_unused st ≡ false
  pub has_comm_d : is_sealed st ≡ true → is_some s.comm_d ≡ true
  pub has_comm_r : is_sealed st ≡ true → is_some s.comm_r ≡ true
  pub has_commit_message : is_committed st ≡ true → is_some s.commit_message ≡ true
  pub has_report : is_fault_reported st ≡ true → is_some s.fault_report_msg ≡ true

abbrev pub Holds : {Cid : Type 0} → SectorInfo Cid → Type 0
Holds s = HoldsAt s.state s

abbrev asks_no_more : SectorState → SectorState → Bool
asks_no_more st next =
    not (is_unused next)
    && (not (is_sealed next) || is_sealed st)
    && (not (is_committed next) || is_committed st)
    && not (is_fault_reported next)

module _ {Cid : Type 0} where
  -- No event forgets a commitment or a message.
  pub apply_remembers :
      (e : Event Cid) (s : SectorInfo Cid)
      → (is_some s.comm_d ≡ true → is_some (apply e s).comm_d ≡ true)
        × (is_some s.comm_r ≡ true → is_some (apply e s).comm_r ≡ true)
        × (is_some s.commit_message ≡ true → is_some (apply e s).commit_message ≡ true)
  unfolding apply
  apply_remembers (Event.sector_pre_commit2 r d) s = (λ h. refl, λ h. refl, λ h. h)
  apply_remembers (Event.sector_committed m p) s = (λ h. h, λ h. h, λ h. refl)
  apply_remembers _ s = (λ h. h, λ h. h, λ h. h)

  -- An event between two states of which the second asks for no more.
  same :
      (st : SectorState) (t : EventType) (next : SectorState)
      → asks_no_more st next ≡ true
      → RowKeeps {Cid = Cid} HoldsAt Unforced st (t, next)
  same st t next a e s u k h = record {
    used = ground arith;
    has_comm_d = λ k. (apply_remembers e s).0 (h.has_comm_d (ground arith));
    has_comm_r = λ k. (apply_remembers e s).1 (h.has_comm_r (ground arith));
    has_commit_message = λ k. (apply_remembers e s).2 (h.has_commit_message (ground arith));
    has_report = λ k. ground arith;
  }

  -- The second sealing phase brings both commitments.
  sealing :
      RowKeeps {Cid = Cid} HoldsAt Unforced SectorState.pre_commit2
        (EventType.pre_commit2_done, SectorState.pre_committing)
  unfolding apply type_of
  sealing (Event.sector_pre_commit2 r d) s u k h = record {
    used = refl;
    has_comm_d = λ k. refl;
    has_comm_r = λ k. refl;
    has_commit_message = λ k. cc;
    has_report = λ k. cc;
  }
  sealing _ s u k h = absurd (ground arith)

  -- A fault report brings its message.
  reporting :
      (st : SectorState)
      → is_committed st && is_sealed st ≡ true
      → RowKeeps {Cid = Cid} HoldsAt Unforced st
          (EventType.fault_reported, SectorState.fault_reported)
  unfolding apply type_of
  reporting st a (Event.sector_fault_reported m) s u k h = record {
    used = refl;
    has_comm_d = λ k. h.has_comm_d (ground arith);
    has_comm_r = λ k. h.has_comm_r (ground arith);
    has_commit_message = λ k. h.has_commit_message (ground arith);
    has_report = λ k. refl;
  }
  reporting st a _ s u k h = absurd (ground arith)

table :
    (Cid : Type 0) (st : SectorState) → All (RowKeeps {Cid = Cid} HoldsAt Unforced st) (rows_of st)
unfolding rows
table Cid SectorState.undefined_sector_state = (same _ _ _ refl, tt)
table Cid SectorState.packing = (same _ _ _ refl, tt)
table Cid SectorState.pre_commit1 = (same _ _ _ refl, (same _ _ _ refl, (same _ _ _ refl, tt)))
table Cid SectorState.pre_commit2 = (sealing, (same _ _ _ refl, (same _ _ _ refl, tt)))
table Cid SectorState.pre_committing =
    (same _ _ _ refl, (same _ _ _ refl, (same _ _ _ refl, (same _ _ _ refl, tt))))
table Cid SectorState.pre_commit_wait = (same _ _ _ refl, (same _ _ _ refl, tt))
table Cid SectorState.wait_seed = (same _ _ _ refl, (same _ _ _ refl, tt))
table Cid SectorState.commit_wait = (same _ _ _ refl, (same _ _ _ refl, tt))
table Cid SectorState.finalize_sector = (same _ _ _ refl, (same _ _ _ refl, tt))
table Cid SectorState.seal_pre_commit1_failed = (same _ _ _ refl, tt)
table Cid SectorState.seal_pre_commit2_failed = (same _ _ _ refl, (same _ _ _ refl, tt))
table Cid SectorState.pre_commit_failed =
    (same _ _ _ refl, (same _ _ _ refl, (same _ _ _ refl, (same _ _ _ refl, tt))))
table Cid SectorState.compute_proof_failed = (same _ _ _ refl, (same _ _ _ refl, tt))
table Cid SectorState.commit_failed = (
  same _ _ _ refl,
  (same _ _ _ refl, (same _ _ _ refl, (same _ _ _ refl, (same _ _ _ refl, tt)))),
)
table Cid SectorState.finalize_failed = (same _ _ _ refl, tt)
table Cid SectorState.proving = (reporting _ refl, (same _ _ _ refl, (same _ _ _ refl, tt)))
table Cid SectorState.removing = (same _ _ _ refl, (same _ _ _ refl, tt))
table Cid SectorState.faulty = (reporting _ refl, tt)
table Cid _ = tt

module _ {Cid : Type 0} where
  -- Only the proof's submission and a newly sent seed have cases of their own in the loop of
  -- `planCommitting`.
  rounds :
      (e : Event Cid) (s : SectorInfo Cid)
      → Unforced e
      → HoldsAt SectorState.committing s
      → Holds s
      → RoundKeeps HoldsAt Unforced (committing_round e s)
  unfolding committing_round apply apply_global
  rounds (Event.sector_committed m p) s u c h = ground arith
  rounds (Event.sector_seed_ready v e) s u c h = ground arith
  rounds Event.sector_restart s u c h = (c, h)
  rounds (Event.sector_force_state st) s u c h = ground arith
  rounds (Event.sector_compute_proof_failed e) s u c h = ground arith
  rounds (Event.sector_seal_pre_commit1_failed e) s u c h = ground arith
  rounds (Event.sector_commit_failed e) s u c h = ground arith
  rounds _ s u c h = h

  globals :
      (e : Event Cid) (s : SectorInfo Cid)
      → Unforced e
      → Holds s
      → GlobalKeeps HoldsAt Unforced (apply_global e s)
  unfolding apply_global
  globals (Event.sector_force_state st) s u h = absurd (ground arith)
  globals Event.sector_restart s u h = h
  globals (Event.sector_fatal_error e) s u h = h
  globals _ s u h = tt

  -- A batch with no forced state keeps what the record holds in its state, whether the batch is
  -- planned or refused.
  pub plan-Holds :
      (L : Logging Cid) (es : List (Event Cid)) (s : SectorInfo Cid)
      → All Unforced es
      → Holds s
      → Holds (plan L es s).0
  plan-Holds L es s u h = plan-keeps HoldsAt Unforced globals rounds L (table Cid) es s u (relog h)
    where
      relog : HoldsAt s.state s → HoldsAt s.state (record s { log = log_events L 0 es s.log })
      relog h = record {
        used = h.used;
        has_comm_d = h.has_comm_d;
        has_comm_r = h.has_comm_r;
        has_commit_message = h.has_commit_message;
        has_report = h.has_report;
      }

  pub zero_sector-Holds : Holds (zero_sector {Cid = Cid})
  unfolding zero_sector
  zero_sector-Holds = ground arith
