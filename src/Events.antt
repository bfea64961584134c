-- ===== src/Events.antt =====
-- fsm_events.go: the events of a sector, what each changes in the record, and which of them apply
-- in every state. The `error` that an event embeds is an `Error`.
use storage_fsm.Base.{ℕ, ◌+◌, ◌%◌, ◌^◌, Bool, true, false, Option, none, some, List, map, ◌++◌}
use storage_fsm.Base.{Bytes, Error}
use storage_fsm.Base.Int.{ℤ}
use storage_fsm.Sector.{SectorState, Piece, PieceInfo, SectorInfo}

pub data Event (Cid : Type 0) : Type 0 where
  sector_restart : Event Cid
  sector_fatal_error : Error → Event Cid
  sector_force_state : SectorState → Event Cid
  -- identifier, seal-proof type, pieces
  sector_start : ℕ → ℤ → List (Piece Cid) → Event Cid
  sector_packed : List (PieceInfo Cid) → Event Cid
  sector_packing_failed : Error → Event Cid
  -- output of the first seal phase, ticket value, ticket epoch
  sector_pre_commit1 : Bytes → Bytes → ℤ → Event Cid
  -- sealed, unsealed
  sector_pre_commit2 : Cid → Cid → Event Cid
  sector_pre_commit_landed : Bytes → Event Cid
  sector_seal_pre_commit1_failed : Error → Event Cid
  sector_seal_pre_commit2_failed : Error → Event Cid
  sector_chain_pre_commit_failed : Error → Event Cid
  sector_pre_committed : Cid → Event Cid
  -- seed value, seed epoch
  sector_seed_ready : Bytes → ℤ → Event Cid
  sector_compute_proof_failed : Error → Event Cid
  sector_commit_failed : Error → Event Cid
  -- message, proof
  sector_committed : Cid → Bytes → Event Cid
  sector_proving : Event Cid
  sector_finalized : Event Cid
  sector_retry_finalize : Event Cid
  sector_finalize_failed : Error → Event Cid
  sector_retry_seal_pre_commit1 : Event Cid
  sector_retry_seal_pre_commit2 : Event Cid
  sector_retry_pre_commit : Event Cid
  sector_retry_wait_seed : Event Cid
  sector_retry_pre_commit_wait : Event Cid
  sector_retry_compute_proof : Event Cid
  sector_retry_invalid_proof : Event Cid
  sector_faulty : Event Cid
  sector_fault_reported : Cid → Event Cid
  sector_faulted_final : Event Cid
  sector_remove : Event Cid
  sector_removed : Event Cid
  sector_remove_failed : Error → Event Cid

-- The dynamic types of the events, as `reflect.TypeOf` tells them apart.
pub data EventType : Type 0 where
  restart fatal_error force_state start packed packing_failed pre_commit1_done : EventType
  pre_commit2_done pre_commit_landed seal1_failed seal2_failed chain_pre_commit_failed : EventType
  pre_committed seed_ready proof_failed commit_failed committed proving : EventType
  finalized retry_finalize finalize_failed retry_seal1 retry_seal2 : EventType
  retry_pre_commit retry_wait_seed retry_pre_commit_wait retry_compute_proof : EventType
  retry_invalid_proof faulty fault_reported faulted_final remove removed remove_failed : EventType

module _ {Cid : Type 0} where
  unfoldable pub type_of : Event Cid → EventType
  type_of sector_restart = EventType.restart
  type_of (sector_fatal_error e) = EventType.fatal_error
  type_of (sector_force_state s) = EventType.force_state
  type_of (sector_start n t ps) = EventType.start
  type_of (sector_packed ps) = EventType.packed
  type_of (sector_packing_failed e) = EventType.packing_failed
  type_of (sector_pre_commit1 o v t) = EventType.pre_commit1_done
  type_of (sector_pre_commit2 r d) = EventType.pre_commit2_done
  type_of (sector_pre_commit_landed t) = EventType.pre_commit_landed
  type_of (sector_seal_pre_commit1_failed e) = EventType.seal1_failed
  type_of (sector_seal_pre_commit2_failed e) = EventType.seal2_failed
  type_of (sector_chain_pre_commit_failed e) = EventType.chain_pre_commit_failed
  type_of (sector_pre_committed m) = EventType.pre_committed
  type_of (sector_seed_ready v e) = EventType.seed_ready
  type_of (sector_compute_proof_failed e) = EventType.proof_failed
  type_of (sector_commit_failed e) = EventType.commit_failed
  type_of (sector_committed m p) = EventType.committed
  type_of sector_proving = EventType.proving
  type_of sector_finalized = EventType.finalized
  type_of sector_retry_finalize = EventType.retry_finalize
  type_of (sector_finalize_failed e) = EventType.finalize_failed
  type_of sector_retry_seal_pre_commit1 = EventType.retry_seal1
  type_of sector_retry_seal_pre_commit2 = EventType.retry_seal2
  type_of sector_retry_pre_commit = EventType.retry_pre_commit
  type_of sector_retry_wait_seed = EventType.retry_wait_seed
  type_of sector_retry_pre_commit_wait = EventType.retry_pre_commit_wait
  type_of sector_retry_compute_proof = EventType.retry_compute_proof
  type_of sector_retry_invalid_proof = EventType.retry_invalid_proof
  type_of sector_faulty = EventType.faulty
  type_of (sector_fault_reported m) = EventType.fault_reported
  type_of sector_faulted_final = EventType.faulted_final
  type_of sector_remove = EventType.remove
  type_of sector_removed = EventType.removed
  type_of (sector_remove_failed e) = EventType.remove_failed

  -- `apply` of a `mutator`. The events with no such method leave the record here; whether an event
  -- is a mutator is told by `is_mutator`.
  unfoldable pub apply : Event Cid → SectorInfo Cid → SectorInfo Cid
  apply (sector_start id sector_type pieces) s = record s {
    sector_number = id;
    pieces = pieces;
    sector_type = sector_type;
  }
  apply (sector_packed filler_pieces) s = record s {
    pieces = s.pieces ++ map (λ p. record { piece = p; deal_info = none }) filler_pieces;
  }
  apply (sector_pre_commit1 out value epoch) s = record s {
    pre_commit1_out = out;
    ticket_epoch = epoch;
    ticket_value = value;
    pre_commit2_fails = 0;
  }
  apply (sector_pre_commit2 sealed unsealed) s = record s {
    comm_d = some unsealed;
    comm_r = some sealed;
  }
  apply (sector_pre_commit_landed tip_set) s = record s { pre_commit_tip_set = tip_set }
  apply (sector_seal_pre_commit1_failed e) s = record s {
    invalid_proofs = 0;
    pre_commit2_fails = 0;
  }
  apply (sector_seal_pre_commit2_failed e) s = record s {
    invalid_proofs = 0;
    pre_commit2_fails = (s.pre_commit2_fails + 1) % 2 ^ 64;
  }
  apply (sector_pre_committed message) s = record s { pre_commit_message = some message }
  apply (sector_seed_ready value epoch) s = record s { seed_epoch = epoch; seed_value = value }
  apply (sector_committed message proof) s = record s {
    proof = proof;
    commit_message = some message;
  }
  apply sector_retry_compute_proof s = record s { invalid_proofs = (s.invalid_proofs + 1) % 2 ^ 64 }
  apply sector_retry_invalid_proof s = record s { invalid_proofs = (s.invalid_proofs + 1) % 2 ^ 64 }
  apply (sector_fault_reported message) s = record s { fault_report_msg = some message }
  apply _ s = s

  -- Which events have the method `apply`.
  unfoldable pub is_mutator : Event Cid → Bool
  is_mutator sector_restart = false
  is_mutator (sector_fatal_error e) = false
  is_mutator (sector_force_state st) = false
  is_mutator sector_faulted_final = false
  is_mutator _ = true

  -- `applyGlobal` of a `globalMutator`: the new record, and whether to stop. `none` for the events
  -- that have no such method.
  unfoldable pub apply_global : Event Cid → SectorInfo Cid → Option (SectorInfo Cid × Bool)
  apply_global sector_restart s = some (s, false)
  apply_global (sector_fatal_error e) s = some (s, true)
  apply_global (sector_force_state st) s = some (record s { state = st }, true)
  apply_global _ s = none

  -- Which events have a `FormatError` method, and so are logged with a trace.
  unfoldable pub is_formatter : Event Cid → Bool
  is_formatter (sector_fatal_error e) = true
  is_formatter (sector_seal_pre_commit1_failed e) = true
  is_formatter (sector_seal_pre_commit2_failed e) = true
  is_formatter (sector_chain_pre_commit_failed e) = true
  is_formatter (sector_compute_proof_failed e) = true
  is_formatter (sector_commit_failed e) = true
  is_formatter (sector_finalize_failed e) = true
  is_formatter (sector_remove_failed e) = true
  is_formatter _ = false
