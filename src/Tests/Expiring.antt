-- ===== src/Tests/Expiring.antt =====
-- A pre-commit of a sector with a deal, under the basic policy.
use storage_fsm.Base.{ℕ, ◌≡◌, refl, [], ◌∷◌, some, arith, Option, none, subst, Bytes, ok, String}
use storage_fsm.Base.Int.{ℤ, ◌≤ℤ◌, ◌+ℤ◌, ◌-ℤ◌}
use storage_fsm.Base.Int64.{add64, sub64, wrap64}
use storage_fsm.Sector.{SectorState, SectorInfo, DealInfo, zero_sector}
use storage_fsm.Events.{Event}
use storage_fsm.Api.{Sealing}
use storage_fsm.Api.Action.{attempt, bind, pure, when, on_nil, check}
use storage_fsm.Checks.{check_precommit, check_on_chain, ticket_expired}
use storage_fsm.Handlers.Outcome.{sends}
use storage_fsm.Handlers.Precommit.{submit_pre_commit, on_precommit_checked, handle_pre_committing}
use storage_fsm.Handlers.Submitted.{SentFor}
use storage_fsm.Policy.Expiration.{new_basic_pre_commit_policy, expiration}
use storage_fsm.System.Expires.{Expires, submitted_expiration_covers_deals}
use storage_fsm.Entry.{StateGroup}
use storage_fsm.Entry.New.{Library, new}
use storage_fsm.Tests.{answer, unclaimed}

-- Datastores are names.
abbrev lib : Library ℕ ℕ (Unit {0})
lib = record {
  constants = unclaimed.constants;
  cid_equal = unclaimed.cid_equal;
  unpadded = unclaimed.unpadded;
  padded_size = unclaimed.padded_size;
  zero_piece_commitment = unclaimed.zero_piece_commitment;
  seal_proof_type_from_sector_size = unclaimed.seal_proof_type_from_sector_size;
  marshal_address = unclaimed.marshal_address;
  marshal_pre_commit = unclaimed.marshal_pre_commit;
  marshal_prove_commit = unclaimed.marshal_prove_commit;
  id_from_address = unclaimed.id_from_address;
  now = unclaimed.now;
  wait_until = unclaimed.wait_until;
}

-- A group that has only the sector that it was opened with.
abbrev one_sector : String → Sealing ℕ ℕ (Unit {0}) → SectorInfo ℕ → StateGroup ℕ (Unit {0})
one_sector ds m s = record {
  send = λ n e. answer tt;
  list = answer (s ∷ []);
  get = λ n. answer s;
  halt = answer tt;
}

-- `New` with the basic policy: periods of 2880 epochs with the boundary 7, and 500 epochs for a
-- sector with no deal.
abbrev basic : Sealing ℕ ℕ (Unit {0})
unfolding new
basic =
    (new lib (λ ds prefix. prefix) one_sector unclaimed.api unclaimed.chain_at unclaimed.maddr
      "sectors" unclaimed.sealer unclaimed.next_number unclaimed.verify_seal
      (expiration (ℤ.pos 2880)
        (new_basic_pre_commit_policy unclaimed.api.chain_head (ℤ.pos 500) (ℤ.pos 7)))).0

abbrev deal : DealInfo
deal = record {
  deal_id = 9;
  deal_schedule = record { start_epoch = ℤ.pos 200; end_epoch = ℤ.pos 900 };
}

abbrev dealt : SectorInfo ℕ
unfolding zero_sector
dealt = record (zero_sector {Cid = ℕ}) {
  state = SectorState.pre_committing;
  pieces = record { piece = record { size = 2048; piece_cid = 21 }; deal_info = some deal } ∷ [];
  comm_d = some 11;
  comm_r = some 12;
  ticket_epoch = ℤ.pos 40;
}

dealt_sent : (handle_pre_committing basic dealt tt).0 ≡ sends (Event.sector_pre_committed 31)
unfolding basic handle_pre_committing on_precommit_checked submit_pre_commit check_precommit
    check_on_chain ticket_expired expiration dealt attempt bind pure when on_nil check add64 sub64
    wrap64 ◌+ℤ◌ ◌-ℤ◌ new_basic_pre_commit_policy
dealt_sent = refl

at_100 :
    (tok : Bytes) (height : ℤ) → (basic.api.chain_head tt).0 ≡ ok (tok, height) → height ≡ ℤ.pos 100
unfolding basic
at_100 tok height h = ground arith

abbrev EndsBy1000 : Option DealInfo → Type 0
EndsBy1000 o = elim o [ none ↦ Unit | some d ↦ d.deal_schedule.end_epoch ≤ℤ ℤ.pos 1000 ]

submitted_expiration_covers_deals_example :
    (q : SentFor basic dealt 31) × Expires basic 2880 7 500 dealt.pieces q.expiration
unfolding dealt basic
submitted_expiration_covers_deals_example =
    submitted_expiration_covers_deals basic 2880 7 500 (λ ps w. refl) 1000
      (λ v tok height h. (100, at_100 tok height h, omega arith)) (omega arith) (omega arith) dealt
      ((λ d e. subst EndsBy1000 e (ground arith)), tt) tt 31 dealt_sent
