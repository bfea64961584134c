-- ===== src/Tests/Started.antt =====
-- The first seal phase, the pre-commit and a restart under concrete services.
use storage_fsm.Base.{ℕ, ◌≡◌, refl, List, [], ◌∷◌, ◌++◌, Bytes, some, ok, err, errorf, All}
use storage_fsm.Base.{◌==◌, if◌then◌else◌}
use storage_fsm.Base.Int.{ℤ, ◌+ℤ◌, ◌-ℤ◌}
use storage_fsm.Base.Int64.{add64, sub64, wrap64}
use storage_fsm.Sector.{SectorState, SectorInfo, zero_sector}
use storage_fsm.Events.{Event, apply}
use storage_fsm.Api.{PreCommitOnChainInfo, interactive_porep_confidence}
use storage_fsm.Api.Action.{attempt, bind, pure, when, on_nil, check}
use storage_fsm.Checks.{
  miner_sector, check_pieces, check_each, check_proposal, check_precommit, check_on_chain,
  ticket_expired,
}
use storage_fsm.Checks.Pieces.{Fits}
use storage_fsm.Checks.Precommit.{Committable}
use storage_fsm.Handlers.Outcome.{sends, schedules}
use storage_fsm.Handlers.Precommit.{
  get_ticket, replicate_sector, on_pieces_checked, handle_pre_commit1, submit_pre_commit,
  on_precommit_checked, handle_pre_committing,
}
use storage_fsm.Handlers.Replicated.{IsTicket, IsOutput, pre_commit1_is_checked}
use storage_fsm.Handlers.Submitted.{SentFor, pre_committed_is_checked}
use storage_fsm.Handlers.Commit.{handle_wait_seed, seed_at}
use storage_fsm.Handlers.Seeded.{Landed, IsSeed, callback_brings_challenge}
use storage_fsm.Entry.{StateGroup, run}
use storage_fsm.Entry.Restart.{restarts, tracked, run-restarts}
use storage_fsm.Tests.{services_on, services, unclaimed}
use storage_fsm.Tests.Packed.{deal_sector}

ticket_drawn :
    (handle_pre_commit1 services deal_sector tt).0
    ≡ sends (Event.sector_pre_commit1 (41 ∷ []) (9 ∷ []) (ℤ.pos 50))
unfolding handle_pre_commit1 on_pieces_checked replicate_sector get_ticket miner_sector check_pieces
    check_each check_proposal deal_sector attempt bind pure when on_nil check
ticket_drawn = refl

pre_commit1_is_checked_example :
    ((v : Unit {0}) × (tok : Bytes) × (height : ℤ) × ((services.api.chain_head v).0
        ≡ ok (tok, height))
      × All (Fits services tok height) deal_sector.pieces)
    × IsTicket services deal_sector (9 ∷ []) (ℤ.pos 50)
    × IsOutput services deal_sector (9 ∷ []) (41 ∷ [])
pre_commit1_is_checked_example =
    pre_commit1_is_checked services deal_sector tt (41 ∷ []) (9 ∷ []) (ℤ.pos 50) ticket_drawn

unfoldable computed_sector : SectorInfo ℕ
unfolding zero_sector
computed_sector = record (zero_sector {Cid = ℕ}) {
  state = SectorState.pre_committing;
  comm_d = some 11;
  comm_r = some 12;
  ticket_epoch = ℤ.pos 40;
}

message_sent :
    (handle_pre_committing unclaimed computed_sector tt).0 ≡ sends (Event.sector_pre_committed 31)
unfolding handle_pre_committing on_precommit_checked submit_pre_commit check_precommit
    check_on_chain ticket_expired computed_sector attempt bind pure when on_nil check add64 sub64
    wrap64 ◌+ℤ◌ ◌-ℤ◌
message_sent = refl

pre_committed_is_checked_example :
    SentFor unclaimed computed_sector 31
    × (tok : Bytes) × (height : ℤ) × ((v : Unit {0}) × ((unclaimed.api.chain_head v).0
          ≡ ok (tok, height)))
    × Committable unclaimed computed_sector tok height
pre_committed_is_checked_example =
    pre_committed_is_checked unclaimed computed_sector tt 31 message_sent

-- The pre-commit landed at epoch 60, and the challenge comes 10 epochs later.
seed_scheduled : (handle_wait_seed services computed_sector tt).0 ≡ schedules (ℤ.pos 6) (ℤ.pos 70)
unfolding handle_wait_seed attempt bind pure on_nil add64 wrap64 ◌+ℤ◌
seed_scheduled = refl

seed_sent :
    (seed_at services (ℤ.pos 70) [] tt).0 ≡ sends (Event.sector_seed_ready (9 ∷ []) (ℤ.pos 70))
unfolding seed_at attempt bind pure check
seed_sent = refl

callback_brings_challenge_example :
    (ℤ.pos 6 ≡ interactive_porep_confidence)
    × (pci : PreCommitOnChainInfo ℕ) × Landed services computed_sector pci
    × ((apply (Event.sector_seed_ready (9 ∷ []) (ℤ.pos 70)) computed_sector).seed_epoch
        ≡ add64 pci.pre_commit_epoch (ℤ.pos 10))
    × IsSeed services computed_sector []
        (apply (Event.sector_seed_ready (9 ∷ []) (ℤ.pos 70)) computed_sector).seed_value
        (apply (Event.sector_seed_ready (9 ∷ []) (ℤ.pos 70)) computed_sector).seed_epoch
callback_brings_challenge_example =
    callback_brings_challenge services computed_sector tt tt (ℤ.pos 6) (ℤ.pos 70) [] (9 ∷ [])
      (ℤ.pos 70) seed_scheduled seed_sent

abbrev Sent : Type 0
Sent = List (ℕ × Event ℕ)

abbrev two_sectors : List (SectorInfo ℕ)
two_sectors =
    record (zero_sector {Cid = ℕ}) { sector_number = 1 }
    ∷ record (zero_sector {Cid = ℕ}) { sector_number = 2 }
    ∷ []

-- A group that tracks two sectors; it keeps what it is sent, and answers an error for sector 1.
abbrev group : StateGroup ℕ Sent
group = record {
  send = λ n e w. (if n == 1 then err (errorf "stopped") else ok tt, w ++ (n, e) ∷ []);
  list = λ w. (ok two_sectors, w);
  get = λ n w. (ok zero_sector, w);
  halt = λ w. (ok tt, w);
}

run-restarts_example :
    ((run (services_on Sent) group []).0 ≡ ok tt)
    × ((run (services_on Sent) group []).1 ≡ [] ++ restarts (tracked (ok two_sectors)))
run-restarts_example = run-restarts (services_on Sent) group (λ w. w) (λ n e w. refl) (λ w. refl) []
