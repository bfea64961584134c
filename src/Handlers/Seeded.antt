-- ===== src/Handlers/Seeded.antt =====
-- `handleWaitSeed` and the callback that it registers.
use storage_fsm.Base.{◌≡◌, refl, ap, ◌∙◌, subst, some, Bytes, ok}
use storage_fsm.Base.Int.{ℤ}
use storage_fsm.Base.Int64.{add64}
use storage_fsm.Sector.{SectorInfo}
use storage_fsm.Events.{Event, apply}
use storage_fsm.Api.{Sealing, PreCommitOnChainInfo, Tag, interactive_porep_confidence}
use storage_fsm.Api.Action.{Always, pure-Always, on_nil-Always, attempt-Always, check-Always}
use storage_fsm.Handlers.Outcome.{Step, sends, schedules}
use storage_fsm.Handlers.Commit.{handle_wait_seed, seed_at}

module _ {Cid Address World : Type 0} (m : Sealing Cid Address World) (s : SectorInfo Cid) where
  -- The chain answers this pre-commit for the sector, at the tip set that the record keeps.
  abbrev pub Landed : PreCommitOnChainInfo Cid → Type 0
  Landed pci =
      (w : World) × ((m.api.state_sector_pre_commit_info m.maddr s.sector_number
          s.pre_commit_tip_set w).0
        ≡ ok (some pci))

  -- The value is the chain's randomness for the challenge at the epoch.
  abbrev pub IsSeed : Bytes → Bytes → ℤ → Type 0
  IsSeed tok value epoch =
      (entropy : Bytes) × (m.marshal_address m.maddr ≡ ok entropy)
      × ((w : World) × ((m.api.chain_get_randomness tok Tag.interactive_seal_challenge_seed epoch
              entropy w).0
            ≡ ok value))

  abbrev Scheduled : Step Cid → Type 0
  Scheduled (schedules confidence height) =
      (confidence ≡ interactive_porep_confidence)
      × (pci : PreCommitOnChainInfo Cid) × Landed pci
      × (height ≡ add64 pci.pre_commit_epoch m.constants.pre_commit_challenge_delay)
  Scheduled _ = Unit

  abbrev Seeds : Bytes → ℤ → Step Cid → Type 0
  Seeds tok height (sends (Event.sector_seed_ready value epoch)) =
      (epoch ≡ height) × IsSeed tok value epoch
  Seeds tok height _ = Unit

  handle_wait_seed-Scheduled : Always Scheduled (handle_wait_seed m s)
  unfolding handle_wait_seed
  handle_wait_seed-Scheduled =
      attempt-Always _ (λ e. pure-Always _ tt)
        λ found w f.
          on_nil-Always _ (λ e. pure-Always _ tt)
            λ pci e. pure-Always _ (refl, pci, (w, f ∙ ap ok e), refl)

  seed_at-Seeds : (height : ℤ) (tok : Bytes) → Always (Seeds tok height) (seed_at m height tok)
  unfolding seed_at
  seed_at-Seeds height tok =
      check-Always _ (λ e h. pure-Always _ tt)
        λ entropy a.
          attempt-Always _ (λ e. pure-Always _ tt)
            λ value w r. pure-Always _ (refl, (entropy, a, (w, r)))

  -- If `handleWaitSeed` registers a callback for a height, and the callback, run at that height,
  -- sends `SectorSeedReady`, then after the event the seed epoch of the record is the challenge
  -- epoch of the pre-commit that the chain answered for the sector, and the seed value is the
  -- chain's randomness at that epoch. The confidence is the constant one.
  pub callback_brings_challenge :
      (v w : World) (confidence height : ℤ) (tok value : Bytes) (epoch : ℤ)
      → (handle_wait_seed m s v).0 ≡ schedules confidence height
      → (seed_at m height tok w).0 ≡ sends (Event.sector_seed_ready value epoch)
      → (confidence ≡ interactive_porep_confidence)
        × (pci : PreCommitOnChainInfo Cid) × Landed pci
        × ((apply (Event.sector_seed_ready value epoch) s).seed_epoch
            ≡ add64 pci.pre_commit_epoch m.constants.pre_commit_challenge_delay)
        × IsSeed tok
            (apply (Event.sector_seed_ready value epoch) s).seed_value
            (apply (Event.sector_seed_ready value epoch) s).seed_epoch
  unfolding apply
  callback_brings_challenge v w confidence height tok value epoch scheduled seeded =
      let (at, pci, landed, h) = subst Scheduled scheduled (handle_wait_seed-Scheduled.at v) in
      let (e, seed) = subst (Seeds tok height) seeded ((seed_at-Seeds height tok).at w) in
      (at, pci, landed, e ∙ h, seed)
