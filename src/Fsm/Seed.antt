-- ===== src/Fsm/Seed.antt =====
-- `planCommitting` and the seed of the proof.
use storage_fsm.Base.{◌≡◌, refl, ◌∙◌, Bool, true, false, ◌&&◌, some, List}
use storage_fsm.Base.{[], ◌∷◌, All, bytes_equal, Bytes, arith}
use mathlib.Core.List.{Memᴰ}
use storage_fsm.Base.Int.{eqb_ℤ}
use storage_fsm.Sector.{SectorState, SectorInfo}
use storage_fsm.Events.{Event, apply, apply_global}
use storage_fsm.Fsm.Table.{
  planned, Round, goes_on, returns, resume, committing_round, plan_committing,
}
use storage_fsm.Fsm.Rules.{Unforced}

-- The seed of one record is that of the other.
abbrev pub SameSeed : {Cid : Type 0} → SectorInfo Cid → SectorInfo Cid → Type 0
SameSeed s t = (t.seed_value ≡ s.seed_value) × (t.seed_epoch ≡ s.seed_epoch)

module _ {Cid : Type 0} where
  -- A round that goes on keeps the seed; one that returns in CommitWait keeps it too.
  abbrev RoundKeepsSeed : SectorInfo Cid → Round Cid → Type 0
  RoundKeepsSeed s (goes_on t) = SameSeed s t
  RoundKeepsSeed s (returns t v) = t.state ≡ SectorState.commit_wait → SameSeed s t

  round_seed : (e : Event Cid) (s : SectorInfo Cid) → RoundKeepsSeed s (committing_round e s)
  unfolding committing_round apply apply_global
  round_seed (Event.sector_seed_ready v e) s = ground arith
  round_seed (Event.sector_committed m p) s = (refl, refl)
  round_seed (Event.sector_force_state st) s = ground arith
  round_seed _ s = ground arith

  -- A batch that takes a committing sector to CommitWait leaves the seed that the proof was made
  -- with: a seed that changed within the batch keeps the sector out of CommitWait.
  pub commit_wait_keeps_seed :
      (es : List (Event Cid)) (s : SectorInfo Cid)
      → (plan_committing es s).0.state ≡ SectorState.commit_wait
      → SameSeed s (plan_committing es s).0
  unfolding plan_committing
  commit_wait_keeps_seed [] s h = (refl, refl)
  commit_wait_keeps_seed (e ∷ es) s h =
      by (committing_round e s) (round_seed e s) h (λ t. commit_wait_keeps_seed es t)
    where
      by :
          (r : Round Cid)
          → RoundKeepsSeed s r
          → (resume (plan_committing es) r).0.state ≡ SectorState.commit_wait
          → ((t : SectorInfo Cid)
              → (plan_committing es t).0.state ≡ SectorState.commit_wait
              → SameSeed t (plan_committing es t).0)
          → SameSeed s (resume (plan_committing es) r).0
      by (goes_on t) k h rest = let next = rest t h in (next.0 ∙ k.0, next.1 ∙ k.1)
      by (returns t v) k h rest = k h

  -- The message and the proof of the record are those of an event of the batch.
  abbrev Backed : List (Event Cid) → SectorInfo Cid → Type 0
  Backed all t =
      t.state ≡ SectorState.commit_wait
      → (m : Cid) × (p : Bytes) × Memᴰ (Event.sector_committed m p) all
        × (t.commit_message ≡ some m)
        × (t.proof ≡ p)

  abbrev RoundBacked : List (Event Cid) → Round Cid → Type 0
  RoundBacked all (goes_on t) = Backed all t
  RoundBacked all (returns t v) = Backed all t

  round_backed :
      (all : List (Event Cid)) (e : Event Cid) (s : SectorInfo Cid)
      → Memᴰ e all
      → Unforced e
      → Backed all s
      → RoundBacked all (committing_round e s)
  unfolding committing_round apply apply_global
  round_backed all (Event.sector_committed m p) s i u b = λ h. (m, p, i, refl, refl)
  round_backed all (Event.sector_seed_ready v e) s i u b =
      ready (eqb_ℤ e s.seed_epoch && bytes_equal v s.seed_value)
    where
      ready :
          (same : Bool)
          → RoundBacked all (elim same [
            | true ↦ goes_on s
            | false ↦
                returns
                  (record s { seed_epoch = e; seed_value = v; state = SectorState.committing })
                  planned
          ])
      ready true = b
      ready false = λ h. absurd (ground arith)
  round_backed all Event.sector_restart s i u b = b
  round_backed all (Event.sector_force_state st) s i u b = absurd (ground arith)
  round_backed all (Event.sector_compute_proof_failed e) s i u b = λ h. absurd (ground arith)
  round_backed all (Event.sector_seal_pre_commit1_failed e) s i u b = λ h. absurd (ground arith)
  round_backed all (Event.sector_commit_failed e) s i u b = λ h. absurd (ground arith)
  round_backed all _ s i u b = b

  Backed-from :
      (all es : List (Event Cid)) (s : SectorInfo Cid)
      → ((e : Event Cid) → Memᴰ e es → Memᴰ e all)
      → All Unforced es
      → Backed all s
      → Backed all (plan_committing es s).0
  unfolding plan_committing
  Backed-from all [] s sub u b = b
  Backed-from all (e ∷ es) s sub u b =
      by (committing_round e s) (round_backed all e s (sub e (Memᴰ.head refl)) u.0 b)
        (λ t. Backed-from all es t (λ f i. sub f (Memᴰ.tail i)) u.1)
    where
      by :
          (r : Round Cid)
          → RoundBacked all r
          → ((t : SectorInfo Cid) → Backed all t → Backed all (plan_committing es t).0)
          → Backed all (resume (plan_committing es) r).0
      by (goes_on t) k rest = rest t k
      by (returns t v) k rest = k

  -- A batch with no forced state that takes a committing sector to CommitWait holds a
  -- SectorCommitted event, whose message and proof are those of the record after the batch.
  pub commit_wait_from_committed :
      (es : List (Event Cid)) (s : SectorInfo Cid)
      → s.state ≡ SectorState.committing
      → All Unforced es
      → (plan_committing es s).0.state ≡ SectorState.commit_wait
      → (m : Cid) × (p : Bytes) × Memᴰ (Event.sector_committed m p) es
        × ((plan_committing es s).0.commit_message ≡ some m)
        × ((plan_committing es s).0.proof ≡ p)
  commit_wait_from_committed es s at u =
      Backed-from es es s (λ e i. i) u (λ h. absurd (ground arith))
