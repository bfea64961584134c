-- ===== src/Handlers/Verified.antt =====
-- states_sealing.go `handleCommitting` and the proof that it reports.
use storage_fsm.Base.{◌≡◌, refl, subst, Bytes, ok}
use storage_fsm.Base.Int.{ℤ}
use storage_fsm.Sector.{SectorInfo}
use storage_fsm.Events.{Event}
use storage_fsm.Api.{Sealing, Method}
use storage_fsm.Api.Action.{
  Always, Always-map, pure-Always, bind-Always, on_nil-Always, attempt-Always, check-Always,
}
use storage_fsm.Checks.{Check, passes, rejects, faults, miner_sector}
use storage_fsm.Checks.Commit.{Provable, PassProvable, check_commit-PassProvable}
use storage_fsm.Handlers.Outcome.{Step, sends}
use storage_fsm.Handlers.Commit.{submit_proof, on_commit_checked, handle_committing}

module _ {Cid Address World : Type 0} (m : Sealing Cid Address World) (s : SectorInfo Cid) where
  -- The message carries the number of the sector and the proof.
  pub record ProofSent (message : Cid) (proof : Bytes) : Type 0 where
    pub params : Bytes
    pub encoded :
        m.marshal_prove_commit (record { sector_number = s.sector_number; proof = proof })
        ≡ ok params
    pub worker : Address
    pub collateral : ℤ
    pub sent :
        (w : World) × ((m.api.send_msg worker m.maddr Method.prove_commit_sector collateral
            (ℤ.pos 1)
            (ℤ.pos 1000000)
            params
            w).0
          ≡ ok message)

  -- The proof passes the checks at a head that the chain answered.
  abbrev pub Verified : Bytes → Type 0
  Verified proof =
      (w : World) × (tok : Bytes) × (height : ℤ) × ((m.api.chain_head w).0 ≡ ok (tok, height))
      × Provable m s proof tok

  abbrev Sent : Step Cid → Type 0
  Sent (sends (Event.sector_committed message proof)) = ProofSent message proof
  Sent _ = Unit

  abbrev Committed : Step Cid → Type 0
  Committed (sends (Event.sector_committed message proof)) =
      ProofSent message proof × Verified proof
  Committed _ = Unit

  -- The proof of the step, if it has one, is this one.
  abbrev IsProof : Bytes → Step Cid → Type 0
  IsProof proof (sends (Event.sector_committed message p)) = p ≡ proof
  IsProof proof _ = Unit

  submit_proof-Sent :
      (proof tok : Bytes) → Always (λ r. Sent r × IsProof proof r) (submit_proof m s proof tok)
  unfolding submit_proof
  submit_proof-Sent proof tok =
      check-Always _ (λ e h. pure-Always _ (tt, tt))
        λ params encoded.
          attempt-Always _ (λ e. pure-Always _ (tt, tt))
            λ waddr w e.
              attempt-Always _ (λ e. pure-Always _ (tt, tt))
                λ collateral w e.
                  attempt-Always _ (λ e. pure-Always _ (tt, tt))
                    λ message w sent. pure-Always _ (
                      record {
                        params = params;
                        encoded = encoded;
                        worker = waddr;
                        collateral = collateral;
                        sent = (w, sent);
                      },
                      refl,
                    )

  sent-Committed :
      (proof : Bytes) → Verified proof → (r : Step Cid) → Sent r × IsProof proof r → Committed r
  sent-Committed proof v (sends (Event.sector_committed message p)) (h, e) = (h, rw e v)
  sent-Committed proof v _ h = tt

  on_commit_checked-Committed :
      (w : World) (proof tok : Bytes) (height : ℤ)
      → (m.api.chain_head w).0 ≡ ok (tok, height)
      → (c : Check) → PassProvable m s proof tok c
      → Always Committed (on_commit_checked m s proof tok c)
  unfolding on_commit_checked
  on_commit_checked-Committed w proof tok height at passes v =
      Always-map (sent-Committed proof (w, tok, height, at, v)) (submit_proof-Sent proof tok)
  on_commit_checked-Committed w proof tok height at (rejects e) v = pure-Always _ tt
  on_commit_checked-Committed w proof tok height at faults v = pure-Always _ tt

  -- If `handleCommitting` sends `SectorCommitted`, the message was sent with the number of the
  -- sector and the proof; and at a head that the chain answered, the seed of the record is the
  -- chain's randomness at the challenge epoch of the sector's pre-commit, and the verifier accepted
  -- the proof for the ticket, the seed and the data commitment of the record.
  pub committed_is_Verified :
      (w : World) (message : Cid) (proof : Bytes)
      → (handle_committing m s w).0 ≡ sends (Event.sector_committed message proof)
      → ProofSent message proof × Verified proof
  unfolding handle_committing miner_sector
  committed_is_Verified w message proof h = subst Committed h (committed.at w)
    where
      committed : Always Committed (handle_committing m s)
      committed =
          on_nil-Always _ (λ e. pure-Always _ tt)
            λ comm_d e.
              on_nil-Always _ (λ e. pure-Always _ tt)
                λ comm_r e.
                  check-Always _ (λ e h. pure-Always _ tt)
                    λ mid h.
                      attempt-Always _ (λ e. pure-Always _ tt)
                        λ c2in w e.
                          attempt-Always _ (λ e. pure-Always _ tt)
                            λ proof w e.
                              attempt-Always _ (λ e. pure-Always _ tt)
                                λ head v at. bind-Always _ λ c w e.
                                  on_commit_checked-Committed v proof head.0 head.1 at c (
                                    subst (PassProvable m s proof head.0) e
                                      ((check_commit-PassProvable m s proof head.0).at w))
