-- ===== src/Handlers/Safety/Sealing.antt =====
-- states_sealing.go and states_proving.go: the steps of the handlers in their states.
use storage_fsm.Base.{ℕ, ◌≡◌, refl, true, Bytes, is_some, ok}
use storage_fsm.Base.{arith, subst, List, [], ◌∷◌}
use storage_fsm.Base.Int.{ℤ}
use storage_fsm.Sector.{SectorState, SectorInfo, Piece}
use storage_fsm.Api.{Sealing}
use storage_fsm.Api.Action.{
  Always, pure-Always, when-Always, bind-Always, on_nil-Always, attempt-Always, check-Always,
}
use storage_fsm.Checks.{
  Check, passes, rejects, faults, err_api, err_invalid_deals, err_expired_deals, err_bad_comm_d,
  err_expired_ticket, err_bad_ticket, err_precommit_on_chain, check_pieces, check_each,
}
use storage_fsm.Handlers.Packing.{handle_packing}
use storage_fsm.Handlers.Precommit.{
  replicate_sector, on_pieces_checked, handle_pre_commit1, handle_pre_commit2, submit_pre_commit,
  on_precommit_checked, handle_pre_committing, handle_pre_commit_wait,
}
use storage_fsm.Handlers.Commit.{
  handle_wait_seed, seed_at, submit_proof, on_commit_checked, handle_committing, handle_commit_wait,
  handle_finalize_sector,
}
use storage_fsm.Handlers.Proving.{handle_removing}
use storage_fsm.Handlers.Safety.Basics.{
  Good, NoFault, miner_sector-Always, check_precommit-NoFault, check_commit-NoFault,
}

module _ {Cid Address World : Type 0} (m : Sealing Cid Address World) (s : SectorInfo Cid) where
  pub pre_commit_wait-Good : Always (Good SectorState.pre_commit_wait) (handle_pre_commit_wait m s)
  unfolding handle_pre_commit_wait Good
  pre_commit_wait-Good =
      on_nil-Always _ (λ e. pure-Always _ refl)
        λ message e.
          attempt-Always _ (λ e. pure-Always _ refl)
            λ mw w e. when-Always _ (λ b. pure-Always _ refl) (λ b. pure-Always _ refl)

  pub wait_seed-Good : Always (Good SectorState.wait_seed) (handle_wait_seed m s)
  unfolding handle_wait_seed Good
  wait_seed-Good =
      attempt-Always _ (λ e. pure-Always _ tt)
        λ found w e. on_nil-Always _ (λ e. pure-Always _ refl) λ pci e. pure-Always _ tt

  -- So is the callback that the wait for the seed registers.
  pub seed_at-Good :
      (height : ℤ) (tok : Bytes) → Always (Good SectorState.wait_seed) (seed_at m height tok)
  unfolding seed_at Good
  seed_at-Good height tok =
      check-Always _ (λ e h. pure-Always _ tt)
        λ entropy h. attempt-Always _ (λ e. pure-Always _ refl) λ rand w e. pure-Always _ refl

  pub commit_wait-Good : Always (Good SectorState.commit_wait) (handle_commit_wait m s)
  unfolding handle_commit_wait Good
  commit_wait-Good =
      on_nil-Always _ (λ e. pure-Always _ refl)
        λ message e.
          attempt-Always _ (λ e. pure-Always _ refl)
            λ mw w e.
              when-Always _ (λ b. pure-Always _ refl)
                λ b. attempt-Always _ (λ e. pure-Always _ refl) λ f w e. pure-Always _ refl

  check_each-NoFault :
      (tok : Bytes) (height : ℤ) (ps : List (Piece Cid))
      → Always NoFault (check_each m tok height ps)
  unfolding check_each
  check_each-NoFault tok height [] = pure-Always _ tt
  check_each-NoFault tok height (p ∷ ps) =
      on_nil-Always _
        (λ e. when-Always _ (λ b. pure-Always _ tt) (λ b. check_each-NoFault tok height ps))
        λ d e.
          attempt-Always _ (λ e. pure-Always _ tt)
            λ proposal w e.
              when-Always _ (λ b. pure-Always _ tt)
                λ b.
                  when-Always _ (λ b. pure-Always _ tt)
                    λ b.
                      when-Always _ (λ b. pure-Always _ tt) (λ b. check_each-NoFault tok height ps)

  check_pieces-NoFault : Always NoFault (check_pieces m s)
  unfolding check_pieces
  check_pieces-NoFault =
      attempt-Always _ (λ e. pure-Always _ tt) λ head w e. check_each-NoFault head.0 head.1 s.pieces

  module _ (mid : ℕ) (has_id : m.id_from_address m.maddr ≡ ok mid) where
    pub packing-Good : Always (Good SectorState.packing) (handle_packing m s)
    unfolding handle_packing Good
    packing-Good =
        when-Always _ (λ b. pure-Always _ tt)
          λ b.
            miner_sector-Always m mid has_id _ _
              λ id. attempt-Always _ (λ e. pure-Always _ tt) λ ps w e. pure-Always _ refl

    replicate_sector-Good : Always (Good SectorState.pre_commit1) (replicate_sector m s)
    unfolding replicate_sector Good
    replicate_sector-Good =
        attempt-Always _ (λ e. pure-Always _ refl)
          λ ticket w e.
            miner_sector-Always m mid has_id _ _
              λ id. attempt-Always _ (λ e. pure-Always _ refl) λ out w e. pure-Always _ refl

    on_pieces_checked-Good :
        (c : Check) → NoFault c → Always (Good SectorState.pre_commit1) (on_pieces_checked m s c)
    unfolding on_pieces_checked Good
    on_pieces_checked-Good passes n = replicate_sector-Good
    on_pieces_checked-Good (rejects (err_api e)) n = pure-Always _ tt
    on_pieces_checked-Good (rejects (err_invalid_deals e)) n = pure-Always _ refl
    on_pieces_checked-Good (rejects (err_expired_deals e)) n = pure-Always _ refl
    on_pieces_checked-Good (rejects _) n = pure-Always _ tt
    on_pieces_checked-Good faults n = absurd n

    pub pre_commit1-Good : Always (Good SectorState.pre_commit1) (handle_pre_commit1 m s)
    unfolding handle_pre_commit1
    pre_commit1-Good =
        bind-Always _
          λ c w e. on_pieces_checked-Good c (subst NoFault e (check_pieces-NoFault.at w))

    pub pre_commit2-Good : Always (Good SectorState.pre_commit2) (handle_pre_commit2 m s)
    unfolding handle_pre_commit2 Good
    pre_commit2-Good =
        miner_sector-Always m mid has_id _ _
          λ id. attempt-Always _ (λ e. pure-Always _ refl) λ cids w e. pure-Always _ refl

    pub finalize_sector-Good :
        Always (Good SectorState.finalize_sector) (handle_finalize_sector m s)
    unfolding handle_finalize_sector Good
    finalize_sector-Good =
        miner_sector-Always m mid has_id _ _
          λ id. attempt-Always _ (λ e. pure-Always _ refl) λ done w e. pure-Always _ refl

    pub removing-Good : Always (Good SectorState.removing) (handle_removing m s)
    unfolding handle_removing Good
    removing-Good =
        miner_sector-Always m mid has_id _ _
          λ id. attempt-Always _ (λ e. pure-Always _ refl) λ done w e. pure-Always _ refl

    submit_proof-Good :
        (proof tok : Bytes) → Always (Good SectorState.committing) (submit_proof m s proof tok)
    unfolding submit_proof Good
    submit_proof-Good proof tok =
        check-Always _ (λ e h. pure-Always _ refl)
          λ enc h.
            attempt-Always _ (λ e. pure-Always _ tt)
              λ waddr w e.
                attempt-Always _ (λ e. pure-Always _ tt)
                  λ c w e. attempt-Always _ (λ e. pure-Always _ refl) λ id w e. pure-Always _ refl

    on_commit_checked-Good :
        (proof tok : Bytes) (c : Check)
        → NoFault c
        → Always (Good SectorState.committing) (on_commit_checked m s proof tok c)
    unfolding on_commit_checked Good
    on_commit_checked-Good proof tok passes n = submit_proof-Good proof tok
    on_commit_checked-Good proof tok (rejects e) n = pure-Always _ refl
    on_commit_checked-Good proof tok faults n = absurd n

  submit_pre_commit-Good :
      (waddr : Address)
      → is_some s.comm_r ≡ true
      → Always (Good SectorState.pre_committing) (submit_pre_commit m s waddr)
  unfolding submit_pre_commit Good
  submit_pre_commit-Good waddr r =
      attempt-Always _ (λ e. pure-Always _ refl)
        λ expiration w e.
          on_nil-Always _ (λ e. absurd (ground arith))
            λ comm_r e.
              check-Always _ (λ e h. pure-Always _ refl)
                λ enc h. attempt-Always _ (λ e. pure-Always _ refl) λ id w e. pure-Always _ refl

  module _ (d : is_some s.comm_d ≡ true) (r : is_some s.comm_r ≡ true) where
    on_precommit_checked-Good :
        (tok : Bytes) (waddr : Address) (c : Check)
        → NoFault c
        → Always (Good SectorState.pre_committing) (on_precommit_checked m s tok waddr c)
    unfolding on_precommit_checked Good
    on_precommit_checked-Good tok waddr passes n = submit_pre_commit-Good waddr r
    on_precommit_checked-Good tok waddr (rejects (err_api e)) n = pure-Always _ tt
    on_precommit_checked-Good tok waddr (rejects (err_bad_comm_d e)) n = pure-Always _ refl
    on_precommit_checked-Good tok waddr (rejects (err_expired_ticket e)) n = pure-Always _ refl
    on_precommit_checked-Good tok waddr (rejects err_bad_ticket) n = pure-Always _ refl
    on_precommit_checked-Good tok waddr (rejects err_precommit_on_chain) n = pure-Always _ refl
    on_precommit_checked-Good tok waddr (rejects _) n = pure-Always _ tt
    on_precommit_checked-Good tok waddr faults n = absurd n

    pub pre_committing-Good : Always (Good SectorState.pre_committing) (handle_pre_committing m s)
    unfolding handle_pre_committing
    pre_committing-Good =
        attempt-Always _ (λ e. pure-Always _ (unfold Good in tt))
          λ head w e.
            attempt-Always _ (λ e. pure-Always _ (unfold Good in tt))
              λ waddr w e. bind-Always _ λ c w e.
                on_precommit_checked-Good head.0 waddr c
                  (subst NoFault e ((check_precommit-NoFault m s head.0 head.1 d).at w))

    pub committing-Good :
        (mid : ℕ)
        → m.id_from_address m.maddr ≡ ok mid
        → Always (Good SectorState.committing) (handle_committing m s)
    unfolding handle_committing
    committing-Good mid has_id =
        on_nil-Always _ (λ e. absurd (ground arith))
          λ comm_d e.
            on_nil-Always _ (λ e. absurd (ground arith))
              λ comm_r e. miner_sector-Always m mid has_id _ _ λ id.
                attempt-Always _ (λ e. pure-Always _ (unfold Good in refl))
                  λ c2in w e.
                    attempt-Always _ (λ e. pure-Always _ (unfold Good in refl))
                      λ proof w e.
                        attempt-Always _ (λ e. pure-Always _ (unfold Good in tt))
                          λ head w e. bind-Always _ λ c w e.
                            on_commit_checked-Good mid has_id proof head.0 c (
                              subst NoFault e
                                ((check_commit-NoFault m mid has_id s proof head.0 d r).at w))
