-- ===== src/Handlers/Safety/Basics.antt =====
-- What is asked of a handler's step in a state, and how the services' answers are taken apart.
use storage_fsm.Base.{ℕ, ◌≡◌, refl, sym, ◌∙◌, true, false, ◌&&◌, none, List, [], ◌∷◌}
use storage_fsm.Base.{is_nil, is_some, ok, err, Error, arith, Bytes}
use storage_fsm.Base.Int.{ℤ}
use storage_fsm.Sector.{SectorState, SectorInfo, Log}
use storage_fsm.Events.{type_of, is_mutator}
use storage_fsm.Fsm.Table.{EventType-discrete, rows}
use storage_fsm.Fsm.Accepts.{plans}
use storage_fsm.Api.{Sealing, SectorId, PreCommitOnChainInfo}
use storage_fsm.Api.Action.{
  Act, Always, pure-Always, when-Always, bind-Always, on_nil-Always, check-Always, attempt-Always,
}
use storage_fsm.Checks.{
  Check, rejects, passes, faults, miner_sector, check_precommit, check_commit, check_proof,
}
use storage_fsm.Handlers.Outcome.{Step, sends, idles, fails, schedules, panics}
use storage_fsm.Handlers.Failed.{last_entry, failed_cooldown}

-- The step is no panic, and what it sends is planned in the state.
unfoldable pub Good : {Cid : Type 0} → SectorState → Step Cid → Type 0
unfolding is_mutator type_of rows EventType-discrete
Good st (sends e) = (is_mutator e && plans st (type_of e)) ≡ true
Good st idles = Unit
Good st (fails e) = Unit
Good st (schedules c h) = Unit
Good st panics = ⊥

last_entry-ne-none : (log : List Log) → is_nil log ≡ false → last_entry log ≡ none → ⊥
unfolding last_entry
last_entry-ne-none [] h e = cc
last_entry-ne-none (l ∷ []) h e = cc
last_entry-ne-none (l ∷ k ∷ ls) h e = last_entry-ne-none (k ∷ ls) refl e

ok-ne-err : {A : Type 0} (a : A) (e : Error) → ok a ≡ err e → ⊥
ok-ne-err a e h = cc

abbrev pub NoFault : Check → Type 0
NoFault passes = Unit
NoFault (rejects e) = Unit
NoFault faults = ⊥

module _ {Cid Address World : Type 0} (m : Sealing Cid Address World) where
  -- After a cooldown that ends, the handler goes on.
  pub failed_cooldown-Always :
      {P : Step Cid → Type 0} (s : SectorInfo Cid) {k : Act World (Step Cid)}
      → is_nil s.log ≡ false
      → ((e : Error) → P (fails e))
      → Always P k
      → Always P (failed_cooldown m s k)
  unfolding failed_cooldown
  failed_cooldown-Always s logged stop go =
      on_nil-Always _ (λ e. absurd (last_entry-ne-none s.log logged e))
        λ l found. bind-Always _ λ now w e.
          when-Always _ (λ b. go)
            λ b. attempt-Always _ (λ e. pure-Always (fails e) (stop e)) λ a w e. go

  module _ (mid : ℕ) (has_id : m.id_from_address m.maddr ≡ ok mid) where
    pub miner_sector-Always :
        {B : Type 0} {P : B → Type 0} (num : ℕ) (absent : Act World B) {k : SectorId → Act World B}
        → ((id : SectorId) → Always P (k id))
        → Always P (miner_sector m num absent k)
    unfolding miner_sector
    miner_sector-Always num absent go =
        check-Always _ (λ e h. absurd (ok-ne-err mid e (sym has_id ∙ h))) λ mid h. go _

  -- The checks read no nil pointer of a record that has its commitments.
  pub check_precommit-NoFault :
      (s : SectorInfo Cid) (tok : Bytes) (height : ℤ)
      → is_some s.comm_d ≡ true
      → Always NoFault (check_precommit m s tok height)
  unfolding check_precommit
  check_precommit-NoFault s tok height d =
      attempt-Always _ (λ e. pure-Always _ tt)
        λ c w e.
          on_nil-Always _ (λ e. absurd (ground arith))
            λ comm_d e.
              when-Always _ (λ b. pure-Always _ tt)
                λ b.
                  when-Always _ (λ b. pure-Always _ tt)
                    λ b.
                      attempt-Always _ (λ e. pure-Always _ tt)
                        λ pci w e.
                          on_nil-Always _ (λ e. pure-Always _ tt)
                            λ info e. when-Always _ (λ b. pure-Always _ tt) λ b. pure-Always _ tt

  module _ (mid : ℕ) (has_id : m.id_from_address m.maddr ≡ ok mid) where
    check_proof-NoFault :
        (s : SectorInfo Cid) (proof tok : Bytes) (pci : PreCommitOnChainInfo Cid) (seed : Bytes)
        → is_some s.comm_d ≡ true
        → is_some s.comm_r ≡ true
        → Always NoFault (check_proof m s proof tok pci seed)
    unfolding check_proof
    check_proof-NoFault s proof tok pci seed d r =
        when-Always _ (λ b. pure-Always _ tt)
          λ b.
            attempt-Always _ (λ e. pure-Always _ tt)
              λ ss w e.
                check-Always _ (λ e h. pure-Always _ tt)
                  λ spt h.
                    on_nil-Always _ (λ e. absurd (ground arith))
                      λ comm_r e.
                        on_nil-Always _ (λ e. absurd (ground arith))
                          λ comm_d e. miner_sector-Always mid has_id _ _ λ id.
                            attempt-Always _ (λ e. pure-Always _ tt)
                              λ valid w e.
                                when-Always _ (λ b. pure-Always _ tt) λ b. pure-Always _ tt

    pub check_commit-NoFault :
        (s : SectorInfo Cid) (proof tok : Bytes)
        → is_some s.comm_d ≡ true
        → is_some s.comm_r ≡ true
        → Always NoFault (check_commit m s proof tok)
    unfolding check_commit
    check_commit-NoFault s proof tok d r =
        when-Always _ (λ b. pure-Always _ tt)
          λ b.
            attempt-Always _ (λ e. pure-Always _ tt)
              λ found w e.
                on_nil-Always _ (λ e. pure-Always _ tt)
                  λ pci e.
                    when-Always _ (λ b. pure-Always _ tt)
                      λ b.
                        check-Always _ (λ e h. pure-Always _ tt)
                          λ entropy h.
                            attempt-Always _ (λ e. pure-Always _ tt)
                              λ seed w e. check_proof-NoFault s proof tok pci seed d r
