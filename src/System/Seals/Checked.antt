-- ===== src/System/Seals/Checked.antt =====
-- The checks and the handlers from PreCommit1 to PreCommitting on such services.
use storage_fsm.Base.{◌≡◌, refl, true, none, Bytes, List, [], ◌∷◌, All, ok, arith}
use storage_fsm.Base.Int.{ℤ}
use storage_fsm.Base.Int64.{sub64}
use storage_fsm.Sector.{SectorInfo, Piece, PieceInfo, deal_ids, sealing_ctx, piece_infos}
use storage_fsm.Events.{Event}
use storage_fsm.Fsm.Plan.{Logging}
use storage_fsm.Api.{Sealing}
use storage_fsm.Handlers.Outcome.{sends}
use storage_fsm.Handlers.Precommit.{
  get_ticket, replicate_sector, on_pieces_checked, handle_pre_commit1, handle_pre_commit2,
  submit_pre_commit, on_precommit_checked, handle_pre_committing,
}
use storage_fsm.Checks.{
  passes, check_proposal, check_each, check_pieces, check_on_chain, ticket_expired, check_precommit,
  miner_sector,
}
use storage_fsm.System.Run.Ends.{
  Ends, pure-Ends, bind-Ends, attempt-Ends, attempt_ended-Ends, check-Ends, on_nil-Ends,
  on_nil_by-Ends, when-false-Ends,
}
use storage_fsm.System.Seals.Services.{IsZeroPiece, IsLive, lookback, Prepares}
use storage_fsm.System.Seals.Packed.{with_fillers-IsLive, deal_ids-with_fillers}
use storage_fsm.System.Seals.Records.{packed, replicated, sealed}

module _ {Cid Address World : Type 0} (m : Sealing Cid Address World) where
  check_each-Ends :
      (tok : Bytes) (height : ℤ) (ps : List (Piece Cid)) (w : World)
      → All (IsLive m tok height) ps
      → Ends (check_each m tok height ps) w passes
  unfolding check_each check_proposal
  check_each-Ends tok height [] w a = pure-Ends w
  check_each-Ends tok height (p ∷ ps) w a =
      on_nil_by-Ends p.deal_info _ _ w
        (λ e. when-false-Ends _ _ w (ground (arith, a.0.0 e)) (check_each-Ends tok height ps w a.1))
        λ d e.
          let (proposal, is, same_cid, same_size, live) = a.0.1 d e w in
          let v = (m.api.state_market_storage_deal d.deal_id tok w).1 in
          attempt-Ends _ _ _ w is (
            when-false-Ends _ _ v (ground (arith, same_cid)) (
              when-false-Ends _ _ v (ground (arith, same_size))
                (when-false-Ends _ _ v live (check_each-Ends tok height ps v a.1))))

  module _ (L : Logging Cid) (s : SectorInfo Cid) (c : Prepares m s)
      (qs : List (PieceInfo Cid)) where
    ticket-Ends :
        (w : World)
        → (value : Bytes) × (height : ℤ) × (tok : Bytes) × ((m.api.chain_head w).0
            ≡ ok (tok, height))
          × Ends (get_ticket m (packed L qs s)) w (ok (value, sub64 height (lookback m)))
    unfolding get_ticket
    ticket-Ends w =
        let (tok, height, is, live) = c.has_head w in
        let v = (m.api.chain_head w).1 in
        let u = (m.api.state_sector_pre_commit_info m.maddr s.sector_number tok v).1 in
        let (value, has_value) = c.randomness tok (sub64 height (lookback m)) u in
        (
          value,
          height,
          tok,
          is,
          attempt-Ends _ _ _ w is (
              check-Ends _ _ v c.address_bytes (
                attempt-Ends _ _ _ v (c.unclaimed tok v)
                  (attempt-Ends _ _ _ u has_value (pure-Ends _)))),
        )

    pub pre_commit1-Ends :
        (zero_pieces : All (IsZeroPiece m) qs) (w : World)
        → (out value : Bytes) × (height : ℤ) × (tok : Bytes) × (v : World) × ((m.api.chain_head v).0
            ≡ ok (tok, height))
          × Ends
              (handle_pre_commit1 m (packed L qs s))
              w
              (sends (Event.sector_pre_commit1 out value (sub64 height (lookback m))))
    unfolding handle_pre_commit1 check_pieces on_pieces_checked replicate_sector miner_sector
    pre_commit1-Ends zero_pieces w =
        let (tok, height, is, live) = c.has_head w in
        let v = (m.api.chain_head w).1 in
        let checked =
          check_each-Ends tok height _ v
            (with_fillers-IsLive m s c tok height s.pieces qs live zero_pieces) in
        let pieces : Ends (check_pieces m (packed L qs s)) w passes =
          attempt-Ends _ _ _ w is checked in
        let (value, height₁, tok₁, is₁, ticket) = ticket-Ends pieces.later in
        let (out, replica) =
          c.seals1 (sealing_ctx (packed L qs s) none) value (piece_infos (packed L qs s))
            ticket.later in
        (
          out,
          value,
          height₁,
          tok₁,
          pieces.later,
          is₁,
          bind-Ends _ _ w pieces (
              attempt_ended-Ends _ _ _ pieces.later ticket
                (check-Ends _ _ _ c.has_id (attempt-Ends _ _ _ _ replica (pure-Ends _)))),
        )

    module _ (out value : Bytes) (height : ℤ) where
      pub pre_commit2-Ends :
          (w : World)
          → (sealed_cid unsealed : Cid) × ((tok : Bytes) (v : World)
              → (d : Cid) × ((m.api.state_compute_data_commitment m.maddr s.sector_type
                    (deal_ids s)
                    tok
                    v).0
                  ≡ ok d)
                × (m.cid_equal d unsealed ≡ true))
            × Ends
                (handle_pre_commit2 m
                  (replicated L out value (sub64 height (lookback m)) (packed L qs s)))
                w
                (sends (Event.sector_pre_commit2 sealed_cid unsealed))
      unfolding handle_pre_commit2 miner_sector
      pre_commit2-Ends w =
          let (r, d, is, same) =
            c.seals2
              (sealing_ctx (replicated L out value (sub64 height (lookback m)) (packed L qs s))
                none)
              out w in
          (r, d, same, check-Ends _ _ w c.has_id (attempt-Ends _ _ _ w is (pure-Ends _)))

      module _ (tok₀ : Bytes) (w₀ : World) (is₀ : (m.api.chain_head w₀).0 ≡ ok (tok₀, height))
          (r d : Cid)
          (same : (tok : Bytes) (v : World)
            → (chain_d : Cid) × ((m.api.state_compute_data_commitment m.maddr s.sector_type
                  (deal_ids s)
                  tok
                  v).0
                ≡ ok chain_d)
              × (m.cid_equal chain_d d ≡ true)) where
        abbrev ready : SectorInfo Cid
        ready = sealed L r d (replicated L out value (sub64 height (lookback m)) (packed L qs s))

        checked-Ends :
            (tok₁ : Bytes) (height₁ : ℤ) (v w : World)
            → (m.api.chain_head v).0 ≡ ok (tok₁, height₁)
            → Ends (check_precommit m ready tok₁ height₁) w passes
        unfolding check_precommit check_on_chain ticket_expired deal_ids
        checked-Ends tok₁ height₁ v w is₁ =
            let (chain_d, has_d, same_d) = same tok₁ w in
            attempt-Ends {r = ok chain_d} _ _ _ w (rw (deal_ids-with_fillers s.pieces qs) has_d) (
              on_nil-Ends _ _ _ refl (
                when-false-Ends _ _ _ (ground (arith, same_d)) (
                  when-false-Ends _ _ _ (c.steady w₀ v tok₀ tok₁ height height₁ is₀ is₁) (
                    attempt-Ends _ _ _ _ (c.unclaimed tok₁ _) (
                      on_nil_by-Ends none _ _ _ (λ e. pure-Ends _)
                        λ a e. absurd (ground (arith, e)))))))

        pub pre_committing-Ends :
            (w : World)
            → (message : Cid) × Ends
                (handle_pre_committing m ready)
                w
                (sends (Event.sector_pre_committed message))
        unfolding handle_pre_committing on_precommit_checked submit_pre_commit
        pre_committing-Ends w =
            let (tok, height₁, is, live) = c.has_head w in
            let v = (m.api.chain_head w).1 in
            let (worker, has_worker) = c.has_worker tok v in
            let u = (m.api.state_miner_worker_address m.maddr tok v).1 in
            let checked = checked-Ends tok height₁ w u is in
            let (expiration, expires) = c.has_expiration ready.pieces checked.later in
            let x = (m.expiration ready.pieces checked.later).1 in
            let (enc, marshals) = c.marshals (record {
              expiration = expiration;
              sector_number = ready.sector_number;
              seal_proof = ready.sector_type;
              sealed_cid = r;
              seal_rand_epoch = ready.ticket_epoch;
              deal_ids = deal_ids ready;
            }) in
            let (message, takes) = c.takes worker enc x in
            (
              message,
              attempt-Ends _ _ _ w is (
                  attempt-Ends _ _ _ v has_worker (
                    bind-Ends _ _ u checked (
                      attempt-Ends _ _ _ checked.later expires (
                        on_nil-Ends _ _ _ refl (
                          check-Ends _ _ _ marshals (attempt-Ends _ _ _ x takes (pure-Ends _))))))),
            )
