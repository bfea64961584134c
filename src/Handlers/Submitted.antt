-- ===== src/Handlers/Submitted.antt =====
-- What holds when `handlePreCommitting` reports a message as sent.
use storage_fsm.Base.{◌≡◌, subst, some, Bytes, ok}
use storage_fsm.Base.Int.{ℤ}
use storage_fsm.Sector.{SectorInfo, deal_ids}
use storage_fsm.Events.{Event}
use storage_fsm.Api.{Sealing, Method}
use storage_fsm.Api.Action.{
  Always, Always-map, pure-Always, bind-Always, on_nil-Always, attempt-Always, check-Always,
}
use storage_fsm.Checks.{
  Check, passes, rejects, faults, err_api, err_bad_comm_d, err_expired_ticket, err_bad_ticket,
  err_precommit_on_chain,
}
use storage_fsm.Checks.Precommit.{Committable, PassCommittable, check_precommit-PassCommittable}
use storage_fsm.Handlers.Outcome.{Step, sends}
use storage_fsm.Handlers.Precommit.{submit_pre_commit, on_precommit_checked, handle_pre_committing}

module _ {Cid Address World : Type 0} (m : Sealing Cid Address World) (s : SectorInfo Cid) where
  -- The message carries the parameters of the record, with the replica commitment and the
  -- expiration that the policy returned.
  pub record SentFor (message : Cid) : Type 0 where
    pub comm_r : Cid
    pub has_comm_r : s.comm_r ≡ some comm_r
    pub expiration : ℤ
    pub expires : (w : World) × ((m.expiration s.pieces w).0 ≡ ok expiration)
    pub params : Bytes
    pub encoded :
        m.marshal_pre_commit (record {
          expiration = expiration;
          sector_number = s.sector_number;
          seal_proof = s.sector_type;
          sealed_cid = comm_r;
          seal_rand_epoch = s.ticket_epoch;
          deal_ids = deal_ids s;
        })
        ≡ ok params
    pub worker : Address
    pub sent :
        (w : World) × ((m.api.send_msg worker m.maddr Method.pre_commit_sector
            (ℤ.pos 0)
            (ℤ.pos 1)
            (ℤ.pos 1000000)
            params
            w).0
          ≡ ok message)

  abbrev Submits : Step Cid → Type 0
  Submits (sends (Event.sector_pre_committed message)) =
      SentFor message
      × (tok : Bytes) × (height : ℤ) × ((w : World) × ((m.api.chain_head w).0 ≡ ok (tok, height)))
      × Committable m s tok height
  Submits _ = Unit

  abbrev Sent : Step Cid → Type 0
  Sent (sends (Event.sector_pre_committed message)) = SentFor message
  Sent _ = Unit

  submit_pre_commit-Sent : (waddr : Address) → Always Sent (submit_pre_commit m s waddr)
  unfolding submit_pre_commit
  submit_pre_commit-Sent waddr =
      attempt-Always _ (λ e. pure-Always _ tt)
        λ expiration v expires.
          on_nil-Always _ (λ e. pure-Always _ tt)
            λ comm_r r.
              check-Always _ (λ e h. pure-Always _ tt)
                λ params encoded.
                  attempt-Always _ (λ e. pure-Always _ tt)
                    λ message w sent. pure-Always _ (record {
                      comm_r = comm_r;
                      has_comm_r = r;
                      expiration = expiration;
                      expires = (v, expires);
                      params = params;
                      encoded = encoded;
                      worker = waddr;
                      sent = (w, sent);
                    })

  sent-Submits :
      (tok : Bytes) (height : ℤ)
      → ((w : World) × ((m.api.chain_head w).0 ≡ ok (tok, height)))
      → Committable m s tok height
      → (r : Step Cid) → Sent r
      → Submits r
  sent-Submits tok height at c (sends (Event.sector_pre_committed message)) h =
      (h, tok, height, at, c)
  sent-Submits tok height at c _ h = tt

  on_precommit_checked-Submits :
      (tok : Bytes) (height : ℤ)
      → ((w : World) × ((m.api.chain_head w).0 ≡ ok (tok, height)))
      → (waddr : Address) (c : Check) → PassCommittable m s tok height c
      → Always Submits (on_precommit_checked m s tok waddr c)
  unfolding on_precommit_checked
  on_precommit_checked-Submits tok height at waddr passes p =
      Always-map (sent-Submits tok height at p) (submit_pre_commit-Sent waddr)
  on_precommit_checked-Submits tok height at waddr (rejects (err_api e)) p = pure-Always _ tt
  on_precommit_checked-Submits tok height at waddr (rejects (err_bad_comm_d e)) p = pure-Always _ tt
  on_precommit_checked-Submits tok height at waddr (rejects (err_expired_ticket e)) p =
      pure-Always _ tt
  on_precommit_checked-Submits tok height at waddr (rejects err_bad_ticket) p = pure-Always _ tt
  on_precommit_checked-Submits tok height at waddr (rejects err_precommit_on_chain) p =
      pure-Always _ tt
  on_precommit_checked-Submits tok height at waddr (rejects _) p = pure-Always _ tt
  on_precommit_checked-Submits tok height at waddr faults p = pure-Always _ tt

  -- If `handlePreCommitting` sends `SectorPreCommitted`, the message was sent with the parameters
  -- of the record; and at a head that the chain answered, the chain computed the data commitment
  -- of the record, the ticket had not expired, and the sector was not pre-committed.
  pub pre_committed_is_checked :
      (w : World) (message : Cid)
      → (handle_pre_committing m s w).0 ≡ sends (Event.sector_pre_committed message)
      → SentFor message
        × (tok : Bytes) × (height : ℤ) × ((v : World) × ((m.api.chain_head v).0 ≡ ok (tok, height)))
        × Committable m s tok height
  unfolding handle_pre_committing
  pre_committed_is_checked w message h = subst Submits h (submits.at w)
    where
      submits : Always Submits (handle_pre_committing m s)
      submits =
          attempt-Always _ (λ e. pure-Always _ tt)
            λ head v at.
              attempt-Always _ (λ e. pure-Always _ tt)
                λ waddr w e. bind-Always _ λ c w e.
                  on_precommit_checked-Submits head.0 head.1 (v, at) waddr c
                    (subst (PassCommittable m s head.0 head.1) e
                      ((check_precommit-PassCommittable m s head.0 head.1).at w))
