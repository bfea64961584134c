-- ===== src/Entry/Pledged.antt =====
-- garbage.go `PledgeSector`: the sector that its goroutine begins.
use storage_fsm.Base.{
  ℕ, ◌<◌, ◌^◌, ◌+◌, ◌-◌, ◌%◌, ◌≡◌, refl, ap, subst, List, [], ◌∷◌, map, none, Result, ok, err,
  arith, Bytes,
}
use storage_fsm.Base.Int.{ℤ}
use storage_fsm.Sector.{
  SectorState, SectorInfo, PieceInfo, Piece, zero_sector, deal_ids, deal_ids_of,
}
use storage_fsm.Events.{Event, type_of, is_mutator, apply, apply_global}
use storage_fsm.Fsm.Table.{EventType-discrete, plan_one, rows, planners}
use storage_fsm.Fsm.Plan.{Logging, plan}
use storage_fsm.Api.{Sealing, SectorId}
use storage_fsm.Api.Action.{pure, Always, pure-Always, attempt-Always, check-Always}
use storage_fsm.Handlers.Packing.{allocated_from, pledge_each, pledge_sector, handle_packing}
use storage_fsm.Handlers.Zeros.{AreZeros, pledge_reader-AreZeros}
use storage_fsm.Handlers.Outcome.{sends}
use storage_fsm.Checks.{miner_sector}
use storage_fsm.Fillers.Loop.{fillers_from_rem, fill_from, ones_count64, ones_from}
use storage_fsm.System.Run.Ends.{Ends, pure-Ends, attempt-Ends, check-Ends, when-false-Ends}
use storage_fsm.Entry.{StateGroup, Call, returns, new_sector, pledge_in_background}

module _ {Cid Address World : Type 0} (m : Sealing Cid Address World)
    (g : StateGroup Cid World) where
  abbrev pub full_size : ℕ
  full_size = m.unpadded m.sealer.sector_size

  -- A piece was added to the empty sector, of the whole size and with nothing but zeros.
  abbrev pub Added : SectorId → PieceInfo Cid → Type 0
  Added id p =
      (content : Bytes) × AreZeros full_size content
      × (w : World) × ((m.sealer.add_piece none id [] full_size content w).0 ≡ ok p)

  -- The pieces of the sector that the event starts.
  abbrev pub pledged : PieceInfo Cid → List (Piece Cid)
  pledged p = record { piece = p; deal_info = none } ∷ []

  -- The counter gave a number, the sector was created with it, a piece of zeros of the whole size was
  -- added, and the event that starts the sector with that piece was sent.
  pub record Pledged : Type 0 where
    pub sector_id : ℕ
    pub miner : ℕ
    pub seal_type : ℤ
    pub piece : PieceInfo Cid
    pub has_id : m.id_from_address m.maddr ≡ ok miner
    pub has_type : m.seal_proof_type_from_sector_size m.sealer.sector_size ≡ ok seal_type
    pub numbered : (w : World) × ((m.next_number w).0 ≡ ok sector_id)
    pub made :
        (w : World) × ((m.sealer.new_sector (record { miner = miner; number = sector_id }) w).0
          ≡ ok tt)
    pub added : Added (record { miner = miner; number = sector_id }) piece
    pub sent :
        (w : World) × ((g.send sector_id
            (Event.sector_start sector_id seal_type (pledged piece))
            w).0
          ≡ ok tt)

  abbrev IsOne : SectorId → Result (List (PieceInfo Cid)) → Type 0
  IsOne id (ok ps) = (p : PieceInfo Cid) × (ps ≡ p ∷ []) × Added id p
  IsOne id (err e) = Unit

  pledge_sector-IsOne :
      full_size < 2 ^ 63
      → (id : SectorId) → Always (IsOne id) (pledge_sector m id [] (full_size ∷ []))
  unfolding pledge_sector pledge_each pure
  pledge_sector-IsOne fits id =
      attempt-Always _ (λ e. pure-Always _ tt)
        λ p w added.
          attempt-Always _ (λ e. pure-Always _ tt)
            λ rest v none_left.
              pure-Always _
                (p, ground (arith, none_left), (_, pledge_reader-AreZeros full_size fits, w, added))

  abbrev Begins : Call (Unit {0}) → Type 0
  Begins (returns (ok u)) = Pledged
  Begins _ = Unit

  pledge-Begins : full_size < 2 ^ 63 → Always Begins (pledge_in_background m g)
  unfolding pledge_in_background new_sector
  pledge-Begins fits =
      check-Always _ (λ e h. pure-Always _ tt)
        λ rt has_type.
          attempt-Always _ (λ e. pure-Always _ tt)
            λ sid w numbered.
              check-Always _ (λ e h. pure-Always _ tt)
                λ miner has_id.
                  attempt-Always _ (λ e. pure-Always _ tt)
                    λ done v made.
                      attempt-Always _ (λ e. pure-Always _ tt)
                        λ ps u is.
                          attempt-Always _ (λ e. pure-Always _ tt)
                            λ sent_ok x sent.
                              let id : SectorId = record { miner = miner; number = sid } in
                              let (p, one, added) =
                                subst (IsOne id) is ((pledge_sector-IsOne fits id).at u) in
                              pure-Always _ (record {
                                sector_id = sid;
                                miner = miner;
                                seal_type = rt;
                                piece = p;
                                has_id = has_id;
                                has_type = has_type;
                                numbered = (w, numbered);
                                made = (v, made);
                                added = added;
                                sent = (
                                  x,
                                  subst
                                      (λ ps.
                                        (g.send sid
                                          (Event.sector_start sid rt
                                            (map (λ p. record { piece = p; deal_info = none }) ps))
                                          x).0
                                        ≡ ok tt)
                                      one sent,
                                );
                              })

  -- The record after the event that starts the sector.
  abbrev pub begun : Logging Cid → Pledged → SectorInfo Cid
  begun L q =
      (plan L (Event.sector_start q.sector_id q.seal_type (pledged q.piece) ∷ []) zero_sector).0

  module _ (p : PieceInfo Cid) (full : m.unpadded p.size ≡ full_size)
      (fits : full_size < 2 ^ 63) where
    all_allocated : allocated_from m.unpadded 0 (pledged p) ≡ full_size
    unfolding allocated_from
    all_allocated = omega (arith, full, fits)

    no_fillers :
        fillers_from_rem m.unpadded
          ((full_size + 2 ^ 64 - allocated_from m.unpadded 0 (pledged p)) % 2 ^ 64)
        ≡ []
    unfolding fillers_from_rem fill_from ones_count64 ones_from
    no_fillers =
        let nothing : (full_size + 2 ^ 64 - allocated_from m.unpadded 0 (pledged p)) % 2 ^ 64 ≡ 0 =
          omega (arith, all_allocated) in
        ap (fillers_from_rem m.unpadded) nothing

    -- `handlePacking` on a sector with just that piece.
    packing-Ends :
        (s : SectorInfo Cid) (miner : ℕ) (w : World)
        → s.pieces ≡ pledged p
        → m.id_from_address m.maddr ≡ ok miner
        → Ends (handle_packing m s) w (sends (Event.sector_packed []))
    unfolding handle_packing miner_sector pledge_sector pure
    packing-Ends s miner w just has_id =
        when-false-Ends _ _ w (rw just (ground (arith, all_allocated))) (
          check-Ends _ _ w has_id
            (attempt-Ends {r = ok []} _ _ _ w (rw (just, no_fillers) refl) (pure-Ends _)))

  -- If the goroutine of `PledgeSector` gets to its end, the counter gave it a number, it created the
  -- sector, added one piece of the sector's whole size, every byte of which is 0, and sent the event
  -- that starts the sector with it; planned on a sector seen for the first time, that event gives a
  -- sector in Packing with the number and no deals, for which `handlePacking` has nothing to add. A
  -- piece that `AddPiece` returns has the size that was asked for, and the unpadded size of a sector
  -- fits 63 bits.
  pub pledged_sector_is_full :
      (sizes : (id : SectorId) (p : PieceInfo Cid) → Added id p → m.unpadded p.size ≡ full_size)
      → full_size < 2 ^ 63
      → (L : Logging Cid) (w : World) → (pledge_in_background m g w).0 ≡ returns (ok tt)
      → (q : Pledged) × ((begun L q).state ≡ SectorState.packing)
        × ((begun L q).sector_number ≡ q.sector_id)
        × (deal_ids (begun L q) ≡ [])
        × ((v : World) → (handle_packing m (begun L q) v).0 ≡ sends (Event.sector_packed []))
  unfolding plan planners rows plan_one apply_global EventType-discrete type_of is_mutator apply
      zero_sector deal_ids deal_ids_of
  pledged_sector_is_full sizes fits L w h =
      let q : Pledged = subst Begins h ((pledge-Begins fits).at w) in
      (
        q,
        refl,
        refl,
        refl,
        λ v.
            ap (λ r. r.0)
              (packing-Ends q.piece (sizes _ q.piece q.added) fits (begun L q) q.miner v refl
                q.has_id).is,
      )
