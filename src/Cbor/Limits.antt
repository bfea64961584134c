-- ===== src/Cbor/Limits.antt =====
-- Records that `MarshalCBOR` refuses, and the batches that make them.
use storage_fsm.Base.{◌<◌, ◌≤◌, ◌≡◌, refl, ap, ◌∙◌, subst, true, none, some, List}
use storage_fsm.Base.{[], ◌∷◌, ◌++◌, length, length-append, String, Error, Result, err, Bool, arith}
use storage_fsm.Sector.{SectorInfo, Log}
use storage_fsm.Events.{Event}
use storage_fsm.Fsm.Plan.{Logging, log_entry, log_events, plan}
use storage_fsm.Fsm.History.{log-plan}
use storage_fsm.Api.Action.{
  Always, pure-Always, when-Always, attempt-Always, bind-Always, pure, attempt, branch, when,
}
use storage_fsm.Cbor.Stream.{Write, ◌>>◌}
use storage_fsm.Cbor.Services.{Cbg}
use storage_fsm.Cbor.Values.{write_text, write_field, write_each, write_slice}
use storage_fsm.Cbor.Entries.{marshal_log}
use storage_fsm.Cbor.SectorWrite.{write_outcome, marshal_sector}

-- The write ends in an error, whatever the writer does.
abbrev Fails : {World : Type 0} → Write World → Type 0
Fails m = Always (λ r. (e : Error) × (r ≡ err e)) m

module _ {World : Type 0} where
  refused-Fails :
      {t : Bool} (k : Write World) (e : Error) → t ≡ true → Fails (when t (pure (err e)) k)
  unfolding when
  refused-Fails k e h = rw h (pure-Always _ (e, refl))

  second-Fails : (m : Write World) {k : Write World} → Fails k → Fails (m >> k)
  unfolding ◌>>◌
  second-Fails m f = attempt-Always m (λ e. pure-Always _ (e, refl)) λ done w h. f

  first-Fails : {m : Write World} (k : Write World) → Fails m → Fails (m >> k)
  unfolding ◌>>◌ attempt
  first-Fails {m} k f =
      bind-Always m λ r w h. by r (subst (λ r. (e : Error) × (r ≡ err e)) h (f.at w))
    where
      by :
          (r : Result (Unit {0}))
          → (e : Error) × (r ≡ err e)
          → Fails (branch (λ e. pure (err e)) (λ done. k) r)
      by r (e, h) = rw h (pure-Always _ (e, refl))

module _ {Cid World : Type 0} (c : Cbg Cid World) where
  field-Fails : (name : String) {m : Write World} → Fails m → Fails (write_field c name m)
  unfolding write_field
  field-Fails name f = second-Fails _ f

  text-Fails :
      (too_long s : String) → c.max_length < length (c.bytes_of s) → Fails (write_text c too_long s)
  unfolding write_text
  text-Fails too_long s h = refused-Fails _ _ (ground arith)

  each-Fails :
      {A : Type 0} (f : A → Write World) (xs : List A) (y : A) (ys : List A)
      → Fails (f y)
      → Fails (write_each c f (xs ++ y ∷ ys))
  unfolding write_each
  each-Fails f [] y ys h = first-Fails _ h
  each-Fails f (x ∷ xs) y ys h = second-Fails _ (each-Fails f xs y ys h)

  module _ (s : SectorInfo Cid) where
    -- The log is the last field.
    log-Fails :
        Fails (
          write_slice c "Slice value in field t.Log was too long"
            (λ v. marshal_log c (some v))
            s.log)
        → Fails (marshal_sector c (some s))
    unfolding marshal_sector write_outcome
    log-Fails f = second-Fails _ (
        second-Fails _ (
          second-Fails _ (
            second-Fails _ (
              second-Fails _
                (second-Fails _ (second-Fails _ (second-Fails _ (field-Fails "Log" f))))))))

    long_log-Fails : c.max_length < length s.log → Fails (marshal_sector c (some s))
    unfolding write_slice
    long_log-Fails h = log-Fails (refused-Fails _ _ (ground arith))

    long_entry-Fails :
        (front : List Log) (l : Log) (back : List Log)
        → s.log ≡ front ++ l ∷ back
        → c.max_length < length (c.bytes_of l.message)
        → Fails (marshal_sector c (some s))
    unfolding write_slice marshal_log
    long_entry-Fails front l back e h = log-Fails (
        when-Always _ (λ b. pure-Always _ (_, refl))
          λ b. second-Fails _ (
            rw e (
              each-Fails _ front l back (
                second-Fails _ (
                  second-Fails _ (
                    second-Fails _
                      (first-Fails _ (field-Fails "Message" (text-Fails _ l.message h)))))))))

  module _ (L : Logging Cid) (s : SectorInfo Cid) (e : Event Cid) (m : String)
      (has : L.marshal e ≡ some m) where
    logged : (plan L (e ∷ []) s).0.log ≡ s.log ++ log_entry L 0 e m ∷ []
    unfolding log_events
    logged =
        log-plan L (e ∷ []) s
        ∙ ap (λ o. elim o [ none ↦ s.log | some m ↦ s.log ++ log_entry L 0 e m ∷ [] ]) has

    -- Once the log has as many entries as `MaxLength`, the record after any event that marshals to
    -- JSON cannot be written, whatever the writer does: `MarshalCBOR` ends in an error.
    pub full_log_is_refused :
        c.max_length ≤ length s.log
        → (w : World) → (x : Error) × ((marshal_sector c (some (plan L (e ∷ []) s).0) w).0 ≡ err x)
    full_log_is_refused full w =
        (long_log-Fails (plan L (e ∷ []) s).0
            (rw logged (omega (arith, length-append s.log (log_entry L 0 e m ∷ []))))).at
          w

    -- An event whose JSON is longer than `MaxLength` leaves a record that cannot be written.
    pub long_event_is_refused :
        c.max_length < length (c.bytes_of m)
        → (w : World) → (x : Error) × ((marshal_sector c (some (plan L (e ∷ []) s).0) w).0 ≡ err x)
    long_event_is_refused long w =
        (long_entry-Fails (plan L (e ∷ []) s).0 s.log (log_entry L 0 e m) [] logged long).at w
