-- ===== src/Policy/Promise.antt =====
-- What `Expiration` promises.
use storage_fsm.Base.{ℕ, ◌+◌, ◌-◌, ◌*◌, ◌/◌, ◌%◌, ◌^◌, ◌≤◌, ◌<◌, ◌≡◌, refl, ap, ◌∙◌, sym, arith}
use storage_fsm.Base.{Option, none, some, List, [], ◌∷◌, All, Bytes, Result, ok, err}
use native.Mathlib.Nat.{div-add-mod, mod-lt, mul-add-mod_self_left}
use storage_fsm.Base.Int.{ℤ, pos, negsuc, ◌≤ℤ◌}
use storage_fsm.Base.Int64.{add64}
use storage_fsm.Sector.{Piece, DealInfo}
use storage_fsm.Policy.Expiration.{
  new_basic_pre_commit_policy, expiration, latest_end, end_or, expiration_at,
}
use storage_fsm.Api.Action.{Act, pure, attempt, bind, run_then, branch}
use storage_fsm.Policy.Rounding.{round_up_pos, add64_pos}
use storage_fsm.Policy.Deals.{
  EndsBy, AllEndBy, AtLeast, Within, latest_end-Within, latest_end_covers,
}

pos-injective : {a b : ℕ} → pos a ≡ pos b → a ≡ b
pos-injective h = ground arith

ok_pos-injective : {a b : ℕ} → ok (pos a) ≡ ok (pos b) → a ≡ b
ok_pos-injective h = ground arith

boundary_reached :
    (period boundary n : ℕ)
    → 0 < period
    → (n + (period - n % period + boundary - 1) + 1) % period ≡ boundary % period
boundary_reached period boundary n h =
    ap (λ k. k % period) regroup ∙ mul-add-mod_self_left period (n / period + 1) boundary
  where
    regroup : n + (period - n % period + boundary - 1) + 1 ≡ period * (n / period + 1) + boundary
    regroup = omega (arith, div-add-mod n period, mod-lt n h)

module _ (period boundary epoch duration : ℕ) where
  -- The end that is rounded up: that of the last live deal, or that of the default duration.
  base_end :
      (hi : ℕ) (o : Option ℤ)
      → Within (pos epoch) (pos hi) o
      → epoch + duration ≤ hi
      → hi < 2 ^ 63
      → (n : ℕ) × (end_or o (add64 (pos epoch) (pos duration)) ≡ pos n)
        × (n ≤ hi)
        × ((x : ℤ) → AtLeast o x → x ≤ℤ pos n)
  base_end hi none w le lt =
      (epoch + duration, add64_pos epoch duration (omega arith), le, λ x h. absurd h)
  base_end hi (some (pos n)) w le lt = (n, refl, omega arith, λ x h. h)
  base_end hi (some (negsuc n)) w le lt = absurd (omega arith)

  module _ {World : Type 0} (api : Act World (Result (Bytes × ℤ))) (w : World) (tok : Bytes)
      (answers : (api w).0 ≡ ok (tok, pos epoch)) where
    -- What the policy for this chain returns.
    abbrev pub answer : {Cid : Type 0} → List (Piece Cid) → Result ℤ
    answer ps =
        (expiration (pos period) (new_basic_pre_commit_policy api (pos duration) (pos boundary)) ps
          w).0

    answer_at :
        {Cid : Type 0} (ps : List (Piece Cid))
        → answer ps
          ≡ ok (
              expiration_at
                (pos period)
                (new_basic_pre_commit_policy api (pos duration) (pos boundary))
                (pos epoch)
                ps)
    unfolding expiration new_basic_pre_commit_policy attempt bind pure
    answer_at ps = by (api w) answers
      where
        by :
            (r : Result (Bytes × ℤ) × World)
            → r.0 ≡ ok (tok, pos epoch)
            → (run_then r (
                branch
                  (λ e. pure (ok (pos 0)))
                  λ (t, h). pure (
                    ok (
                      expiration_at
                        (pos period)
                        (new_basic_pre_commit_policy api (pos duration) (pos boundary))
                        h
                        ps)))).0
              ≡ ok (
                  expiration_at
                    (pos period)
                    (new_basic_pre_commit_policy api (pos duration) (pos boundary))
                    (pos epoch)
                    ps)
        by (ok (t, h), v) e = ground (arith, e)
        by (err f, v) e = absurd (ground (arith, e))

    module _ {Cid : Type 0} (ps : List (Piece Cid)) (hi : ℕ) (some_period : 0 < period)
        (deals : AllEndBy (pos hi) ps) (default : epoch + duration ≤ hi)
        (fits : hi + period + boundary < 2 ^ 63) where
      abbrev pub found : Option ℤ
      found = latest_end (pos epoch) none ps

      base :
          (n : ℕ) × (end_or found (add64 (pos epoch) (pos duration)) ≡ pos n)
          × (n ≤ hi)
          × ((x : ℤ) → AtLeast found x → x ≤ℤ pos n)
      base =
          base_end hi found (latest_end-Within (pos epoch) (pos hi) none ps deals tt) default
            (omega arith)

      abbrev rounded : ℕ → ℕ
      rounded n = n + (period - n % period + boundary - 1)

      result :
          (n : ℕ)
          → end_or found (add64 (pos epoch) (pos duration)) ≡ pos n
          → n ≤ hi
          → answer ps ≡ ok (pos (rounded n))
      unfolding expiration_at new_basic_pre_commit_policy
      result n e le =
          answer_at ps ∙ ap ok (rw e (round_up_pos period boundary n some_period (omega arith)))

      -- If the chain answers that it is at `epoch`, `Expiration` returns an epoch with no error; it
      -- lies on a boundary of the proving period, and every deal that is still live at `epoch` ends
      -- no later. The period is positive, the boundary, the epoch and the duration are not negative,
      -- and neither a deal nor the default duration ends after `hi`, which is small enough for the
      -- int64 sums.
      pub expiration_covers_deals :
          (r : ℕ) × (answer ps ≡ ok (pos r))
          × ((r + 1) % period ≡ boundary % period)
          × EndsBy (pos epoch) (pos r) ps
      expiration_covers_deals = (
        rounded base.0,
        result base.0 base.1 base.2,
        boundary_reached period boundary base.0 some_period,
        lift ps (λ x. AtLeast found x) below (latest_end_covers (pos epoch) none ps),
      )
        where
          below : (x : ℤ) → AtLeast found x → x ≤ℤ pos (rounded base.0)
          below x h = omega (arith, base.3 x h, mod-lt base.0 some_period)

          lift :
              (qs : List (Piece Cid)) (Q : ℤ → Type 0)
              → ((x : ℤ) → Q x → x ≤ℤ pos (rounded base.0))
              → All
                  (λ p.
                    (d : DealInfo)
                    → p.deal_info ≡ some d
                    → pos epoch ≤ℤ d.deal_schedule.end_epoch
                    → Q d.deal_schedule.end_epoch)
                  qs
              → EndsBy (pos epoch) (pos (rounded base.0)) qs
          lift [] Q up h = tt
          lift (q ∷ qs) Q up h = (λ d e live. up _ (h.0 d e live), lift qs Q up h.1)

      -- Under the same conditions, the expiration is later than the end that it was rounded from
      -- (the latest live deal's, or the epoch and the default duration) by the boundary at least,
      -- and by less than a period and the boundary.
      pub expiration_is_tight :
          (n r : ℕ)
          → end_or found (add64 (pos epoch) (pos duration)) ≡ pos n
          → answer ps ≡ ok (pos r)
          → (n + boundary ≤ r) × (r < n + period + boundary)
      expiration_is_tight n r e x =
          let same : n ≡ base.0 = pos-injective (sym e ∙ base.1) in
          let le : n ≤ hi = omega (arith, base.2) in
          let is : rounded n ≡ r = ok_pos-injective (sym (result n e le) ∙ x) in
          let below : n % period < period = mod-lt n some_period in (omega arith, omega arith)
