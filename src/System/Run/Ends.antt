-- ===== src/System/Run/Ends.antt =====
-- Actions that end in a result, and the same through the ways to compose actions.
use storage_fsm.Base.{
  ℕ, ◌+◌, ◌*◌, ltb, ◌≡◌, refl, ap, ◌∙◌, true, false, Bool, Option, none, some, List, [], ◌∷◌,
  is_nil, Error, Result, ok, arith,
}
use storage_fsm.Sector.{SectorInfo, Log}
use storage_fsm.Api.Action.{Act, pure, bind, attempt, check, branch, run_then, when, on_nil}
use storage_fsm.Api.{Sealing}
use storage_fsm.Handlers.Outcome.{Step, fail}
use storage_fsm.Handlers.Failed.{min_retry_time, last_entry, failed_cooldown}

-- In this world the action ends in the result.
pub record Ends {World B : Type 0} (x : Act World B) (w : World) (b : B) : Type 0 where
  pub later : World
  pub is : x w ≡ (b, later)

-- In every world the call answers with the value.
abbrev pub Answers : {World A : Type 0} → Act World (Result A) → A → Type 0
Answers {World} x a = (w : World) → (x w).0 ≡ ok a

module _ {World B : Type 0} {b : B} where
  pub pure-Ends : (w : World) → Ends (pure b) w b
  unfolding pure
  pure-Ends w = record { later = w; is = refl }

  pub bind-Ends :
      {A : Type 0} {a : A} (x : Act World A) (k : A → Act World B) (w : World) (e : Ends x w a)
      → Ends (k a) e.later b
      → Ends (bind x k) w b
  unfolding bind
  bind-Ends x k w e h = record { later = h.later; is = ap (λ r. run_then r k) e.is ∙ h.is }

  pub attempt-Ends :
      {A : Type 0} {r : Result A} (x : Act World (Result A)) (failed : Error → Act World B)
      (k : A → Act World B) (w : World)
      → (x w).0 ≡ r
      → Ends (branch failed k r) (x w).1 b
      → Ends (attempt x failed k) w b
  unfolding attempt
  attempt-Ends x failed k w is h =
      bind-Ends x (branch failed k) w (record { later = (x w).1; is = ap (λ r. (r, (x w).1)) is }) h

  -- The same for a call that is known to end.
  pub attempt_ended-Ends :
      {A : Type 0} {r : Result A} (x : Act World (Result A)) (failed : Error → Act World B)
      (k : A → Act World B) (w : World) (e : Ends x w r)
      → Ends (branch failed k r) e.later b
      → Ends (attempt x failed k) w b
  unfolding attempt
  attempt_ended-Ends x failed k = bind-Ends x (branch failed k)

  pub check-Ends :
      {A : Type 0} {a : A} {r : Result A} (failed : Error → Act World B) (k : A → Act World B)
      (w : World)
      → r ≡ ok a
      → Ends (k a) w b
      → Ends (check r failed k) w b
  unfolding check
  check-Ends failed k w is h = rw is h

  pub on_nil-Ends :
      {A : Type 0} {a : A} {o : Option A} (absent : Act World B) (k : A → Act World B) (w : World)
      → o ≡ some a
      → Ends (k a) w b
      → Ends (on_nil o absent k) w b
  unfolding on_nil
  on_nil-Ends absent k w is h = rw is h

  pub on_nil_by-Ends :
      {A : Type 0} (o : Option A) (absent : Act World B) (k : A → Act World B) (w : World)
      → (o ≡ none → Ends absent w b)
      → ((a : A) → o ≡ some a → Ends (k a) w b)
      → Ends (on_nil o absent k) w b
  unfolding on_nil
  on_nil_by-Ends none absent k w f g = f refl
  on_nil_by-Ends (some a) absent k w f g = g a refl

  pub when-true-Ends :
      {t : Bool} (x k : Act World B) (w : World) → t ≡ true → Ends x w b → Ends (when t x k) w b
  unfolding when
  when-true-Ends x k w is h = rw is h

  pub when-false-Ends :
      {t : Bool} (x k : Act World B) (w : World) → t ≡ false → Ends k w b → Ends (when t x k) w b
  unfolding when
  when-false-Ends x k w is h = rw is h

-- A log with an entry has a last one.
pub last_entry-some : (log : List Log) → is_nil log ≡ false → (l : Log) × (last_entry log ≡ some l)
unfolding last_entry
last_entry-some [] h = absurd (ground arith)
last_entry-some (l ∷ []) h = (l, refl)
last_entry-some (l ∷ k ∷ ls) h = last_entry-some (k ∷ ls) refl

module _ {Cid Address World : Type 0} (m : Sealing Cid Address World)
    (waits : (t : ℕ) → Answers (m.wait_until t) tt) where
  -- A cooldown on a record with a log comes to its end, if waits do.
  pub cooldown-Ends :
      {b : Step Cid} (s : SectorInfo Cid) (k : Act World (Step Cid)) (w : World)
      → is_nil s.log ≡ false
      → ((v : World) → Ends k v b)
      → Ends (failed_cooldown m s k) w b
  unfolding failed_cooldown
  cooldown-Ends {b} s k w logged h =
      let (l, is) = last_entry-some s.log logged in
      on_nil-Ends _ _ w is (
        bind-Ends m.now _ w (record { later = (m.now w).1; is = refl })
          (timed (l.timestamp * 1000000000 + min_retry_time) _))
    where
      timed :
          (start : ℕ) (v : World)
          → Ends (when (ltb start (m.now w).0) k (attempt (m.wait_until start) fail λ done. k)) v b
      timed start v = by (ltb start (m.now w).0) refl
        where
          by :
              (t : Bool)
              → ltb start (m.now w).0 ≡ t
              → Ends
                  (when (ltb start (m.now w).0) k (attempt (m.wait_until start) fail λ done. k))
                  v
                  b
          by true is = when-true-Ends _ _ v is (h v)
          by false is = when-false-Ends _ _ v is (attempt-Ends _ _ _ v (waits start v) (h _))
