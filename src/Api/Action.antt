-- ===== src/Api/Action.antt =====
-- Calls that may change the world, the early returns of Go code after a call that may fail, and
-- what holds of a result whatever the services answer.
use storage_fsm.Base.{◌≡◌, refl, Bool, true, false, Option, none, some, Error, Result, ok, err}

abbrev pub Act : Type 0 → Type 0 → Type 0
Act World A = World → A × World

module _ {World A : Type 0} where
  unfoldable pub pure : A → Act World A
  pure a w = (a, w)

  module _ {B : Type 0} where
    abbrev pub run_then : A × World → (A → Act World B) → B × World
    run_then (a, w) k = k a w

    unfoldable pub bind : Act World A → (A → Act World B) → Act World B
    bind m k w = run_then (m w) k

    abbrev pub branch : (Error → Act World B) → (A → Act World B) → Result A → Act World B
    branch failed k (ok a) = k a
    branch failed k (err e) = failed e

    -- The same for a call that changes nothing.
    unfoldable pub check : Result A → (Error → Act World B) → (A → Act World B) → Act World B
    check r failed k = branch failed k r

    -- A pointer that may be nil.
    unfoldable pub on_nil : Option A → Act World B → (A → Act World B) → Act World B
    on_nil none absent k = absent
    on_nil (some a) absent k = k a

-- `a, err := m(); if err != nil { return failed(err) }`
unfoldable pub attempt :
    {World A B : Type 0}
    → Act World (Result A)
    → (Error → Act World B)
    → (A → Act World B)
    → Act World B
unfolding bind
attempt m failed k = bind m (branch failed k)

unfoldable pub when : {World B : Type 0} → Bool → Act World B → Act World B → Act World B
when true m k = m
when false m k = k

-- The property holds of the result in every world.
pub record Always {World B : Type 0} (P : B → Type 0) (m : Act World B) : Type 0 where
  pub at : (w : World) → P (m w).0

-- One rule for each way to compose actions: each branch may use what led to it.
module _ {World B : Type 0} {P : B → Type 0} where
  pub pure-Always : (b : B) → P b → Always {World = World} P (pure b)
  unfolding pure
  pure-Always b h = record { at = λ w. h }

  pub when-Always :
      (b : Bool) {m k : Act World B}
      → (b ≡ true → Always P m)
      → (b ≡ false → Always P k)
      → Always P (when b m k)
  unfolding when
  when-Always true f g = f refl
  when-Always false f g = g refl

  module _ {A : Type 0} where
    pub bind-Always :
        (m : Act World A) {k : A → Act World B}
        → ((a : A) (w : World) → (m w).0 ≡ a → Always P (k a))
        → Always P (bind m k)
    unfolding bind
    bind-Always m h = record { at = λ w. (h (m w).0 w refl).at (m w).1 }

    pub on_nil-Always :
        (o : Option A) {absent : Act World B} {k : A → Act World B}
        → (o ≡ none → Always P absent)
        → ((a : A) → o ≡ some a → Always P (k a))
        → Always P (on_nil o absent k)
    unfolding on_nil
    on_nil-Always none f g = f refl
    on_nil-Always (some a) f g = g a refl

    pub check-Always :
        (r : Result A) {failed : Error → Act World B} {k : A → Act World B}
        → ((e : Error) → r ≡ err e → Always P (failed e))
        → ((a : A) → r ≡ ok a → Always P (k a))
        → Always P (check r failed k)
    unfolding check
    check-Always (ok a) f g = g a refl
    check-Always (err e) f g = f e refl

  pub attempt-Always :
      {A : Type 0} (m : Act World (Result A)) {failed : Error → Act World B} {k : A → Act World B}
      → ((e : Error) → Always P (failed e))
      → ((a : A) (w : World) → (m w).0 ≡ ok a → Always P (k a))
      → Always P (attempt m failed k)
  unfolding attempt
  attempt-Always {A} m {failed} {k} f g = bind-Always m by_result
    where
      by_result : (r : Result A) (w : World) → (m w).0 ≡ r → Always P (branch failed k r)
      by_result (ok a) w h = g a w h
      by_result (err e) w h = f e

-- A weaker property holds of the result too.
pub Always-map :
    {World B : Type 0} {P Q : B → Type 0} {m : Act World B}
    → ((b : B) → P b → Q b)
    → Always P m
    → Always Q m
Always-map f h = record { at = λ w. f _ (h.at w) }
