-- ===== src/Cbor/Gives.antt =====
-- What holds of a value that is read, from any stream.
use storage_fsm.Base.{
  ℕ, zero, suc, ◌≡◌, refl, ap, Bool, true, false, length, [], ◌∷◌, Bytes, Error, Result, ok, err,
  if◌then◌else◌,
}
use storage_fsm.Cbor.Stream.{
  Reader, give, refuse, choose, resume, read_then, read_more, read_full, after,
}

module _ {A : Type 0} (P : A → Type 0) where
  abbrev pub Holds : Result (A × Bytes) → Type 0
  Holds (ok (a, rest)) = P a
  Holds (err e) = Unit

  -- The property holds of what is read, from any stream.
  pub record Gives (r : Reader A) : Type 0 where
    pub at : (bs : Bytes) → Holds (r bs)

module _ {A : Type 0} {P : A → Type 0} where
  pub give-Gives : (a : A) → P a → Gives P (give a)
  unfolding give
  give-Gives a h = record { at = λ bs. h }

  pub refuse-Gives : (e : Error) → Gives P (refuse e)
  unfolding refuse
  refuse-Gives e = record { at = λ bs. tt }

  pub choose-Gives :
      (b : Bool) {r k : Reader A} → Gives P r → (b ≡ false → Gives P k) → Gives P (choose b r k)
  unfolding choose
  choose-Gives true f g = f
  choose-Gives false f g = g refl

  pub if-Gives : (b : Bool) {r k : Reader A} → Gives P r → Gives P k → Gives P (if b then r else k)
  if-Gives true f g = f
  if-Gives false f g = g

  pub then-Gives :
      {B : Type 0} {Q : B → Type 0} {r : Reader B} {k : B → Reader A}
      → Gives Q r
      → ((b : B) → Q b → Gives P (k b))
      → Gives P (read_then r k)
  unfolding read_then
  then-Gives {B} {Q} {r} {k} f g = record { at = λ bs. by (r bs) (f.at bs) }
    where
      by : (x : Result (B × Bytes)) → Holds Q x → Holds P (resume x k)
      by (ok (b, rest)) h = (g b h).at rest
      by (err e) h = tt

pub any-Gives : {A : Type 0} (r : Reader A) → Gives (λ a. Unit) r
any-Gives {A} r = record { at = λ bs. by (r bs) }
  where
    by : (x : Result (A × Bytes)) → Holds (λ a. Unit) x
    by (ok (a, rest)) = tt
    by (err e) = tt

pub Gives-map :
    {A : Type 0} {P Q : A → Type 0} {r : Reader A} → ((a : A) → P a → Q a) → Gives P r → Gives Q r
Gives-map {A} {P} {Q} {r} f h = record { at = λ bs. by (r bs) (h.at bs) }
  where
    by : (x : Result (A × Bytes)) → Holds P x → Holds Q x
    by (ok (a, rest)) k = f a k
    by (err e) k = tt

after-Holds :
    (n b : ℕ) (x : Result (Bytes × Bytes))
    → Holds (λ bs. length bs ≡ n) x
    → Holds (λ bs. length bs ≡ suc n) (after b x)
after-Holds n b (ok (bs, rest)) h = ap suc h
after-Holds n b (err e) h = tt

read_more-Holds : (n : ℕ) (bs : Bytes) → Holds (λ bs. length bs ≡ n) (read_more n bs)
read_more-Holds zero bs = refl
read_more-Holds (suc n) [] = tt
read_more-Holds (suc n) (b ∷ bs) = after-Holds n b (read_more n bs) (read_more-Holds n bs)

pub read_full-Gives : (n : ℕ) → Gives (λ bs. length bs ≡ n) (read_full n)
unfolding read_full
read_full-Gives zero = record { at = λ bs. refl }
read_full-Gives (suc n) = record { at = step n }
  where
    step : (n : ℕ) (bs : Bytes) → Holds (λ bs. length bs ≡ suc n) (read_full (suc n) bs)
    step n [] = tt
    step n (b ∷ bs) = after-Holds n b (read_more n bs) (read_more-Holds n bs)
