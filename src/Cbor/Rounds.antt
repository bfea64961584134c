-- ===== src/Cbor/Rounds.antt =====
-- A write and the read that takes back what it wrote, and how both are composed.
pub mod Values
pub mod Structs
use mathlib.Core.List.{append_assoc}
use storage_fsm.Base.{ℕ, zero, suc, ◌+◌, ◌≡◌, refl, sym, ap, ◌∙◌, Bool, false, Bytes, [], ◌∷◌, ◌++◌}
use storage_fsm.Base.{Error, Result, ok, err, String, arith}
use storage_fsm.Api.Action.{run_then, branch, pure, attempt, bind, when, Act}
use storage_fsm.Cbor.Stream.{Write, ◌>>◌, Reader, give, resume, read_then, wrapped, relabel}
use storage_fsm.Cbor.Services.{Cbg}
use storage_fsm.Cbor.Values.{read_fields}
use storage_fsm.Cbor.Behaves.{Behaves}

-- The read takes just these bytes off the front of any stream, and gives this value.
pub record Reads {A : Type 0} (r : Reader A) (b : Bytes) (a : A) : Type 0 where
  pub at : (rest : Bytes) → r (b ++ rest) ≡ ok (a, rest)

pub give-Reads : {A : Type 0} (a : A) → Reads (give a) [] a
unfolding give
give-Reads a = record { at = λ rest. refl }

pub wrapped-Reads :
    {A : Type 0} (text : String) {r : Reader A} {b : Bytes} {a : A}
    → Reads r b a
    → Reads (wrapped text r) b a
unfolding wrapped
wrapped-Reads text h = record { at = λ rest. ap (relabel text) (h.at rest) }

module _ {A B : Type 0} {r : Reader A} where
  pub then-Reads :
      (k : A → Reader B) {b d : Bytes} {a : A} {x : B}
      → Reads r b a
      → Reads (k a) d x
      → Reads (read_then r k) (b ++ d) x
  unfolding read_then
  then-Reads k {b = b} {d = d} h g = record {
    at = λ rest.
        ap (λ bs. resume (r bs) k) (append_assoc b d rest)
        ∙ ap (λ x. resume x k) (h.at (d ++ rest))
        ∙ g.at rest;
  }

  -- The second read takes nothing.
  pub then_stop-Reads :
      (k : A → Reader B) {b : Bytes} {a : A} {x : B}
      → Reads r b a
      → Reads (k a) [] x
      → Reads (read_then r k) b x
  unfolding read_then
  then_stop-Reads k h g = record { at = λ rest. ap (λ x. resume x k) (h.at rest) ∙ g.at rest }

  pub then_give-Reads :
      (f : A → B) {b : Bytes} {a : A} → Reads r b a → Reads (read_then r (λ v. give (f v))) b (f a)
  then_give-Reads f {a = a} h = then_stop-Reads (λ v. give (f v)) h (give-Reads (f a))

module _ {Cid World : Type 0} (c : Cbg Cid World) (h : Behaves c) where
  -- The write succeeds and adds just these bytes to what was written.
  pub record Appends (m : Write World) (b : Bytes) : Type 0 where
    pub at : (w : World) → ((m w).0 ≡ ok tt) × (h.out (m w).1 ≡ h.out w ++ b)

  pub write-Appends : (b : Bytes) → Appends (c.write b) b
  write-Appends b = record { at = h.writes b }

  pub when-Appends :
      {t : Bool} (m : Write World) {k : Write World} {b : Bytes}
      → t ≡ false
      → Appends k b
      → Appends (when t m k) b
  unfolding when
  when-Appends m e a = rw e a

  pub attempt-Appends :
      {m : Write World} (failed : Error → Write World) {k : Write World} {b d : Bytes}
      → Appends m b
      → Appends k d
      → Appends (attempt m failed (λ done. k)) (b ++ d)
  unfolding attempt bind
  attempt-Appends {m} failed {k} {b} {d} f g = record { at = λ w. by w (m w) (f.at w) }
    where
      by :
          (w : World) (r : Result (Unit {0}) × World)
          → (r.0 ≡ ok tt) × (h.out r.1 ≡ h.out w ++ b)
          → ((run_then r (branch failed (λ done. k))).0 ≡ ok tt)
            × (h.out (run_then r (branch failed (λ done. k))).1 ≡ h.out w ++ (b ++ d))
      by w (ok u, v) (e, o) =
          ((g.at v).0, (g.at v).1 ∙ ap (λ x. x ++ d) o ∙ append_assoc (h.out w) b d)
      by w (err e, v) (x, o) = absurd (ground (arith, x))

  pub then-Appends :
      {m k : Write World} {b d : Bytes} → Appends m b → Appends k d → Appends (m >> k) (b ++ d)
  unfolding ◌>>◌
  then-Appends f g = attempt-Appends _ f g

  -- What the write adds reads back as this value.
  pub record Round {A : Type 0} (m : Write World) (r : Reader A) (a : A) : Type 0 where
    pub bytes : Bytes
    pub appends : Appends m bytes
    pub reads : Reads r bytes a

  module _ {A : Type 0} (field : String → A → Reader A) where
    -- The loop over the fields of a struct takes `k` rounds over these bytes, from one value to
    -- another.
    pub record Parses (k : ℕ) (b : Bytes) (s t : A) : Type 0 where
      pub at :
          (n : ℕ) (rest : Bytes)
          → read_fields c field s (k + n) (b ++ rest) ≡ read_fields c field t n rest

    -- What the write adds are `k` fields that take one value to another.
    pub record Emits (k : ℕ) (m : Write World) (s t : A) : Type 0 where
      pub bytes : Bytes
      pub appends : Appends m bytes
      pub parses : Parses k bytes s t

    pub then-Emits :
        {k l : ℕ} {m n : Write World} {s t u : A}
        → Emits k m s t
        → Emits l n t u
        → Emits (k + l) (m >> n) s u
    then-Emits {k} {l} {s = s} f g = record {
      bytes = f.bytes ++ g.bytes;
      appends = then-Appends f.appends g.appends;
      parses = record {
        at = λ n rest.
            ap (λ bs. read_fields c field s (k + l + n) bs) (append_assoc f.bytes g.bytes rest)
            ∙ ap (λ j. read_fields c field s j (f.bytes ++ (g.bytes ++ rest))) (omega arith)
            ∙ f.parses.at (l + n) (g.bytes ++ rest)
            ∙ g.parses.at n rest;
      };
    }
