-- ===== src/Cbor/Rounds/Structs.antt =====
-- Arrays and structs, written and read back.
use Prim.Native.String.{count}
use storage_fsm.Base.{subst, sym, ℕ, ◌+◌, ◌<◌, ◌≤◌, ◌≡◌, refl, ap, ◌∙◌, Bytes}
use storage_fsm.Base.{List, [], ◌∷◌, ◌++◌, length, All, String, ok, arith}
use storage_fsm.Cbor.Stream.{Write, ◌>>◌, Reader, give, wrapped, read_then}
use storage_fsm.Cbor.Services.{Cbg, array}
use storage_fsm.Cbor.Values.{
  write_each, write_slice, map_length, read_struct, read_fields, read_each, items_or, slice_after,
  read_slice, write_field,
}
use storage_fsm.Cbor.Behaves.{Behaves}
use storage_fsm.Cbor.Rounds.{
  Reads, give-Reads, wrapped-Reads, then-Reads, then_stop-Reads, then_give-Reads, write-Appends,
  when-Appends, then-Appends, Round, Parses, Emits, then-Emits,
}
use storage_fsm.Cbor.Rounds.Values.{written-Appends, choose-Reads, field-Emits}

module _ {Cid World : Type 0} (c : Cbg Cid World) (h : Behaves c) where
  -- What the read takes, as one round of the loop after another.
  each-Round :
      {A : Type 0} (f : A → Write World) (item : Reader A) (xs : List A)
      → All (λ x. Round c h (f x) item x) xs
      → Round c h (write_each c f xs) (read_each c item (length xs)) xs
  unfolding write_each read_each
  each-Round f item [] rounds = record {
    bytes = [];
    appends = written-Appends c h;
    reads = give-Reads [];
  }
  each-Round f item (x ∷ xs) rounds =
      let rest = each-Round f item xs rounds.1 in
      record {
        bytes = rounds.0.bytes ++ rest.bytes;
        appends = then-Appends c h rounds.0.appends rest.appends;
        reads =
            then-Reads (λ v. read_then (read_each c item (length xs)) (λ vs. give (v ∷ vs)))
              rounds.0.reads (then_give-Reads (λ vs. x ∷ vs) rest.reads);
      }

  pub slice-Round :
      {A : Type 0} (too_long too_large : String) (f : A → Write World) (item : Reader A)
      (xs : List A)
      → length xs ≤ c.max_length
      → All (λ x. Round c h (f x) item x) xs
      → Round c h (write_slice c too_long f xs) (read_slice c too_large [] item) xs
  unfolding write_slice read_slice
  slice-Round {A = A} too_long too_large f item xs fits rounds =
      let each = each-Round f item xs rounds in
      record {
        bytes = c.encode_major_type array (length xs) ++ each.bytes;
        appends =
            when-Appends c h _ (ground arith) (then-Appends c h (write-Appends c h _) each.appends);
        reads =
            then-Reads (slice_after c too_large [] item)
              (record {
                at = λ rest. h.headers array (length xs) rest (omega (arith, h.max_length_lt));
              })
              (choose-Reads _ (ground arith) (by_length xs each.reads));
      }
    where
      by_length :
          {b : Bytes} (ys : List A)
          → Reads (read_each c item (length ys)) b ys
          → Reads (items_or c [] (length ys) item) b ys
      by_length [] r = unfold read_each in r
      by_length (y ∷ ys) r = r

  -- A round whose bytes begin with this one.
  pub record Begun {A : Type 0} (first : ℕ) (m : Write World) (r : Reader A) (a : A) : Type 0 where
    pub round : Round c h m r a
    pub tail : Bytes
    pub begins : round.bytes ≡ first ∷ tail

  -- A struct of fewer than 24 fields, whose header is one byte.
  pub struct-Begun :
      {A : Type 0} (too_large : String) (field : String → A → Reader A) (k : ℕ) {m : Write World}
      {s t : A}
      → k < 24
      → Emits c h field k m s t
      → Begun
          (160 + k)
          (c.write ((160 + k) ∷ []) >> m)
          (read_struct c too_large (read_fields c field s))
          t
  unfolding read_struct
  struct-Begun {A = A} too_large field k {s = s} {t = t} small e = record {
    round = record {
      bytes = ((160 + k) ∷ []) ++ e.bytes;
      appends = then-Appends c h (write-Appends c h _) e.appends;
      reads =
          then-Reads (read_fields c field s) {b = (160 + k) ∷ []}
            (then_stop-Reads (map_length c too_large)
              (record { at = λ rest. h.small_maps k rest small })
              (choose-Reads _ (ground (arith, h.some_length)) (give-Reads k)))
            (record { at = whole e.parses });
    };
    tail = e.bytes;
    begins = refl;
  }
    where
      whole :
          {b : Bytes}
          → Parses c h field k b s t
          → (rest : Bytes) → read_fields c field s k (b ++ rest) ≡ ok (t, rest)
      whole {b} p rest =
          ap (λ j. read_fields c field s j (b ++ rest)) (omega arith)
          ∙ p.at 0 rest
          ∙ unfold read_fields give in refl

  -- The value that is read is stored in the struct.
  set-Round :
      {A B : Type 0} (f : A → B) {m : Write World} {r : Reader A} {a : A}
      → Round c h m r a
      → Round c h m (read_then r (λ v. give (f v))) (f a)
  set-Round f q = record { bytes = q.bytes; appends = q.appends; reads = then_give-Reads f q.reads }

  pub wrapped-Round :
      {A : Type 0} (text : String) {m : Write World} {r : Reader A} {a : A}
      → Round c h m r a
      → Round c h m (wrapped text r) a
  wrapped-Round text q = record {
    bytes = q.bytes;
    appends = q.appends;
    reads = wrapped-Reads text q.reads;
  }

  module _ {A : Type 0} (field : String → A → Reader A) where
    -- A field whose value `set` stores.
    pub last-Emits :
        {B : Type 0} (name : String) (set : A → B → A) {value : Write World} {r : Reader B} {b : B}
        {s : A}
        → count name ≤ 16
        → Round c h value r b
        → field name s ≡ read_then r (λ x. give (set s x))
        → Emits c h field 1 (write_field c name value) s (set s b)
    last-Emits name set {value} {b = b} {s = s} short q is =
        field-Emits c h field name short
          (subst (λ x. Round c h value x (set s b)) (sym is) (set-Round (set s) q))

    -- The same with fields after it.
    pub next-Emits :
        {B : Type 0} (name : String) (set : A → B → A) {value : Write World} {r : Reader B} {b : B}
        {s t : A} {k : ℕ} {others : Write World}
        → count name ≤ 16
        → Round c h value r b
        → field name s ≡ read_then r (λ x. give (set s x))
        → Emits c h field k others (set s b) t
        → Emits c h field (1 + k) (write_field c name value >> others) s t
    next-Emits name set short q is rest = then-Emits c h field (last-Emits name set short q is) rest
