-- ===== src/Cbor/Stream.antt =====
-- What the code of cbor_gen.go is made of: writes to an `io.Writer`, each with an early return, and
-- reads from a stream of bytes, which fail or give a value and the rest of the stream.
use storage_fsm.Base.{ℕ, zero, suc, Bytes, [], ◌∷◌, String}
use storage_fsm.Base.{Error, errorf, wrapf, Result, ok, err, Bool, true, false}
use storage_fsm.Api.Action.{Act, pure, attempt}

abbrev pub Write : Type 0 → Type 0
Write World = Act World (Result (Unit {0}))

-- `if err := a; err != nil { return err }`, then `b`
infixr 60 ◌>>◌
unfoldable pub ◌>>◌ : {World : Type 0} → Write World → Write World → Write World
a >> b = attempt a (λ e. pure (err e)) λ done. b

abbrev pub Reader : Type 0 → Type 0
Reader A = Bytes → Result (A × Bytes)

module _ {A : Type 0} where
  unfoldable pub give : A → Reader A
  give a bs = ok (a, bs)

  unfoldable pub refuse : Error → Reader A
  refuse e bs = err e

  unfoldable pub choose : Bool → Reader A → Reader A → Reader A
  choose true r k = r
  choose false r k = k

  abbrev pub relabel : String → Result (A × Bytes) → Result (A × Bytes)
  relabel text (ok r) = ok r
  relabel text (err e) = err (wrapf text e)

  -- An error of the read is wrapped under a text.
  unfoldable pub wrapped : String → Reader A → Reader A
  wrapped text r bs = relabel text (r bs)

  module _ {B : Type 0} where
    abbrev pub resume : Result (A × Bytes) → (A → Reader B) → Result (B × Bytes)
    resume (ok (a, bs)) k = k a bs
    resume (err e) k = err e

    unfoldable pub read_then : Reader A → (A → Reader B) → Reader B
    read_then r k bs = resume (r bs) k

abbrev pub after : ℕ → Result (Bytes × Bytes) → Result (Bytes × Bytes)
after b r = resume r λ rest left. ok (b ∷ rest, left)

abbrev pub read_more : ℕ → Bytes → Result (Bytes × Bytes)
read_more zero bs = ok ([], bs)
read_more (suc n) [] = err (errorf "unexpected EOF")
read_more (suc n) (b ∷ bs) = after b (read_more n bs)

-- `io.ReadFull` of this many bytes.
unfoldable pub read_full : ℕ → Reader Bytes
read_full zero bs = ok ([], bs)
read_full (suc n) [] = err (errorf "EOF")
read_full (suc n) (b ∷ bs) = after b (read_more n bs)
