-- ===== src/Base/Errors.antt =====
-- Go errors. `xerrors.Errorf` makes one from a text, or wraps one under a text (`%w`); the other
-- format arguments are dropped. A call that may fail returns a value or an error.
use Prim.Native.String.{String}

pub data Error : Type 0 where
  errorf : String → Error
  wrapf : String → Error → Error

pub data Result {ℓ} (A : Type ℓ) : Type ℓ where
  ok : A → Result A
  err : Error → Result A
