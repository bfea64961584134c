-- ===== src/Cbor/Services.antt =====
-- What cbor_gen.go calls of other packages: cbor-gen, go-cid's codec in it, the codec of
-- `abi.PieceInfo`, and the `io.Writer` that it is given.
use storage_fsm.Base.{ℕ, Bytes, Result, String}
use storage_fsm.Sector.{PieceInfo}
use storage_fsm.Cbor.Stream.{Write, Reader}

-- The major types of CBOR; `tag` and `other` are not used by the code.
pub data Major : Type 0 where
  unsigned_int negative_int byte_string text_string array map tag other : Major

pub record Cbg (Cid World : Type 0) : Type 0 where
  pub max_length : ℕ
  pub byte_array_max_len : ℕ
  -- the one byte of `CborNull`
  pub cbor_null : ℕ
  pub encode_major_type : Major → ℕ → Bytes
  pub read_header : Reader (Major × ℕ)
  pub read_string : Reader String
  pub peek_byte : Bytes → Result ℕ
  -- `[]byte(s)`; the length of a Go string is that of its bytes
  pub bytes_of : String → Bytes
  -- `cid.Undef`, the zero value
  pub undef : Cid
  pub read_cid : Reader Cid
  -- `abi.PieceInfo.UnmarshalCBOR` on a value
  pub read_piece_info : PieceInfo Cid → Reader (PieceInfo Cid)
  pub write : Bytes → Write World
  pub write_cid : Cid → Write World
  pub write_piece_info : PieceInfo Cid → Write World
