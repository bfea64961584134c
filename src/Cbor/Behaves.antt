-- ===== src/Cbor/Behaves.antt =====
-- What the code relies on of cbor-gen and of the writer: what a header, a string, a CID or a piece
-- that was written reads back as, and that the writer takes all that it is given.
use Prim.Native.String.{count}
use storage_fsm.Base.{
  ℕ, ◌+◌, ◌*◌, ◌^◌, ◌<◌, ◌≤◌, ◌≡◌, ◌≢◌, Bool, true, Bytes, ◌∷◌, ◌++◌, length, String, ok,
}
use storage_fsm.Sector.{PieceInfo}
use storage_fsm.Cbor.Services.{Cbg, Major, text_string, map}

pub record Behaves {Cid World : Type 0} (c : Cbg Cid World) : Type 0 where
  -- all that was written so far
  pub out : World → Bytes
  pub writes :
      (b : Bytes) (w : World) → ((c.write b w).0 ≡ ok tt) × (out (c.write b w).1 ≡ out w ++ b)
  pub null_byte : c.cbor_null ≡ 246
  pub some_length : 128 ≤ c.max_length
  pub max_length_lt : c.max_length < 2 ^ 64
  pub byte_array_max_len_lt : c.byte_array_max_len < 2 ^ 64
  pub headers :
      (maj : Major) (n : ℕ) (rest : Bytes)
      → n < 2 ^ 64
      → c.read_header (c.encode_major_type maj n ++ rest) ≡ ok ((maj, n), rest)
  -- the one-byte header of a map with fewer than 24 pairs
  pub small_maps :
      (n : ℕ) (rest : Bytes) → n < 24 → c.read_header ((160 + n) ∷ rest) ≡ ok ((map, n), rest)
  pub utf8 : (s : String) → length (c.bytes_of s) ≤ 4 * count s
  pub strings :
      (s : String) (rest : Bytes)
      → length (c.bytes_of s) ≤ c.max_length
      → c.read_string
          ((c.encode_major_type text_string (length (c.bytes_of s)) ++ c.bytes_of s) ++ rest)
        ≡ ok (s, rest)
  pub peeks : (b : ℕ) (bs : Bytes) → c.peek_byte (b ∷ bs) ≡ ok b
  -- the CIDs that can be written, and their bytes: a tag comes first
  pub is_cid : Cid → Bool
  pub cid_tag : ℕ
  pub cid_tag_ne_null : cid_tag ≢ 246
  pub cid_rest : Cid → Bytes
  pub writes_cid :
      (d : Cid) (w : World)
      → is_cid d ≡ true
      → ((c.write_cid d w).0 ≡ ok tt) × (out (c.write_cid d w).1 ≡ out w ++ cid_tag ∷ cid_rest d)
  pub reads_cid :
      (d : Cid) (rest : Bytes)
      → is_cid d ≡ true
      → c.read_cid ((cid_tag ∷ cid_rest d) ++ rest) ≡ ok (d, rest)
  -- the same for `abi.PieceInfo`
  pub is_piece_info : PieceInfo Cid → Bool
  pub piece_bytes : PieceInfo Cid → Bytes
  pub writes_piece :
      (p : PieceInfo Cid) (w : World)
      → is_piece_info p ≡ true
      → ((c.write_piece_info p w).0 ≡ ok tt)
        × (out (c.write_piece_info p w).1 ≡ out w ++ piece_bytes p)
  pub reads_piece :
      (old p : PieceInfo Cid) (rest : Bytes)
      → is_piece_info p ≡ true
      → c.read_piece_info old (piece_bytes p ++ rest) ≡ ok (p, rest)
