-- ===== src/Cbor/Values.antt =====
-- cbor_gen.go: the code for one value of each kind of field. The generator repeats it for every
-- field; here a field passes the texts of its errors.
use Prim.Native.String.{◌++◌ as ◌+++◌}
use storage_fsm.Base.{ℕ, zero, suc, ◌+◌, ◌-◌, ◌%◌, ◌^◌, Option, some}
use storage_fsm.Base.{List, [], ◌∷◌, length, Bytes, String, ltb, ◌==◌}
use storage_fsm.Base.{errorf, wrapf, Result, ok, err}
use storage_fsm.Base.Int.{ℤ, pos, negsuc, ltb_ℤ}
use storage_fsm.Base.Int64.{wrap64, sub64}
use storage_fsm.Api.Action.{pure, attempt, when, on_nil}
use storage_fsm.Cbor.Stream.{
  Write, ◌>>◌, Reader, give, refuse, choose, wrapped, read_then, read_full,
}
use storage_fsm.Cbor.Services.{
  Cbg, Major, unsigned_int, negative_int, byte_string, text_string, array, map,
}

module _ {Cid World : Type 0} (c : Cbg Cid World) where
  unfoldable pub written : Write World
  written = pure (ok tt)

  unfoldable pub write_null : Write World
  write_null = c.write (c.cbor_null ∷ [])

  -- A string with its header.
  unfoldable pub write_text : String → String → Write World
  write_text too_long s =
      when (ltb c.max_length (length (c.bytes_of s))) (pure (err (errorf too_long))) (
        c.write (c.encode_major_type text_string (length (c.bytes_of s))) >> c.write (c.bytes_of s))

  -- The key of a field, then its value.
  unfoldable pub write_field : String → Write World → Write World
  unfolding write_text ◌>>◌
  write_field name value =
      write_text ("Value in field \"" +++ name +++ "\" was too long") name >> value

  unfoldable pub write_uint : ℕ → Write World
  write_uint n = c.write (c.encode_major_type unsigned_int n)

  -- `uint64(-x)-1` for a negative int64 `x`.
  unfoldable pub write_int : ℤ → Write World
  write_int (pos n) = c.write (c.encode_major_type unsigned_int n)
  write_int (negsuc n) =
      c.write (c.encode_major_type negative_int ((suc n % 2 ^ 64 + 2 ^ 64 - 1) % 2 ^ 64))

  unfoldable pub write_bytes : String → Bytes → Write World
  write_bytes too_long bs =
      when (ltb c.byte_array_max_len (length bs)) (pure (err (errorf too_long)))
        (c.write (c.encode_major_type byte_string (length bs)) >> c.write bs)

  -- A pointer to a CID.
  unfoldable pub write_cid : String → Option Cid → Write World
  unfolding write_null
  write_cid failed p =
      on_nil p write_null
        λ d. attempt (c.write_cid d) (λ e. pure (err (wrapf failed e))) (λ e. written)

  module _ {A : Type 0} where
    unfoldable pub write_each : (A → Write World) → List A → Write World
    unfolding written
    write_each f [] = written
    write_each f (x ∷ xs) = f x >> write_each f xs

    unfoldable pub write_slice : String → (A → Write World) → List A → Write World
    unfolding write_each
    write_slice too_long f xs =
        when (ltb c.max_length (length xs)) (pure (err (errorf too_long)))
          (c.write (c.encode_major_type array (length xs)) >> write_each f xs)

  -- The header of a struct gives the number of its fields.
  abbrev pub map_length : String → Major × ℕ → Reader ℕ
  map_length too_large (map, extra) =
      choose (ltb c.max_length extra) (refuse (errorf too_large)) (give extra)
  map_length too_large (maj, extra) = refuse (errorf "cbor input should be of type map")

  unfoldable pub read_struct : {A : Type 0} → String → (ℕ → Reader A) → Reader A
  read_struct too_large fields = read_then (read_then c.read_header (map_length too_large)) fields

  -- The loop over the fields of a struct: each name is read, and `field` reads its value.
  unfoldable pub read_fields : {A : Type 0} → (String → A → Reader A) → A → ℕ → Reader A
  read_fields field t zero = give t
  read_fields field t (suc n) =
      read_then c.read_string λ name. read_then (field name t) λ t'. read_fields field t' n

  abbrev pub unknown_field : {A : Type 0} → Reader A
  unknown_field = refuse (errorf "unknown struct field %d: '%s'")

  abbrev pub uint_of : Major × ℕ → Reader ℕ
  uint_of (unsigned_int, extra) = give extra
  uint_of (maj, extra) = refuse (errorf "wrong type for uint64 field")

  unfoldable pub read_uint : Reader ℕ
  read_uint = read_then c.read_header uint_of

  -- `extraI` is the header's number as an int64.
  abbrev pub int_of : Major × ℕ → Reader ℤ
  int_of (unsigned_int, extra) =
      choose (ltb_ℤ (wrap64 (pos extra)) (pos 0)) (refuse (errorf "int64 positive overflow"))
        (give (wrap64 (pos extra)))
  int_of (negative_int, extra) =
      choose (ltb_ℤ (wrap64 (pos extra)) (pos 0)) (refuse (errorf "int64 negative oveflow"))
        (give (sub64 (negsuc 0) (wrap64 (pos extra))))
  int_of (maj, extra) = refuse (errorf "wrong type for int64 field: %d")

  unfoldable pub read_int : Reader ℤ
  read_int = read_then c.read_header int_of

  abbrev pub bytes_after : String → Major × ℕ → Reader Bytes
  bytes_after too_large (byte_string, extra) =
      choose (ltb c.byte_array_max_len extra) (refuse (errorf too_large)) (read_full extra)
  bytes_after too_large (maj, extra) =
      choose (ltb c.byte_array_max_len extra) (refuse (errorf too_large))
        (refuse (errorf "expected byte array"))

  unfoldable pub read_bytes : String → Reader Bytes
  unfolding read_full
  read_bytes too_large = read_then c.read_header (bytes_after too_large)

  -- A pointer: a null is skipped and leaves the old value; anything else is read by `value`.
  unfoldable pub read_pointer : {A : Type 0} → Option A → Reader A → Reader (Option A)
  read_pointer old value =
      read_then (λ bs. peeked bs (c.peek_byte bs))
        λ pb.
          choose (pb == c.cbor_null) (read_then (read_full 1) (λ nbuf. give old))
            (read_then value (λ v. give (some v)))
    where
      peeked : Bytes → Result ℕ → Result (ℕ × Bytes)
      peeked bs (ok b) = ok (b, bs)
      peeked bs (err e) = err e

  unfoldable pub read_cid : String → Option Cid → Reader (Option Cid)
  unfolding read_pointer
  read_cid failed old = read_pointer old (wrapped failed c.read_cid)

  module _ {A : Type 0} where
    unfoldable pub read_each : Reader A → ℕ → Reader (List A)
    read_each item zero = give []
    read_each item (suc n) = read_then item λ v. read_then (read_each item n) λ vs. give (v ∷ vs)

    -- An empty array leaves the old slice.
    abbrev pub items_or : List A → ℕ → Reader A → Reader (List A)
    items_or old zero item = give old
    items_or old (suc n) item = read_each item (suc n)

    abbrev pub slice_after : String → List A → Reader A → Major × ℕ → Reader (List A)
    slice_after too_large old item (array, extra) =
        choose (ltb c.max_length extra) (refuse (errorf too_large)) (items_or old extra item)
    slice_after too_large old item (maj, extra) =
        choose (ltb c.max_length extra) (refuse (errorf too_large))
          (refuse (errorf "expected cbor array"))

    unfoldable pub read_slice : String → List A → Reader A → Reader (List A)
    unfolding read_each
    read_slice too_large old item = read_then c.read_header (slice_after too_large old item)
