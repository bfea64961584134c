-- ===== src/Cbor/Rounds/Values.antt =====
-- The kinds of fields, written and read back.
use Prim.Native.String.{count}
use mathlib.Core.List.{append_assoc, append-nil}
use storage_fsm.Base.{ℕ, suc, ◌+◌, ◌-◌, ◌%◌, ◌^◌, ◌<◌, ◌≤◌, ◌≡◌, ◌≢◌, refl, sym, ap, ◌∙◌}
use storage_fsm.Base.{Bool, true, false, Bytes, [], ◌∷◌, ◌++◌, length, Option, none, some}
use storage_fsm.Base.{String, ok, ◌==◌, arith, subst}
use storage_fsm.Base.Int.{ℤ, pos, negsuc, ◌-ℤ◌}
use storage_fsm.Base.Int64.{IsInt64, wrap64, sub64, wrap64_of_IsInt64}
use storage_fsm.Api.Action.{pure, on_nil}
use storage_fsm.Cbor.Stream.{
  Write, Reader, give, choose, after, resume, read_then, read_more, read_full,
}
use storage_fsm.Cbor.Services.{Cbg, Major, unsigned_int, negative_int, byte_string, text_string}
use storage_fsm.Cbor.Values.{
  written, write_null, write_text, write_field, write_uint, write_int, write_bytes, write_cid,
  read_fields, uint_of, read_uint, int_of, read_int, bytes_after, read_bytes, read_pointer,
  read_cid,
}
use storage_fsm.Cbor.Behaves.{Behaves}
use storage_fsm.Cbor.Rounds.{
  Reads, give-Reads, wrapped-Reads, then-Reads, then_stop-Reads, Appends, write-Appends,
  when-Appends, attempt-Appends, then-Appends, Round, Emits,
}

read_more-append : (bs rest : Bytes) → read_more (length bs) (bs ++ rest) ≡ ok (bs, rest)
read_more-append [] rest = refl
read_more-append (b ∷ bs) rest = ap (after b) (read_more-append bs rest)

pub read_full-append : (bs rest : Bytes) → read_full (length bs) (bs ++ rest) ≡ ok (bs, rest)
unfolding read_full
read_full-append [] rest = refl
read_full-append (b ∷ bs) rest = ap (after b) (read_more-append bs rest)

pub choose-Reads :
    {A : Type 0} {t : Bool} (r : Reader A) {k : Reader A} {b : Bytes} {a : A}
    → t ≡ false
    → Reads k b a
    → Reads (choose t r k) b a
unfolding choose
choose-Reads {t = true} r e g = absurd (ground (arith, e))
choose-Reads {t = false} r e g = g

module _ {Cid World : Type 0} (c : Cbg Cid World) (h : Behaves c) where
  header-Reads :
      (maj : Major) (n : ℕ) → n < 2 ^ 64 → Reads c.read_header (c.encode_major_type maj n) (maj, n)
  header-Reads maj n lt = record { at = λ rest. h.headers maj n rest lt }

  pub text-Round :
      (too_long s : String)
      → length (c.bytes_of s) ≤ c.max_length
      → Round c h (write_text c too_long s) c.read_string s
  unfolding write_text
  text-Round too_long s fits = record {
    bytes = c.encode_major_type text_string (length (c.bytes_of s)) ++ c.bytes_of s;
    appends =
        when-Appends c h _ (ground arith)
          (then-Appends c h (write-Appends c h _) (write-Appends c h _));
    reads = record { at = λ rest. h.strings s rest fits };
  }

  -- One round of the loop over the fields.
  pub field-Emits :
      {A : Type 0} (field : String → A → Reader A) (name : String) {value : Write World} {s t : A}
      → count name ≤ 16
      → Round c h value (field name s) t
      → Emits c h field 1 (write_field c name value) s t
  unfolding write_field read_fields read_then
  field-Emits field name {s = s} {t = t} short v =
      let key = text-Round _ name (omega (arith, h.utf8 name, h.some_length)) in
      record {
        bytes = key.bytes ++ v.bytes;
        appends = then-Appends c h key.appends v.appends;
        parses = record {
          at = λ n rest.
              ap (λ j. read_fields c field s j ((key.bytes ++ v.bytes) ++ rest)) (one_more n)
              ∙ after n key.reads v.reads rest;
        };
      }
    where
      one_more : (n : ℕ) → 1 + n ≡ suc n
      one_more n = omega arith

      after :
          {b d : Bytes} (n : ℕ)
          → Reads c.read_string b name
          → Reads (field name s) d t
          → (rest : Bytes)
          → read_fields c field s (suc n) ((b ++ d) ++ rest) ≡ read_fields c field t n rest
      after {b} {d} n k f rest =
          ap (read_fields c field s (suc n)) (append_assoc b d rest)
          ∙ ap (λ x. resume x (λ name'. read_then (field name' s) (λ t'. read_fields c field t' n)))
              (k.at (d ++ rest))
          ∙ ap (λ x. resume x (λ t'. read_fields c field t' n)) (f.at rest)

  pub uint-Round : (n : ℕ) → n < 2 ^ 64 → Round c h (write_uint c n) (read_uint c) n
  unfolding write_uint read_uint
  uint-Round n lt = record {
    bytes = c.encode_major_type unsigned_int n;
    appends = write-Appends c h _;
    reads = then_stop-Reads (uint_of c) (header-Reads unsigned_int n lt) (give-Reads n);
  }

  pub int-Round : (z : ℤ) → IsInt64 z → Round c h (write_int c z) (read_int c) z
  unfolding write_int read_int
  int-Round (pos n) i = record {
    bytes = c.encode_major_type unsigned_int n;
    appends = write-Appends c h _;
    reads =
        then_stop-Reads (int_of c) (header-Reads unsigned_int n (omega (arith, i.0)))
          (rw (wrap64_of_IsInt64 (pos n) i) (choose-Reads _ (ground arith) (give-Reads (pos n))));
  }
  int-Round (negsuc n) i = record {
    bytes = c.encode_major_type negative_int ((suc n % 2 ^ 64 + 2 ^ 64 - 1) % 2 ^ 64);
    appends = write-Appends c h _;
    reads = then_stop-Reads (int_of c) (header-Reads negative_int _ (omega arith)) (
        rw (back, wrap64_of_IsInt64 (pos n) (omega (arith, i.1), omega arith), whole)
          (choose-Reads _ (ground arith) (give-Reads (negsuc n))));
  }
    where
      back : (suc n % 2 ^ 64 + 2 ^ 64 - 1) % 2 ^ 64 ≡ n
      back = omega (arith, i.1)

      whole : sub64 (negsuc 0) (pos n) ≡ negsuc n
      whole = unfold sub64 ◌-ℤ◌ wrap64 in (ground (arith, i.1))

  pub bytes-Round :
      (too_long too_large : String) (bs : Bytes)
      → length bs ≤ c.byte_array_max_len
      → Round c h (write_bytes c too_long bs) (read_bytes c too_large) bs
  unfolding write_bytes read_bytes
  bytes-Round too_long too_large bs fits = record {
    bytes = c.encode_major_type byte_string (length bs) ++ bs;
    appends =
        when-Appends c h _ (ground arith)
          (then-Appends c h (write-Appends c h _) (write-Appends c h _));
    reads =
        then-Reads (bytes_after c too_large)
          (header-Reads byte_string (length bs) (omega (arith, h.byte_array_max_len_lt)))
          (choose-Reads _ (ground arith) (record { at = read_full-append bs }));
  }

  pub written-Appends : Appends c h (written c) []
  unfolding written pure
  written-Appends = record { at = λ w. (refl, sym (append-nil (h.out w))) }

  -- A null byte is skipped.
  pub null_pointer-Reads :
      {A : Type 0} (value : Reader A) → Reads (read_pointer c none value) (c.cbor_null ∷ []) none
  unfolding read_pointer read_then choose read_full give
  null_pointer-Reads value = record { at = λ rest. rw (h.peeks c.cbor_null rest) (ground arith) }

  -- Anything that begins with another byte is read as a value.
  pub pointer-Reads :
      {A : Type 0} {value : Reader A} {b : Bytes} {a : A} (first : ℕ) (tail : Bytes)
      → b ≡ first ∷ tail
      → first ≢ 246
      → Reads value b a
      → Reads (read_pointer c none value) b (some a)
  unfolding read_pointer read_then choose give
  pointer-Reads {value = value} {a = a} first tail e ne r =
      subst (λ d. Reads (read_pointer c none value) d (some a)) (sym e)
        (by (subst (λ d. Reads value d a) e r))
    where
      not_null : (first == c.cbor_null) ≡ false
      not_null = ground (arith, h.null_byte, ne)

      by : Reads value (first ∷ tail) a → Reads (read_pointer c none value) (first ∷ tail) (some a)
      by q = record {
        at = λ rest.
            rw (h.peeks first (tail ++ rest), not_null)
              (ap (λ x. resume x (λ v. give (some v))) (q.at rest));
      }

  pub cid-Round :
      (write_failed read_failed : String) (p : Option Cid)
      → ((d : Cid) → p ≡ some d → h.is_cid d ≡ true)
      → Round c h (write_cid c write_failed p) (read_cid c read_failed none) p
  unfolding write_cid read_cid on_nil write_null
  cid-Round write_failed read_failed none ok_cid = record {
    bytes = c.cbor_null ∷ [];
    appends = write-Appends c h _;
    reads = null_pointer-Reads _;
  }
  cid-Round write_failed read_failed (some d) ok_cid = record {
    bytes = (h.cid_tag ∷ h.cid_rest d) ++ [];
    appends =
        attempt-Appends c h _ (record { at = λ w. h.writes_cid d w (ok_cid d refl) })
          (written-Appends);
    reads = pointer-Reads h.cid_tag (h.cid_rest d ++ []) refl h.cid_tag_ne_null (
        wrapped-Reads read_failed
          (rw append-nil (record { at = λ rest. h.reads_cid d rest (ok_cid d refl) })));
  }
