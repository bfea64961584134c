-- ===== src/Tests/Codec.antt =====
-- A small codec: a header is two numbers, a text is the code points of its characters, a CID is a
-- tag and a number, and the writer keeps what it is given.
use Prim.Native.Char.{Char, char, code, nul, IsScalar}
use Prim.Native.String.{count}
use Prim.Native.String.count.{nil, cons}
use Prim.Native.Nat.{compare, Ordering}
use text.Mathlib.TextEquality.{Char-path}
use storage_fsm.Base.{ℕ, zero, suc, ◌+◌, ◌-◌, ◌<◌, ◌≡◌, refl, sym, ap, ◌∙◌, true, [], ◌∷◌}
use storage_fsm.Base.{
  ◌++◌, length, Bytes, String, ltb, leb, ◌&&◌, if◌then◌else◌, errorf, Result, ok, err, arith,
}
use storage_fsm.Sector.{PieceInfo}
use storage_fsm.Cbor.Stream.{Reader, give, resume, read_then, read_full}
use storage_fsm.Cbor.Services.{
  Cbg, Major, unsigned_int, negative_int, byte_string, text_string, array, map, tag, other,
}
use storage_fsm.Cbor.Behaves.{Behaves}
use storage_fsm.Cbor.Rounds.Values.{read_full-append}

abbrev codes : String → Bytes
codes String.[] = []
codes (String.◌∷◌ c s) = code c ∷ codes s

-- The character of a code point, and NUL for a number that is none.
abbrev char_by :
    (n : ℕ) (o p q : Ordering)
    → compare n 55296 ≡ o
    → compare 57343 n ≡ p
    → compare n 1114112 ≡ q
    → Char
char_by n Ordering.lt p q e f g = char n (rw e tt)
char_by n Ordering.eq Ordering.lt Ordering.lt e f g = char n (rw (e, f, g) tt)
char_by n Ordering.gt Ordering.lt Ordering.lt e f g = char n (rw (e, f, g) tt)
char_by n o p q e f g = nul

abbrev char_of : ℕ → Char
char_of n = char_by n _ _ _ refl refl refl

code-char_by :
    (n : ℕ) (o p q : Ordering) (e : compare n 55296 ≡ o) (f : compare 57343 n ≡ p)
    (g : compare n 1114112 ≡ q)
    → IsScalar n
    → code (char_by n o p q e f g) ≡ n
code-char_by n Ordering.lt p q e f g s = refl
code-char_by n Ordering.eq Ordering.lt Ordering.lt e f g s = refl
code-char_by n Ordering.gt Ordering.lt Ordering.lt e f g s = refl
code-char_by n Ordering.eq Ordering.lt Ordering.eq e f g s = absurd (rw (e, f, g) at s)
code-char_by n Ordering.eq Ordering.lt Ordering.gt e f g s = absurd (rw (e, f, g) at s)
code-char_by n Ordering.gt Ordering.lt Ordering.eq e f g s = absurd (rw (e, f, g) at s)
code-char_by n Ordering.gt Ordering.lt Ordering.gt e f g s = absurd (rw (e, f, g) at s)
code-char_by n Ordering.eq Ordering.eq q e f g s = absurd (rw (e, f) at s)
code-char_by n Ordering.eq Ordering.gt q e f g s = absurd (rw (e, f) at s)
code-char_by n Ordering.gt Ordering.eq q e f g s = absurd (rw (e, f) at s)
code-char_by n Ordering.gt Ordering.gt q e f g s = absurd (rw (e, f) at s)

char_of-code : (c : Char) → char_of (code c) ≡ c
char_of-code (char n s) = Char-path _ _ (code-char_by n _ _ _ refl refl refl s)

abbrev text_of : Bytes → String
text_of [] = String.[]
text_of (b ∷ bs) = String.◌∷◌ (char_of b) (text_of bs)

text_of-codes : (s : String) → text_of (codes s) ≡ s
text_of-codes String.[] = refl
text_of-codes (String.◌∷◌ c s) =
    ap (λ d. String.◌∷◌ d (text_of (codes s))) (char_of-code c)
    ∙ ap (String.◌∷◌ c) (text_of-codes s)

length-codes : (s : String) → length (codes s) ≡ count s
length-codes String.[] = sym nil
length-codes (String.◌∷◌ c s) = omega (arith, length-codes s, cons c s)

abbrev major_code : Major → ℕ
major_code unsigned_int = 0
major_code negative_int = 1
major_code byte_string = 2
major_code text_string = 3
major_code array = 4
major_code map = 5
major_code tag = 6
major_code other = 7

abbrev major_of : ℕ → Major
major_of n = elim n [
  | zero ↦ unsigned_int
  | suc zero ↦ negative_int
  | suc (suc zero) ↦ byte_string
  | suc (suc (suc zero)) ↦ text_string
  | suc (suc (suc (suc zero))) ↦ array
  | suc (suc (suc (suc (suc zero)))) ↦ map
  | suc (suc (suc (suc (suc (suc zero))))) ↦ tag
  | _ ↦ other
]

unfoldable pub header : Reader (Major × ℕ)
header [] = err (errorf "EOF")
header (b ∷ bs) = if leb 160 b && ltb b 184 then ok ((map, b - 160), bs) else number bs
  where
    number : Bytes → Result ((Major × ℕ) × Bytes)
    number [] = err (errorf "EOF")
    number (n ∷ rest) = ok ((major_of b, n), rest)

unfoldable pub text_after : Major × ℕ → Reader String
text_after (maj, n) = read_then (read_full n) λ bs. give (text_of bs)

abbrev byte_at : Bytes → Result ℕ
byte_at [] = err (errorf "EOF")
byte_at (b ∷ bs) = ok b

abbrev cid_at : Reader ℕ
cid_at (t ∷ d ∷ bs) = ok (d, bs)
cid_at _ = err (errorf "EOF")

abbrev piece_at : Reader (PieceInfo ℕ)
piece_at (n ∷ d ∷ bs) = ok (record { size = n; piece_cid = d }, bs)
piece_at _ = err (errorf "EOF")

abbrev keep : Bytes → Bytes → Result (Unit {0}) × Bytes
keep b w = (ok tt, w ++ b)

abbrev pub codec : Cbg ℕ Bytes
codec = record {
  max_length = 8192;
  byte_array_max_len = 2097152;
  cbor_null = 246;
  encode_major_type = λ maj n. major_code maj ∷ n ∷ [];
  read_header = header;
  read_string = read_then header text_after;
  peek_byte = byte_at;
  bytes_of = codes;
  undef = 0;
  read_cid = cid_at;
  read_piece_info = λ old. piece_at;
  write = keep;
  write_cid = λ d. keep (216 ∷ d ∷ []);
  write_piece_info = λ p. keep (p.size ∷ p.piece_cid ∷ []);
}

header_of :
    (maj : Major) (n : ℕ) (rest : Bytes) → header (major_code maj ∷ n ∷ rest) ≡ ok ((maj, n), rest)
unfolding header
header_of unsigned_int n rest = refl
header_of negative_int n rest = refl
header_of byte_string n rest = refl
header_of text_string n rest = refl
header_of array n rest = refl
header_of map n rest = refl
header_of tag n rest = refl
header_of other n rest = refl

small_map : (n : ℕ) (rest : Bytes) → n < 24 → header ((160 + n) ∷ rest) ≡ ok ((map, n), rest)
unfolding header
small_map n rest lt = ground arith

text_read :
    (s : String) (rest : Bytes)
    → read_then header text_after (3 ∷ length (codes s) ∷ codes s ++ rest) ≡ ok (s, rest)
unfolding read_then header text_after give
text_read s rest =
    ap (λ x. resume x (λ bs r. ok (text_of bs, r))) (read_full-append (codes s) rest)
    ∙ ap (λ t. ok (t, rest)) (text_of-codes s)

pub codec-Behaves : Behaves codec
codec-Behaves = record {
  out = λ w. w;
  writes = λ b w. (refl, refl);
  null_byte = refl;
  some_length = omega arith;
  max_length_lt = omega arith;
  byte_array_max_len_lt = omega arith;
  headers = λ maj n rest lt. header_of maj n rest;
  small_maps = small_map;
  utf8 = λ s. omega (arith, length-codes s);
  strings = λ s rest fits. text_read s rest;
  peeks = λ b bs. refl;
  is_cid = λ d. true;
  cid_tag = 216;
  cid_tag_ne_null = ground arith;
  cid_rest = λ d. d ∷ [];
  writes_cid = λ d w h. (refl, refl);
  reads_cid = λ d rest h. refl;
  is_piece_info = λ p. true;
  piece_bytes = λ p. p.size ∷ p.piece_cid ∷ [];
  writes_piece = λ p w h. (refl, refl);
  reads_piece = λ old p rest h. refl;
}

pub cid_written : (d : ℕ) → codec-Behaves.is_cid d ≡ true
unfolding codec-Behaves
cid_written d = refl

pub piece_written : (p : PieceInfo ℕ) → codec-Behaves.is_piece_info p ≡ true
unfolding codec-Behaves
piece_written p = refl
