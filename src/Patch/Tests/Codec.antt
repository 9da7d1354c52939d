-- ===== src/Patch/Tests/Codec.antt =====
-- A codec that does what is documented: the wide forms of the format, little-endian.
use hydraide.Base.{
  ℕ, suc, ◌<◌, ◌≡◌, refl, sym, ap, ◌∙◌, true, [], ◌∷◌, ◌++◌, append_assoc, append-nil, Option, none,
  some, if◌then◌else◌, ◌==◌, leb, ltb, length, take, drop, length-append, length-drop, take-append,
  drop-append, inl, inr, Bool-cases, arith,
}
use hydraide.Base.Bytes.{Bytes, put_le, get_le, bound, length-put_le, get_le-put_le}
use hydraide.Patch.Codes.{
  is_map_code, is_array_code, is_string_code, code_uint8, code_uint16, code_uint32, code_uint64,
  code_int8, code_int16, code_int32, code_int64,
}
use hydraide.Patch.Msgpack.{Msgpack, Documented, DocumentedNumbers, other, sign_extend}

-- A code, and a number of w bytes.
abbrev tagged : ℕ → ℕ → ℕ → Bytes
tagged code w n = code ∷ put_le w n

unfoldable untag : ℕ → ℕ → Bytes → Option (ℕ × Bytes)
untag code w [] = none
untag code w (c ∷ cs) =
    if c == code
    then (if leb w (length cs) then some (get_le (take w cs), drop w cs) else none)
    else none

-- The first so many bytes.
unfoldable cut_at : Option (ℕ × Bytes) → Option (Bytes × Bytes)
cut_at none = none
cut_at (some (n, rest)) = if leb n (length rest) then some (take n rest, drop n rest) else none

take-app : (w : ℕ) (xs ys : Bytes) → length xs ≡ w → take w (xs ++ ys) ≡ xs
take-app w xs ys e = rw (← e) (take-append xs ys)

drop-app : (w : ℕ) (xs ys : Bytes) → length xs ≡ w → drop w (xs ++ ys) ≡ ys
drop-app w xs ys e = rw (← e) (drop-append xs ys)

same_code : (c : ℕ) → (c == c) ≡ true
same_code c = ground arith

untag-tagged :
    (code w n : ℕ) (rest : Bytes)
    → n < bound w
    → untag code w (tagged code w n ++ rest) ≡ some (n, rest)
unfolding untag
untag-tagged code w n rest h =
    let enough : leb w (length (put_le w n ++ rest)) ≡ true =
      ground (arith, length-append (put_le w n) rest, length-put_le w n) in
    rw
      (
        same_code code,
        enough,
        take-app w (put_le w n) rest (length-put_le w n),
        drop-app w (put_le w n) rest (length-put_le w n),
        get_le-put_le w n h,
      )
      refl

untag_whole : (code w n : ℕ) → n < bound w → untag code w (tagged code w n) ≡ some (n, [])
untag_whole code w n h =
    ap (λ xs. untag code w xs) (sym (append-nil (tagged code w n))) ∙ untag-tagged code w n [] h

untag_reads :
    (code w n : ℕ) (xs rest : Bytes) → untag code w xs ≡ some (n, rest) → length rest < length xs
unfolding untag
untag_reads code w n [] rest h = cc
untag_reads code w n (c ∷ cs) rest h = ground (arith, length-drop w cs)

cut_at-append : (s rest : Bytes) → cut_at (some (length s, s ++ rest)) ≡ some (s, rest)
unfolding cut_at
cut_at-append s rest =
    let enough : leb (length s) (length (s ++ rest)) ≡ true =
      ground (arith, length-append s rest) in
    rw (enough, take-append s rest, drop-append s rest) refl

cut_at_reads :
    (o : Option (ℕ × Bytes)) (s rest xs : Bytes)
    → ((n : ℕ) (left : Bytes) → o ≡ some (n, left) → length left < length xs)
    → cut_at o ≡ some (s, rest)
    → length rest < length xs
unfolding cut_at
cut_at_reads none s rest xs reads h = cc
cut_at_reads (some (k, left)) s rest xs reads h =
    ground (arith, reads k left refl, length-drop k left)

or_else : Option ℕ → Option ℕ → Option ℕ
or_else none o = o
or_else (some n) o = some n

number_in : ℕ → ℕ → Bytes → Option ℕ
number_in code w xs = elim (untag code w xs) [ none ↦ none | some (n, rest) ↦ some n ]

signed : ℕ → Option ℕ → Option ℕ
signed w none = none
signed w (some n) = some (sign_extend w n)

abbrev decode_signed : Bytes → Option ℕ
decode_signed xs = or_else (signed 8 (number_in code_int8 1 xs)) (
    or_else (signed 16 (number_in code_int16 2 xs))
      (or_else (signed 32 (number_in code_int32 4 xs)) (number_in code_int64 8 xs)))

abbrev decode_unsigned : Bytes → Option ℕ
decode_unsigned xs = or_else (number_in code_uint8 1 xs) (
    or_else (number_in code_uint16 2 xs)
      (or_else (number_in code_uint32 4 xs) (number_in code_uint64 8 xs)))

rest_of : Option (ℕ × Bytes) → Option Bytes
rest_of none = none
rest_of (some (n, rest)) = some rest

rest_of_reads :
    (o : Option (ℕ × Bytes)) (rest xs : Bytes)
    → ((n : ℕ) (left : Bytes) → o ≡ some (n, left) → length left < length xs)
    → rest_of o ≡ some rest
    → length rest < length xs
unfolding rest_of
rest_of_reads none rest xs reads h = cc
rest_of_reads (some (k, left)) rest xs reads h = ground (arith, reads k left refl)

string-Documented :
    (s rest : Bytes)
    → length s < bound 4
    → cut_at (untag 0xdb 4 ((tagged 0xdb 4 (length s) ++ s) ++ rest)) ≡ some (s, rest)
string-Documented s rest h =
    ap (λ xs. cut_at (untag 0xdb 4 xs)) (append_assoc (tagged 0xdb 4 (length s)) s rest)
    ∙ (ap cut_at (untag-tagged 0xdb 4 (length s) (s ++ rest) h) ∙ cut_at-append s rest)

-- One byte for a fixint, and the form of an int8.
skip_value : Bytes → Option Bytes
skip_value [] = none
skip_value (c ∷ cs) = if leb c 0x7f then some cs else rest_of (untag code_int8 1 (c ∷ cs))

unfoldable pub codec : Msgpack
unfolding untag cut_at or_else number_in signed skip_value rest_of
codec = record {
  skip = skip_value;
  decode_map_len = untag 0xdf 4;
  decode_array_len = untag 0xdd 4;
  decode_string = λ xs. cut_at (untag 0xdb 4 xs);
  decode_int64 = λ xs. decode_signed xs;
  decode_uint64 = λ xs. decode_unsigned xs;
  decode_float64 = λ xs. none;
  unmarshal = λ xs. some other;
  encode_map_len = tagged 0xdf 4;
  encode_array_len = tagged 0xdd 4;
  encode_string = λ s. tagged 0xdb 4 (length s) ++ s;
  encode_int8 = tagged code_int8 1;
  encode_int16 = tagged code_int16 2;
  encode_int32 = tagged code_int32 4;
  encode_int64 = tagged code_int64 8;
  encode_uint8 = tagged code_uint8 1;
  encode_uint16 = tagged code_uint16 2;
  encode_uint32 = tagged code_uint32 4;
  encode_uint64 = tagged code_uint64 8;
  encode_float32 = λ n. [];
  encode_float64 = λ n. [];
  float_add = λ a b. a;
  float_ltb = λ a b. ltb a b;
}

short : (cs rest : Bytes) → some cs ≡ some rest → length rest < suc (length cs)
short cs rest h = let same : cs ≡ rest = cc in rw (← same) (omega arith)

skip_value_reads : (xs rest : Bytes) → skip_value xs ≡ some rest → length rest < length xs
unfolding skip_value
skip_value_reads [] rest h = cc
skip_value_reads (c ∷ cs) rest h = elim (Bool-cases (leb c 0x7f)) [
  | inl small ↦ let same : some cs ≡ some rest = rw small at h in short cs rest same
  | inr large ↦
      rest_of_reads (untag code_int8 1 (c ∷ cs)) rest (c ∷ cs)
        (λ n left e. untag_reads code_int8 1 n (c ∷ cs) left e) (rw large at h)
]

pub codec-Documented : Documented codec
unfolding codec is_map_code is_array_code is_string_code
codec-Documented = record {
  map_len = λ n rest h. untag-tagged 0xdf 4 n rest (omega arith);
  map_code = λ n. record { code = 0xdf; tail = put_le 4 n; shape = refl; is_kind = refl };
  array_len = λ n rest h. untag-tagged 0xdd 4 n rest (omega arith);
  array_code = λ n. record { code = 0xdd; tail = put_le 4 n; shape = refl; is_kind = refl };
  string = λ s rest h. string-Documented s rest (omega arith);
  string_code =
      λ s. record { code = 0xdb; tail = put_le 4 (length s) ++ s; shape = refl; is_kind = refl };
  skip_reads = skip_value_reads;
  map_len_reads = λ xs rest n e. untag_reads 0xdf 4 n xs rest e;
  array_len_reads = λ xs rest n e. untag_reads 0xdd 4 n xs rest e;
  string_reads = λ xs s rest e.
      cut_at_reads (untag 0xdb 4 xs) s rest xs (λ n left f. untag_reads 0xdb 4 n xs left f) e;
}

pub codec-DocumentedNumbers : DocumentedNumbers codec
unfolding codec
codec-DocumentedNumbers = record {
  int8 = λ n h. ap (λ k. some (sign_extend 8 k)) (get_le-put_le 1 n (omega arith));
  int16 = λ n h. ap (λ k. some (sign_extend 16 k)) (get_le-put_le 2 n (omega arith));
  int32 = λ n h. ap (λ k. some (sign_extend 32 k)) (get_le-put_le 4 n (omega arith));
  int64 = λ n h. ap (λ k. some k) (get_le-put_le 8 n (omega arith));
  uint8 = λ n h. ap (λ k. some k) (get_le-put_le 1 n (omega arith));
  uint16 = λ n h. ap (λ k. some k) (get_le-put_le 2 n (omega arith));
  uint32 = λ n h. ap (λ k. some k) (get_le-put_le 4 n (omega arith));
  uint64 = λ n h. ap (λ k. some k) (get_le-put_le 8 n (omega arith));
  int8_code = λ n. record { code = code_int8; tail = put_le 1 n; shape = refl; is_kind = refl };
  int16_code = λ n. record { code = code_int16; tail = put_le 2 n; shape = refl; is_kind = refl };
  int32_code = λ n. record { code = code_int32; tail = put_le 4 n; shape = refl; is_kind = refl };
  int64_code = λ n. record { code = code_int64; tail = put_le 8 n; shape = refl; is_kind = refl };
  uint8_code = λ n. record { code = code_uint8; tail = put_le 1 n; shape = refl; is_kind = refl };
  uint16_code = λ n. record { code = code_uint16; tail = put_le 2 n; shape = refl; is_kind = refl };
  uint32_code = λ n. record { code = code_uint32; tail = put_le 4 n; shape = refl; is_kind = refl };
  uint64_code = λ n. record { code = code_uint64; tail = put_le 8 n; shape = refl; is_kind = refl };
}
