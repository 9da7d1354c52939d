-- ===== src/Patch/Numeric.antt =====
-- msgpackpatch/numeric.go and `computeIncBytes` of inc.go. An int64 is its two's complement.
pub mod Sums
use hydraide.Base.{ℕ, ◌^◌, ◌%◌, [], ◌∷◌, ◌||◌, Option, if◌then◌else◌, ◌==◌}
use hydraide.Base.Bytes.{Bytes}
use hydraide.Base.Outcome.{ok, err, ◌>>=◌}
use hydraide.Patch.Codes.{
  is_float_code, is_positive_fix, is_negative_fix, code_float32, code_uint8, code_uint16,
  code_uint32, code_uint64, code_int8, code_int16, code_int32, code_int64,
}
use hydraide.Patch.Errors.{Result, invalid_msgpack}
use hydraide.Patch.Msgpack.{Msgpack}
use hydraide.Patch.Parse.{or_invalid}

-- numericClass
pub data Class : Type 0 where
  class_none class_int class_uint class_float : Class

unfoldable pub classify_numeric_code : ℕ → Class
classify_numeric_code c =
    if is_float_code c
    then class_float
    else if c == code_int8 || c == code_int16 || c == code_int32 || c == code_int64
    then class_int
    else if c == code_uint8 || c == code_uint16 || c == code_uint32 || c == code_uint64
    then class_uint
    else if is_positive_fix c
    then class_uint
    else if is_negative_fix c
    then class_int
    else class_none

-- The class with the slot that it makes meaningful.
pub data Number : Type 0 where
  not_numeric : Number
  int_number uint_number float_number : ℕ → Number

abbrev pub as_number : (ℕ → Number) → Option ℕ → Result Number
as_number slot n = or_invalid n >>= λ k. ok (slot k)

module _ (m : Msgpack) where
  decode_number : Class → Bytes → Result Number
  decode_number class_none raw = ok not_numeric
  decode_number class_int raw = as_number int_number (m.decode_int64 raw)
  decode_number class_uint raw = as_number uint_number (m.decode_uint64 raw)
  decode_number class_float raw = as_number float_number (m.decode_float64 raw)

  unfoldable pub read_numeric_leaf : Bytes → Result Number
  unfolding decode_number
  read_numeric_leaf [] = err invalid_msgpack
  read_numeric_leaf (c ∷ cs) = decode_number (classify_numeric_code c) (c ∷ cs)

  -- A fixint becomes an int64, or a uint64.
  unfoldable pub encode_int_with_code : ℕ → ℕ → Bytes
  encode_int_with_code code n =
      if code == code_int8
      then m.encode_int8 (n % 2 ^ 8)
      else if code == code_int16
      then m.encode_int16 (n % 2 ^ 16)
      else if code == code_int32
      then m.encode_int32 (n % 2 ^ 32)
      else m.encode_int64 n

  unfoldable pub encode_uint_with_code : ℕ → ℕ → Bytes
  encode_uint_with_code code n =
      if code == code_uint8
      then m.encode_uint8 (n % 2 ^ 8)
      else if code == code_uint16
      then m.encode_uint16 (n % 2 ^ 16)
      else if code == code_uint32
      then m.encode_uint32 (n % 2 ^ 32)
      else m.encode_uint64 n

  -- `encode_float32` rounds the float64 that it is given.
  unfoldable pub encode_float_with_code : ℕ → ℕ → Bytes
  encode_float_with_code code n =
      if code == code_float32 then m.encode_float32 n else m.encode_float64 n
