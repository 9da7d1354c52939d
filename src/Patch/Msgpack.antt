-- ===== src/Patch/Msgpack.antt =====
-- The package vmihailenco/msgpack, which is not part of the repository, and Go's float64, as functions.
use hydraide.Base.{
  ◌==◌, ℕ, ◌+◌, ◌-◌, ◌<◌, ◌^◌, ◌≡◌, Bool, true, ◌∷◌, ◌++◌, Option, some, length, ltb, if◌then◌else◌,
}
use hydraide.Base.Bytes.{Bytes}
use hydraide.Patch.Codes.{
  is_map_code, is_array_code, is_string_code, code_int8, code_int16, code_int32, code_int64,
  code_uint8, code_uint16, code_uint32, code_uint64,
}

-- What `Unmarshal` into an `any` gives, as far as it is told apart.
pub data Dynamic : Type 0 where
  a_string a_bytes : Bytes → Dynamic
  a_bool : Bool → Dynamic
  other : Dynamic

-- A decoder takes the bytes that are left, and gives those that are left then; `none` is an error. An
-- int64 is its two's complement, a float64 its bit pattern. The encoders of n-bit integers take a
-- number below 2^n.
pub record Msgpack : Type 0 where
  pub skip : Bytes → Option Bytes
  pub decode_map_len : Bytes → Option (ℕ × Bytes)
  pub decode_array_len : Bytes → Option (ℕ × Bytes)
  pub decode_string : Bytes → Option (Bytes × Bytes)
  pub decode_int64 : Bytes → Option ℕ
  pub decode_uint64 : Bytes → Option ℕ
  pub decode_float64 : Bytes → Option ℕ
  pub unmarshal : Bytes → Option Dynamic
  pub encode_map_len : ℕ → Bytes
  pub encode_array_len : ℕ → Bytes
  pub encode_string : Bytes → Bytes
  pub encode_int8 : ℕ → Bytes
  pub encode_int16 : ℕ → Bytes
  pub encode_int32 : ℕ → Bytes
  pub encode_int64 : ℕ → Bytes
  pub encode_uint8 : ℕ → Bytes
  pub encode_uint16 : ℕ → Bytes
  pub encode_uint32 : ℕ → Bytes
  pub encode_uint64 : ℕ → Bytes
  pub encode_float32 : ℕ → Bytes
  pub encode_float64 : ℕ → Bytes
  pub float_add : ℕ → ℕ → ℕ
  pub float_ltb : ℕ → ℕ → Bool

-- An encoding whose first byte is of a kind.
pub record Starts (kind : ℕ → Bool) (xs : Bytes) : Type 0 where
  pub code : ℕ
  pub tail : Bytes
  pub shape : xs ≡ code ∷ tail
  pub is_kind : kind code ≡ true

-- An n-bit two's complement as one of 64 bits.
abbrev pub sign_extend : ℕ → ℕ → ℕ
sign_extend w n = if ltb n (2 ^ (w - 1)) then n else n + (2 ^ 64 - 2 ^ w)

-- What the package documents of containers and strings: a decoder undoes its encoder, whatever comes
-- next, the encoders' first bytes have the kinds of the format, and a decoder that succeeds has read
-- a byte at least.
pub record Documented (m : Msgpack) : Type 0 where
  pub map_len :
      (n : ℕ) (rest : Bytes)
      → n < 2 ^ 32
      → m.decode_map_len (m.encode_map_len n ++ rest) ≡ some (n, rest)
  pub map_code : (n : ℕ) → Starts is_map_code (m.encode_map_len n)
  pub array_len :
      (n : ℕ) (rest : Bytes)
      → n < 2 ^ 32
      → m.decode_array_len (m.encode_array_len n ++ rest) ≡ some (n, rest)
  pub array_code : (n : ℕ) → Starts (λ c. is_array_code c) (m.encode_array_len n)
  pub string :
      (s rest : Bytes)
      → length s < 2 ^ 32
      → m.decode_string (m.encode_string s ++ rest) ≡ some (s, rest)
  pub string_code : (s : Bytes) → Starts is_string_code (m.encode_string s)
  pub skip_reads : (xs rest : Bytes) → m.skip xs ≡ some rest → length rest < length xs
  pub map_len_reads :
      (xs rest : Bytes) (n : ℕ) → m.decode_map_len xs ≡ some (n, rest) → length rest < length xs
  pub array_len_reads :
      (xs rest : Bytes) (n : ℕ) → m.decode_array_len xs ≡ some (n, rest) → length rest < length xs
  pub string_reads :
      (xs s rest : Bytes) → m.decode_string xs ≡ some (s, rest) → length rest < length xs

-- What it documents of integers: each encoder has a code of its own, and DecodeInt64 and DecodeUint64
-- read what was encoded, with its sign.
pub record DocumentedNumbers (m : Msgpack) : Type 0 where
  pub int8 : (n : ℕ) → n < 2 ^ 8 → m.decode_int64 (m.encode_int8 n) ≡ some (sign_extend 8 n)
  pub int16 : (n : ℕ) → n < 2 ^ 16 → m.decode_int64 (m.encode_int16 n) ≡ some (sign_extend 16 n)
  pub int32 : (n : ℕ) → n < 2 ^ 32 → m.decode_int64 (m.encode_int32 n) ≡ some (sign_extend 32 n)
  pub int64 : (n : ℕ) → n < 2 ^ 64 → m.decode_int64 (m.encode_int64 n) ≡ some n
  pub uint8 : (n : ℕ) → n < 2 ^ 8 → m.decode_uint64 (m.encode_uint8 n) ≡ some n
  pub uint16 : (n : ℕ) → n < 2 ^ 16 → m.decode_uint64 (m.encode_uint16 n) ≡ some n
  pub uint32 : (n : ℕ) → n < 2 ^ 32 → m.decode_uint64 (m.encode_uint32 n) ≡ some n
  pub uint64 : (n : ℕ) → n < 2 ^ 64 → m.decode_uint64 (m.encode_uint64 n) ≡ some n
  pub int8_code : (n : ℕ) → Starts (λ c. c == code_int8) (m.encode_int8 n)
  pub int16_code : (n : ℕ) → Starts (λ c. c == code_int16) (m.encode_int16 n)
  pub int32_code : (n : ℕ) → Starts (λ c. c == code_int32) (m.encode_int32 n)
  pub int64_code : (n : ℕ) → Starts (λ c. c == code_int64) (m.encode_int64 n)
  pub uint8_code : (n : ℕ) → Starts (λ c. c == code_uint8) (m.encode_uint8 n)
  pub uint16_code : (n : ℕ) → Starts (λ c. c == code_uint16) (m.encode_uint16 n)
  pub uint32_code : (n : ℕ) → Starts (λ c. c == code_uint32) (m.encode_uint32 n)
  pub uint64_code : (n : ℕ) → Starts (λ c. c == code_uint64) (m.encode_uint64 n)
