-- ===== src/Patch/Numeric/Sums.antt =====
-- The integers that the encoders of msgpackpatch/numeric.go leave for `readNumericLeaf`.
use hydraide.Base.{
  ℕ, ◌^◌, ◌%◌, ◌<◌, ◌≡◌, refl, ◌∷◌, some, if◌then◌else◌, ◌==◌, inl, inr, Bool-cases, arith,
}
use hydraide.Base.Bytes.{Bytes}
use hydraide.Base.Outcome.{ok}
use hydraide.Patch.Codes.{
  is_float_code, code_uint8, code_uint16, code_uint32, code_uint64, code_int8, code_int16,
  code_int32, code_int64,
}
use hydraide.Patch.Msgpack.{Msgpack, DocumentedNumbers, Starts, sign_extend}
use hydraide.Patch.Numeric.{
  Number, int_number, uint_number, class_int, class_uint, classify_numeric_code, read_numeric_leaf,
  decode_number, encode_int_with_code, encode_uint_with_code,
}
use hydraide.Patch.Parse.{or_invalid}
use hydraide.Patch.Skeleton.{first_byte}

-- The width of the integer that a code stands for, and the code that is written for it.
abbrev pub int_width : ℕ → ℕ
int_width code =
    if code == code_int8
    then 8
    else if code == code_int16
    then 16
    else if code == code_int32
    then 32
    else 64

abbrev pub int_code : ℕ → ℕ
int_code code =
    if code == code_int8
    then code_int8
    else if code == code_int16
    then code_int16
    else if code == code_int32
    then code_int32
    else code_int64

abbrev pub uint_width : ℕ → ℕ
uint_width code =
    if code == code_uint8
    then 8
    else if code == code_uint16
    then 16
    else if code == code_uint32
    then 32
    else 64

abbrev pub uint_code : ℕ → ℕ
uint_code code =
    if code == code_uint8
    then code_uint8
    else if code == code_uint16
    then code_uint16
    else if code == code_uint32
    then code_uint32
    else code_uint64

small64 : (n : ℕ) → n < 2 ^ 64 → n % 2 ^ 64 ≡ n
small64 n h = omega arith

sign64 : (n : ℕ) → n < 2 ^ 64 → sign_extend 64 (n % 2 ^ 64) ≡ n
sign64 n h = ground arith

module _ (m : Msgpack) where
  -- The bytes hold a number, under a code.
  abbrev pub Holds : Bytes → ℕ → Number → Type 0
  Holds raw code number = (first_byte raw ≡ code) × (read_numeric_leaf m raw ≡ ok number)

  int_holds :
      (raw : Bytes) (k n : ℕ)
      → classify_numeric_code k ≡ class_int
      → Starts (λ c. c == k) raw
      → m.decode_int64 raw ≡ some n
      → Holds raw k (int_number n)
  unfolding read_numeric_leaf decode_number or_invalid
  int_holds raw k n kind s e =
      let same : s.code ≡ k = ground (arith, s.is_kind) in
      let raw_shape : raw ≡ k ∷ s.tail = cc (s.shape) in
      let decoded : m.decode_int64 (k ∷ s.tail) ≡ some n = cc in
      rw raw_shape (refl, rw (kind, decoded) refl)

  uint_holds :
      (raw : Bytes) (k n : ℕ)
      → classify_numeric_code k ≡ class_uint
      → Starts (λ c. c == k) raw
      → m.decode_uint64 raw ≡ some n
      → Holds raw k (uint_number n)
  unfolding read_numeric_leaf decode_number or_invalid
  uint_holds raw k n kind s e =
      let same : s.code ≡ k = ground (arith, s.is_kind) in
      let raw_shape : raw ≡ k ∷ s.tail = cc (s.shape) in
      let decoded : m.decode_uint64 (k ∷ s.tail) ≡ some n = cc in
      rw raw_shape (refl, rw (kind, decoded) refl)

  module _ (d : DocumentedNumbers m) where
    -- What INC writes for an integer: the code stays, where it has one of its own, and the value is cut
    -- to its width, with its sign.
    pub encode_int-Holds :
        (code n : ℕ)
        → n < 2 ^ 64
        → Holds
            (encode_int_with_code m code n)
            (int_code code)
            (int_number (sign_extend (int_width code) (n % 2 ^ int_width code)))
    unfolding encode_int_with_code classify_numeric_code is_float_code
    encode_int-Holds code n h = elim (Bool-cases (code == code_int8)) [
      | inl e ↦ rw e (
          int_holds _ code_int8 _ refl (d.int8_code (n % 2 ^ 8)) (d.int8 (n % 2 ^ 8) (omega arith)))
      | inr e ↦ rw e (elim (Bool-cases (code == code_int16)) [
        | inl f ↦ rw f (
            int_holds _ code_int16 _ refl (d.int16_code (n % 2 ^ 16))
              (d.int16 (n % 2 ^ 16) (omega arith)))
        | inr f ↦ rw f (elim (Bool-cases (code == code_int32)) [
          | inl g ↦ rw g (
              int_holds _ code_int32 _ refl (d.int32_code (n % 2 ^ 32))
                (d.int32 (n % 2 ^ 32) (omega arith)))
          | inr g ↦
              rw (g, sign64 n h) (int_holds _ code_int64 n refl (d.int64_code n) (d.int64 n h))
        ])
      ])
    ]

    pub encode_uint-Holds :
        (code n : ℕ)
        → n < 2 ^ 64
        → Holds
            (encode_uint_with_code m code n)
            (uint_code code)
            (uint_number (n % 2 ^ uint_width code))
    unfolding encode_uint_with_code classify_numeric_code is_float_code
    encode_uint-Holds code n h = elim (Bool-cases (code == code_uint8)) [
      | inl e ↦ rw e (
          uint_holds _ code_uint8 _ refl (d.uint8_code (n % 2 ^ 8))
            (d.uint8 (n % 2 ^ 8) (omega arith)))
      | inr e ↦ rw e (elim (Bool-cases (code == code_uint16)) [
        | inl f ↦ rw f (
            uint_holds _ code_uint16 _ refl (d.uint16_code (n % 2 ^ 16))
              (d.uint16 (n % 2 ^ 16) (omega arith)))
        | inr f ↦ rw f (elim (Bool-cases (code == code_uint32)) [
          | inl g ↦ rw g (
              uint_holds _ code_uint32 _ refl (d.uint32_code (n % 2 ^ 32))
                (d.uint32 (n % 2 ^ 32) (omega arith)))
          | inr g ↦
              rw (g, small64 n h) (uint_holds _ code_uint64 n refl (d.uint64_code n) (d.uint64 n h))
        ])
      ])
    ]
