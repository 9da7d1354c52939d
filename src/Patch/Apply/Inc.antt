-- ===== src/Patch/Apply/Inc.antt =====
-- The sums of INC, in msgpackpatch/inc.go.
use hydraide.Base.{ℕ, ◌+◌, ◌^◌, ◌%◌, ◌≡◌, refl, ◌==◌, inl, inr, Bool-cases, arith}
use hydraide.Base.Bytes.{Bytes}
use hydraide.Base.Outcome.{ok}
use hydraide.Patch.Codes.{code_int8, code_int16, code_int32, code_uint8, code_uint16, code_uint32}
use hydraide.Patch.Msgpack.{Msgpack, DocumentedNumbers, sign_extend}
use hydraide.Patch.Numeric.{int_number, uint_number}
use hydraide.Patch.Numeric.Sums.{
  int_width, int_code, uint_width, uint_code, Holds, encode_int-Holds, encode_uint-Holds,
}
use hydraide.Patch.Apply.Ops.{compute_inc_bytes}

int_cut : (code n : ℕ) → n % 2 ^ 64 % 2 ^ int_width code ≡ n % 2 ^ int_width code
int_cut code n = elim (Bool-cases (code == code_int8)) [
  | inl e ↦ rw e (omega arith)
  | inr e ↦ rw e (elim (Bool-cases (code == code_int16)) [
    | inl f ↦ rw f (omega arith)
    | inr f ↦ rw f (elim (Bool-cases (code == code_int32)) [
      | inl g ↦ rw g (omega arith)
      | inr g ↦ rw g (omega arith)
    ])
  ])
]

uint_cut : (code n : ℕ) → n % 2 ^ 64 % 2 ^ uint_width code ≡ n % 2 ^ uint_width code
uint_cut code n = elim (Bool-cases (code == code_uint8)) [
  | inl e ↦ rw e (omega arith)
  | inr e ↦ rw e (elim (Bool-cases (code == code_uint16)) [
    | inl f ↦ rw f (omega arith)
    | inr f ↦ rw f (elim (Bool-cases (code == code_uint32)) [
      | inl g ↦ rw g (omega arith)
      | inr g ↦ rw g (omega arith)
    ])
  ])
]

module _ (m : Msgpack) (d : DocumentedNumbers m) where
  -- With a package that works as documented, the sum of two signed integers keeps the target's
  -- code, where that is of an int8 to int64, and else has that of an int64; it is the sum modulo
  -- two to the width, with its sign.
  pub inc_int :
      (code t delta : ℕ)
      → (raw : Bytes) × (compute_inc_bytes m code (int_number t) (int_number delta) ≡ ok raw)
        × Holds m raw
            (int_code code)
            (int_number (sign_extend (int_width code) ((t + delta) % 2 ^ int_width code)))
  unfolding compute_inc_bytes
  inc_int code t delta = (
    _,
    refl,
    rw (← int_cut code (t + delta))
        (encode_int-Holds m d code ((t + delta) % 2 ^ 64) (omega arith)),
  )

  -- The sum of two unsigned integers keeps the target's code, where that has a width, and is the sum
  -- modulo the two to the width.
  pub inc_uint :
      (code t delta : ℕ)
      → (raw : Bytes) × (compute_inc_bytes m code (uint_number t) (uint_number delta) ≡ ok raw)
        × Holds m raw (uint_code code) (uint_number ((t + delta) % 2 ^ uint_width code))
  unfolding compute_inc_bytes
  inc_uint code t delta = (
    _,
    refl,
    rw (← uint_cut code (t + delta))
        (encode_uint-Holds m d code ((t + delta) % 2 ^ 64) (omega arith)),
  )
