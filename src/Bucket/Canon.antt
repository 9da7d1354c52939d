-- ===== src/Bucket/Canon.antt =====
-- bucket/valuecanon/valuecanon.go. An int64 is its two's complement, a float64 its bit pattern.
use hydraide.Base.{
  ℕ, ◌*◌, ◌^◌, ◌%◌, ◌≡◌, refl, ap, Bool, true, false, ◌&&◌, ◌||◌, not, Option, none, some,
  if◌then◌else◌, ◌==◌, ltb, arith,
}
use hydraide.Base.Bytes.{Bytes}
use hydraide.Base.Assoc.{bytes_eq, bytes_eq_iff, bytes_eq→eq}

-- What msgpack.Unmarshal makes of a value, as far as `Canonicalize` tells it apart.
mutual
  pub data Value : Type 0 where
    nil_value other_value : Value
    bool_value : Bool → Value
    int_value uint_value float_value time_value : ℕ → Value
    string_value : Bytes → Value
    map_value : Members → Value

  pub data Members : Type 0 where
    no_members : Members
    member : Bytes → Value → Members → Members

pub data Key : Type 0 where
  null_key : Key
  bool_key : Bool → Key
  int_key uint_key float_key : ℕ → Key
  string_key : Bytes → Key

-- A time is its Unix seconds. Every width of an integer is widened.
unfoldable pub canonicalize : Value → Key
canonicalize nil_value = null_key
canonicalize (bool_value b) = bool_key b
canonicalize (int_value n) = int_key n
canonicalize (uint_value n) = uint_key n
canonicalize (float_value n) = float_key n
canonicalize (string_value s) = string_key s
canonicalize (time_value n) = int_key n
canonicalize (map_value ms) = null_key
canonicalize other_value = null_key

-- A float64 that is not a number, and the two zeros.
is_nan : ℕ → Bool
is_nan n = ltb (0x7ff * 2 ^ 52) (n % 2 ^ 63)

is_zero : ℕ → Bool
is_zero n = n % 2 ^ 63 == 0

-- `==` of float64
unfoldable pub float_eq : ℕ → ℕ → Bool
unfolding is_nan is_zero
float_eq a b = not (is_nan a) && not (is_nan b) && (a == b || is_zero a && is_zero b)

unfoldable pub bool_eq : Bool → Bool → Bool
bool_eq true b = b
bool_eq false b = not b

-- `==` of keys, which is that of Go's map
unfoldable pub key_eq : Key → Key → Bool
unfolding bool_eq
key_eq null_key null_key = true
key_eq (bool_key a) (bool_key b) = bool_eq a b
key_eq (int_key a) (int_key b) = a == b
key_eq (uint_key a) (uint_key b) = a == b
key_eq (float_key a) (float_key b) = float_eq a b
key_eq (string_key a) (string_key b) = bytes_eq a b
key_eq _ _ = false

pub key_eq-sym : (a b : Key) → key_eq a b ≡ true → key_eq b a ≡ true
unfolding key_eq float_eq
key_eq-sym null_key null_key h = refl
key_eq-sym (bool_key a) (bool_key b) h = ground arith
key_eq-sym (int_key a) (int_key b) h = ground arith
key_eq-sym (uint_key a) (uint_key b) h = ground arith
key_eq-sym (float_key a) (float_key b) h = ground arith
key_eq-sym (string_key a) (string_key b) h = ground (arith, bytes_eq_iff a b, bytes_eq_iff b a)
key_eq-sym _ _ h = cc

pub key_eq_trans : (a b c : Key) → key_eq a b ≡ true → key_eq b c ≡ true → key_eq a c ≡ true
unfolding key_eq
key_eq_trans null_key null_key null_key h g = refl
key_eq_trans (bool_key a) (bool_key b) (bool_key c) h g = ground arith
key_eq_trans (int_key a) (int_key b) (int_key c) h g = ground arith
key_eq_trans (uint_key a) (uint_key b) (uint_key c) h g = ground arith
key_eq_trans (float_key a) (float_key b) (float_key c) h g = unfold float_eq in ground arith
key_eq_trans (string_key a) (string_key b) (string_key c) h g =
    ground (arith, bytes_eq_iff a b, bytes_eq_iff b c, bytes_eq_iff a c)
key_eq_trans _ _ _ h g = cc

-- Go's conversions between float64 and the integers of 64 bits.
pub record Conversions : Type 0 where
  pub of_int : ℕ → ℕ
  pub of_uint : ℕ → ℕ
  pub to_int : ℕ → ℕ
  pub to_uint : ℕ → ℕ

module _ (f : Conversions) where
  -- A conversion is lossless when the way back gives the same number.
  unfoldable pub to_float64_lossless : Key → Option ℕ
  to_float64_lossless (float_key n) = some n
  to_float64_lossless (int_key n) = if f.to_int (f.of_int n) == n then some (f.of_int n) else none
  to_float64_lossless (uint_key n) =
      if f.to_uint (f.of_uint n) == n then some (f.of_uint n) else none
  to_float64_lossless _ = none

  unfoldable pub same_float : Option ℕ → Option ℕ → Bool
  same_float (some a) (some b) = float_eq a b
  same_float _ _ = false

  -- An int64 that is not negative, and a uint64.
  abbrev same_magnitude : ℕ → ℕ → Bool
  same_magnitude i u = ltb i (2 ^ 63) && i == u

  -- `Equal`
  unfoldable pub equal : Key → Key → Bool
  unfolding to_float64_lossless same_float
  equal (float_key a) (int_key b) = same_float (some a) (to_float64_lossless (int_key b))
  equal (float_key a) (uint_key b) = same_float (some a) (to_float64_lossless (uint_key b))
  equal (int_key a) (float_key b) = same_float (to_float64_lossless (int_key a)) (some b)
  equal (uint_key a) (float_key b) = same_float (to_float64_lossless (uint_key a)) (some b)
  equal (int_key a) (uint_key b) = same_magnitude a b
  equal (uint_key a) (int_key b) = same_magnitude b a
  equal a b = key_eq a b

  float-same :
      (a b : ℕ) (o : Option ℕ) → float_eq a b ≡ true → same_float (some a) o ≡ same_float (some b) o
  unfolding same_float float_eq
  float-same a b none h = refl
  float-same a b (some c) h = ground arith

  number_eq : (a b : ℕ) → (a == b) ≡ true → a ≡ b
  number_eq a b h = ground arith

  -- Keys that are the same are equal to the same keys.
  pub equal-same : (a b w : Key) → key_eq a b ≡ true → equal a w ≡ equal b w
  unfolding equal key_eq
  equal-same null_key null_key w h = refl
  equal-same (bool_key true) (bool_key true) w h = refl
  equal-same (bool_key false) (bool_key false) w h = refl
  equal-same (int_key a) (int_key b) w h = ap (λ n. equal (int_key n) w) (number_eq a b h)
  equal-same (uint_key a) (uint_key b) w h = ap (λ n. equal (uint_key n) w) (number_eq a b h)
  equal-same (string_key a) (string_key b) w h =
      ap (λ n. equal (string_key n) w) (bytes_eq→eq a b h)
  equal-same (float_key a) (float_key b) (float_key c) h = float-same a b (some c) h
  equal-same (float_key a) (float_key b) (int_key c) h =
      float-same a b (to_float64_lossless (int_key c)) h
  equal-same (float_key a) (float_key b) (uint_key c) h =
      float-same a b (to_float64_lossless (uint_key c)) h
  equal-same (float_key a) (float_key b) null_key h = refl
  equal-same (float_key a) (float_key b) (bool_key c) h = refl
  equal-same (float_key a) (float_key b) (string_key c) h = refl
  equal-same _ _ w h = cc

  -- A key that is the same as another is equal to it.
  pub equal-key_eq : (a b : Key) → key_eq a b ≡ true → equal a b ≡ true
  unfolding equal key_eq
  equal-key_eq null_key null_key h = refl
  equal-key_eq (bool_key a) (bool_key b) h = h
  equal-key_eq (int_key a) (int_key b) h = h
  equal-key_eq (uint_key a) (uint_key b) h = h
  equal-key_eq (string_key a) (string_key b) h = h
  equal-key_eq (float_key a) (float_key b) h = h
  equal-key_eq _ _ h = cc
