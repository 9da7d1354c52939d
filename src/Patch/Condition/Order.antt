-- ===== src/Patch/Condition/Order.antt =====
-- What the conditions of msgpackpatch/condition.go say of the values of two leaves.
use hydraide.Base.{
  ℕ, ◌+◌, ◌^◌, ◌%◌, ◌<◌, ◌≡◌, ◌⊎◌, refl, sym, ◌∙◌, true, false, Bool, [], ◌∷◌, some, if◌then◌else◌,
  leb, inl, inr, Bool-cases, arith,
}
use Prim.Native.Nat.{Ordering, compare}
use mathlib.Core.Path.{subst}
use hydraide.Base.Bytes.{Bytes}
use hydraide.Base.Assoc.{bytes_eq}
use hydraide.Base.Outcome.{ok}
use hydraide.Patch.Msgpack.{Msgpack, Dynamic, a_string, a_bytes, a_bool}
use hydraide.Patch.Numeric.{
  Number, not_numeric, int_number, uint_number, float_number, read_numeric_leaf,
}
use hydraide.Patch.Parse.{or_invalid}
use hydraide.Patch.Condition.{
  compare_bytes, cmp_int64, cmp_bool, cmp_float64, compare_dynamic, compare_unmarshalled,
  compare_numbers, compare_leaf_bytes,
}

-- The value of a leaf: a number of 64 bits, a text, bytes, or a truth value.
pub data Value : Type 0 where
  int_value uint_value float_value : ℕ → Value
  string_value bytes_value : Bytes → Value
  bool_value : Bool → Value

-- What a two's complement that stands for a negative number is above it.
abbrev pub bias : ℕ → ℕ
bias n = if leb (2 ^ 63) n then 2 ^ 64 else 0

-- A proper prefix is less, and else the first byte that differs decides.
abbrev pub BytesLess : Bytes → Bytes → Type 0
BytesLess xs [] = ⊥
BytesLess [] (b ∷ ys) = Unit {0}
BytesLess (a ∷ xs) (b ∷ ys) = (a < b) ⊎ ((a ≡ b) × BytesLess xs ys)

module _ (m : Msgpack) where
  -- The order of two values of a kind. No value is less than one of another kind.
  abbrev pub Less : Value → Value → Type 0
  Less (int_value a) (int_value b) = a + bias b < b + bias a
  Less (uint_value a) (uint_value b) = a < b
  Less (float_value a) (float_value b) = m.float_ltb a b ≡ true
  Less (string_value a) (string_value b) = BytesLess a b
  Less (bytes_value a) (bytes_value b) = BytesLess a b
  Less (bool_value false) (bool_value true) = Unit {0}
  Less v w = ⊥

  abbrev pub SameKind : Value → Value → Type 0
  SameKind (int_value a) (int_value b) = Unit {0}
  SameKind (uint_value a) (uint_value b) = Unit {0}
  SameKind (float_value a) (float_value b) = Unit {0}
  SameKind (string_value a) (string_value b) = Unit {0}
  SameKind (bytes_value a) (bytes_value b) = Unit {0}
  SameKind (bool_value a) (bool_value b) = Unit {0}
  SameKind v w = ⊥

  abbrev Unmarshals : Bytes → Dynamic → Type 0
  Unmarshals bs x = (read_numeric_leaf m bs ≡ ok not_numeric) × (m.unmarshal bs ≡ some x)

  -- Bytes are read as a value.
  abbrev pub Denotes : Bytes → Value → Type 0
  Denotes bs (int_value n) = (read_numeric_leaf m bs ≡ ok (int_number n)) × (n < 2 ^ 64)
  Denotes bs (uint_value n) = read_numeric_leaf m bs ≡ ok (uint_number n)
  Denotes bs (float_value n) = read_numeric_leaf m bs ≡ ok (float_number n)
  Denotes bs (string_value s) = Unmarshals bs (a_string s)
  Denotes bs (bytes_value s) = Unmarshals bs (a_bytes s)
  Denotes bs (bool_value b) = Unmarshals bs (a_bool b)

  abbrev pub Says : Ordering → Type 0 → Type 0 → Type 0
  Says Ordering.lt L G = L × ¬ G
  Says Ordering.eq L G = ¬ L × ¬ G
  Says Ordering.gt L G = ¬ L × G

  Says-map :
      {L L' G G' : Type 0} (c : Ordering)
      → (L → L')
      → (L' → L)
      → (G → G')
      → (G' → G)
      → Says c L G
      → Says c L' G'
  Says-map Ordering.lt l l' g g' (h, n) = (l h, λ x. n (g' x))
  Says-map Ordering.eq l l' g g' (h, n) = (λ x. h (l' x), λ x. n (g' x))
  Says-map Ordering.gt l l' g g' (h, n) = (λ x. h (l' x), g n)

  compare-cases :
      (a b : ℕ)
      → ((compare a b ≡ Ordering.lt) × (a < b))
        ⊎ (((compare a b ≡ Ordering.eq) × (a ≡ b)) ⊎ ((compare a b ≡ Ordering.gt) × (b < a)))
  compare-cases a b = ground arith

  numbers-Says : (a b : ℕ) → Says (compare a b) (a < b) (b < a)
  numbers-Says a b = elim (compare-cases a b) [
    | inl (e, h) ↦ rw e (h, λ g. omega arith)
    | inr (inl (e, h)) ↦ rw e (λ g. omega arith, λ g. omega arith)
    | inr (inr (e, h)) ↦ rw e (λ g. omega arith, h)
  ]

  same_first :
      (a b : ℕ) (xs ys : Bytes) → a ≡ b → (a < b) ⊎ ((a ≡ b) × BytesLess xs ys) → BytesLess xs ys
  same_first a b xs ys e (inl h) = absurd (omega arith)
  same_first a b xs ys e (inr (h, less)) = less

  not_first : (a b : ℕ) (xs ys : Bytes) → b < a → ¬ ((a < b) ⊎ ((a ≡ b) × BytesLess xs ys))
  not_first a b xs ys h (inl g) = omega arith
  not_first a b xs ys h (inr (g, less)) = omega arith

  bytes-Says : (a b : Bytes) → Says (compare_bytes a b) (BytesLess a b) (BytesLess b a)
  unfolding compare_bytes
  bytes-Says [] [] = (λ h. h, λ h. h)
  bytes-Says [] (b ∷ ys) = (tt, λ h. h)
  bytes-Says (a ∷ xs) [] = (λ h. h, tt)
  bytes-Says (a ∷ xs) (b ∷ ys) =
      let L = BytesLess (a ∷ xs) (b ∷ ys) in
      let G = BytesLess (b ∷ ys) (a ∷ xs) in
      elim (compare-cases a b) [
        | inl (e, h) ↦
            let eq : compare_bytes (a ∷ xs) (b ∷ ys) ≡ Ordering.lt = rw (e, compare_bytes) refl in
            subst (λ c. Says c L G) (sym eq) (inl h, not_first b a ys xs h)
        | inr (inl (e, h)) ↦
            let eq : compare_bytes (a ∷ xs) (b ∷ ys) ≡ compare_bytes xs ys =
              rw (e, compare_bytes) refl in
            subst (λ c. Says c L G) (sym eq)
              (Says-map (compare_bytes xs ys) (λ l. inr (h, l)) (same_first a b xs ys h)
                (λ l. inr (sym h, l)) (same_first b a ys xs (sym h)) (bytes-Says xs ys))
        | inr (inr (e, h)) ↦
            let eq : compare_bytes (a ∷ xs) (b ∷ ys) ≡ Ordering.gt = rw (e, compare_bytes) refl in
            subst (λ c. Says c L G) (sym eq) (not_first a b xs ys h, inl h)
      ]

  shifted_less :
      (a b : ℕ)
      → a < 2 ^ 64
      → b < 2 ^ 64
      → (a + 2 ^ 63) % 2 ^ 64 < (b + 2 ^ 63) % 2 ^ 64
      → a + bias b < b + bias a
  shifted_less a b ha hb h = ground arith

  less_shifted :
      (a b : ℕ)
      → a < 2 ^ 64
      → b < 2 ^ 64
      → a + bias b < b + bias a
      → (a + 2 ^ 63) % 2 ^ 64 < (b + 2 ^ 63) % 2 ^ 64
  less_shifted a b ha hb h = ground arith

  int-Says :
      (a b : ℕ)
      → a < 2 ^ 64
      → b < 2 ^ 64
      → Says (cmp_int64 a b) (a + bias b < b + bias a) (b + bias a < a + bias b)
  unfolding cmp_int64
  int-Says a b ha hb =
      Says-map (cmp_int64 a b) (shifted_less a b ha hb) (less_shifted a b ha hb)
        (shifted_less b a hb ha) (less_shifted b a hb ha)
        (numbers-Says ((a + 2 ^ 63) % 2 ^ 64) ((b + 2 ^ 63) % 2 ^ 64))

  bool-Says :
      (a b : Bool)
      → Says
          (cmp_bool a b)
          (Less (bool_value a) (bool_value b))
          (Less (bool_value b) (bool_value a))
  unfolding cmp_bool
  bool-Says true true = (λ h. h, λ h. h)
  bool-Says true false = (λ h. h, tt)
  bool-Says false true = (tt, λ h. h)
  bool-Says false false = (λ h. h, λ h. h)

  -- A float64 is not both below and above another, as in IEEE 754.
  abbrev pub Asymmetric : Type 0
  Asymmetric = (a b : ℕ) → m.float_ltb a b ≡ true → m.float_ltb b a ≡ false

  float-Says :
      Asymmetric
      → (a b : ℕ) → Says (cmp_float64 m a b) (m.float_ltb a b ≡ true) (m.float_ltb b a ≡ true)
  unfolding cmp_float64
  float-Says asym a b = elim (Bool-cases (m.float_ltb a b)) [
    | inl e ↦ rw (e, asym a b e) (refl, λ g. cc)
    | inr e ↦ elim (Bool-cases (m.float_ltb b a)) [
      | inl g ↦ rw (e, g) (λ x. cc, refl)
      | inr g ↦ rw (e, g) (λ x. cc, λ x. cc)
    ]
  ]

  abbrev pub Ordered : Bytes → Bytes → Value → Value → Type 0
  Ordered a b v w =
      (c : Ordering) × (compare_leaf_bytes m a b ≡ ok c) × Says c (Less v w) (Less w v)

  numbers_compared :
      (a b : Bytes) (x y : Number)
      → read_numeric_leaf m a ≡ ok x
      → read_numeric_leaf m b ≡ ok y
      → compare_leaf_bytes m a b ≡ compare_numbers m x y (compare_unmarshalled m a b)
  unfolding compare_leaf_bytes read_numeric_leaf
  numbers_compared [] b x y e g = cc
  numbers_compared (i ∷ a) [] x y e g = cc
  numbers_compared (i ∷ a) (j ∷ b) x y e g = rw (e, g) refl

  unmarshalled_compared :
      (a b : Bytes) (x y : Dynamic)
      → Unmarshals a x
      → Unmarshals b y
      → compare_leaf_bytes m a b ≡ compare_dynamic m x y (bytes_eq a b)
  unfolding compare_numbers compare_unmarshalled compare_dynamic or_invalid
  unmarshalled_compared a b x y (e, u) (g, v) =
      numbers_compared a b not_numeric not_numeric e g ∙ rw (u, v) refl

  pub leaves-Ordered :
      Asymmetric
      → (a b : Bytes) (v w : Value) → Denotes a v
      → Denotes b w
      → SameKind v w
      → Ordered a b v w
  unfolding compare_numbers compare_dynamic
  leaves-Ordered asym a b (int_value x) (int_value y) (e, hx) (g, hy) k =
      (cmp_int64 x y, numbers_compared a b _ _ e g, int-Says x y hx hy)
  leaves-Ordered asym a b (uint_value x) (uint_value y) e g k =
      (compare x y, numbers_compared a b _ _ e g, numbers-Says x y)
  leaves-Ordered asym a b (float_value x) (float_value y) e g k =
      (cmp_float64 m x y, numbers_compared a b _ _ e g, float-Says asym x y)
  leaves-Ordered asym a b (string_value x) (string_value y) e g k =
      (compare_bytes x y, unmarshalled_compared a b _ _ e g, bytes-Says x y)
  leaves-Ordered asym a b (bytes_value x) (bytes_value y) e g k =
      (compare_bytes x y, unmarshalled_compared a b _ _ e g, bytes-Says x y)
  leaves-Ordered asym a b (bool_value x) (bool_value y) e g k =
      (cmp_bool x y, unmarshalled_compared a b _ _ e g, bool-Says x y)
  leaves-Ordered asym a b _ _ e g k = absurd k
