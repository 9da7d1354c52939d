-- ===== src/Patch/Path/Brackets.antt =====
-- The texts that `parseSegmentInto` of msgpackpatch/path.go takes between two brackets.
use hydraide.Base.{
  ℕ, zero, suc, ◌+◌, ◌-◌, ◌*◌, ◌^◌, ◌<◌, ◌≤◌, ◌≡◌, ◌⊎◌, inl, inr, refl, sym, ap, ◌∙◌, true, false,
  ◌&&◌, List, [], ◌∷◌, length, some, ◌==◌, leb, All, arith,
}
use native.Mathlib.Numerals.{unary_clauses}
use native.Mathlib.Nat.{add-mul, mul_assoc}
use hydraide.Base.Bytes.{Bytes}
use hydraide.Base.Assoc.{bytes_eq}
use hydraide.Base.Outcome.{ok, ◌>>=◌}
use hydraide.Base.Split.{Without}
use hydraide.Patch.Errors.{Result}
use hydraide.Patch.Path.{
  ℤ, pos, negsuc, Segment, seg_index, seg_append, digits_value, some_digits, positive, negative,
  atoi, parse_inner,
}

-- How the sign of an index is written.
pub data Sign : Type 0 where
  unsigned plus minus : Sign

-- Nothing, or an index: its sign, its first digit and the digits behind it.
pub data Bracket : Type 0 where
  nothing : Bracket
  index : Sign → ℕ → List ℕ → Bracket

-- The number that digits stand for, the first of them with the highest weight.
abbrev pub number : List ℕ → ℕ
number [] = 0
number (d ∷ ds) = d * 10 ^ length ds + number ds

abbrev pub digit_texts : List ℕ → Bytes
digit_texts [] = []
digit_texts (d ∷ ds) = (b'0' + d) ∷ digit_texts ds

abbrev pub signed_text : Sign → Bytes → Bytes
signed_text unsigned text = text
signed_text plus text = b'+' ∷ text
signed_text minus text = b'-' ∷ text

abbrev pub inner_text : Bracket → Bytes
inner_text nothing = []
inner_text (index sign d ds) = signed_text sign (digit_texts (d ∷ ds))

abbrev pub signed_value : Sign → ℕ → ℤ
signed_value unsigned n = pos n
signed_value plus n = pos n
signed_value minus zero = pos 0
signed_value minus (suc n) = negsuc n

abbrev pub bracket_segment : Bracket → Segment
bracket_segment nothing = seg_append
bracket_segment (index sign d ds) = seg_index (signed_value sign (number (d ∷ ds)))

-- An int64 holds the number with its sign.
abbrev pub InRange : Sign → ℕ → Type 0
InRange unsigned n = n < 2 ^ 63
InRange plus n = n < 2 ^ 63
InRange minus n = n ≤ 2 ^ 63

abbrev pub IsBracket : Bracket → Type 0
IsBracket nothing = Unit {0}
IsBracket (index sign d ds) = All (λ c. c < 10) (d ∷ ds) × InRange sign (number (d ∷ ds))

weighed : (n d p v : ℕ) → (n * 10 + d) * p + v ≡ n * (10 * p) + (d * p + v)
weighed n d p v = omega (arith, add-mul (n * 10) d p, mul_assoc n 10 p)

ten_times : (l : ℕ) → 10 ^ suc l ≡ 10 * 10 ^ l
ten_times l = simp unary_clauses (omega arith)

is_digit : (d : ℕ) → d < 10 → (leb b'0' (b'0' + d) && leb (b'0' + d) b'9') ≡ true
is_digit d h = ground arith

digits_value-number :
    (n : ℕ) (ds : List ℕ)
    → All (λ c. c < 10) ds
    → digits_value n (digit_texts ds) ≡ some (n * 10 ^ length ds + number ds)
unfolding digits_value
digits_value-number n [] h = let same : n ≡ n * 1 + 0 = omega arith in ap (λ x. some x) same
digits_value-number n (d ∷ ds) (small, h) =
    let back : b'0' + d - b'0' ≡ d = omega arith in
    rw (is_digit d small, back)
      (digits_value-number (n * 10 + d) ds h
        ∙ ap (λ x. some x) (weighed n d (10 ^ length ds) (number ds))
        ∙ ap (λ p. some (n * p + number (d ∷ ds))) (sym (ten_times (length ds))))

other_byte : (c d : ℕ) → (c < b'0') ⊎ (b'9' < c) → d < 10 → ((b'0' + d) == c) ≡ false
other_byte c d (inl h) small = ground arith
other_byte c d (inr h) small = ground arith

digits-Without :
    (c : ℕ) (ds : List ℕ)
    → (c < b'0') ⊎ (b'9' < c)
    → All (λ d. d < 10) ds
    → Without c (digit_texts ds)
digits-Without c [] out h = tt
digits-Without c (d ∷ ds) out (small, h) = (other_byte c d out small, digits-Without c ds out h)

-- Neither a dot nor a closing bracket is a digit or a sign.
pub inner-Without :
    (c : ℕ) (b : Bracket)
    → (c < b'0') ⊎ (b'9' < c)
    → (b'+' == c) ≡ false
    → (b'-' == c) ≡ false
    → IsBracket b
    → Without c (inner_text b)
inner-Without c nothing out p m h = tt
inner-Without c (index unsigned d ds) out p m h = digits-Without c (d ∷ ds) out h.0
inner-Without c (index plus d ds) out p m h = (p, digits-Without c (d ∷ ds) out h.0)
inner-Without c (index minus d ds) out p m h = (m, digits-Without c (d ∷ ds) out h.0)

digits_read :
    (d : ℕ) (ds : List ℕ)
    → All (λ c. c < 10) (d ∷ ds)
    → digits_value 0 (digit_texts (d ∷ ds)) ≡ some (number (d ∷ ds))
digits_read d ds h =
    let same : 0 * 10 ^ length (d ∷ ds) + number (d ∷ ds) ≡ number (d ∷ ds) = omega arith in
    digits_value-number 0 (d ∷ ds) h ∙ ap (λ x. some x) same

positive_in_range : (n : ℕ) → n < 2 ^ 63 → positive (some n) ≡ ok (pos n)
unfolding positive
positive_in_range n h = ground arith

negative_in_range : (n : ℕ) → n ≤ 2 ^ 63 → negative (some n) ≡ ok (signed_value minus n)
unfolding negative
negative_in_range zero h = refl
negative_in_range (suc n) h = ground arith

then_index : (r : Result ℤ) (n : ℤ) → r ≡ ok n → (r >>= λ m. ok (seg_index m)) ≡ ok (seg_index n)
then_index r n e = rw e refl

pub parse_inner-text :
    (b : Bracket) → IsBracket b → parse_inner (inner_text b) ≡ ok (bracket_segment b)
unfolding parse_inner atoi some_digits bytes_eq
parse_inner-text nothing h = refl
parse_inner-text (index unsigned d ds) (small, range) =
    rw
      (
        other_byte b'*' d (inl (omega arith)) small.0,
        other_byte b'-' d (inl (omega arith)) small.0,
        other_byte b'+' d (inl (omega arith)) small.0,
      )
      (then_index _ _
        (ap positive (digits_read d ds small) ∙ positive_in_range (number (d ∷ ds)) range))
parse_inner-text (index plus d ds) (small, range) =
    then_index _ _
      (ap positive (digits_read d ds small) ∙ positive_in_range (number (d ∷ ds)) range)
parse_inner-text (index minus d ds) (small, range) =
    then_index _ _
      (ap negative (digits_read d ds small) ∙ negative_in_range (number (d ∷ ds)) range)
