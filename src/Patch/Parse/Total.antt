-- ===== src/Patch/Parse/Total.antt =====
-- The parser of msgpackpatch/skeleton.go comes to an end.
use hydraide.Base.{
  ℕ, zero, suc, ◌-◌, ◌≤◌, ◌<◌, ◌≡◌, ◌≢◌, refl, [], ◌∷◌, Option, none, some, length, inl, inr,
  Bool-cases, arith,
}
use hydraide.Base.Bytes.{Bytes}
use hydraide.Base.Outcome.{ok, err, ◌>>=◌}
use hydraide.Patch.Codes.{is_map_code, is_array_code, is_string_code}
use hydraide.Patch.Errors.{Result, out_of_fuel, invalid_msgpack}
use hydraide.Patch.Msgpack.{Msgpack, Documented}
use hydraide.Patch.Parse.{
  or_invalid, peek_code, Parser, parse_key, parse_fields, parse_items, parse_map, parse_array,
  parse_leaf, parse_node, whole, parse,
}
use hydraide.Patch.Skeleton.{Skeleton, leaf}

-- A result that leaves at most so many bytes, or an error that the code has too.
abbrev Bounded : {A : Type 0} → ℕ → Result (A × Bytes) → Type 0
Bounded n (ok (a, rest)) = length rest ≤ n
Bounded n (err e) = e ≢ out_of_fuel

Bounded-bind :
    {A B : Type 0} (n k : ℕ) (r : Result (A × Bytes)) (f : A × Bytes → Result (B × Bytes))
    → Bounded n r
    → ((a : A) (rest : Bytes) → length rest ≤ n → Bounded k (f (a, rest)))
    → Bounded k (r >>= f)
Bounded-bind n k (ok (a, rest)) f h next = next a rest h
Bounded-bind n k (err e) f h next = h

Bounded-weaken : {A : Type 0} (n k : ℕ) (r : Result (A × Bytes)) → Bounded n r → n ≤ k → Bounded k r
Bounded-weaken n k (ok (a, rest)) h le = omega arith
Bounded-weaken n k (err e) h le = h

invalid-ne-out_of_fuel : invalid_msgpack ≢ out_of_fuel
invalid-ne-out_of_fuel e = cc

or_invalid-Bounded :
    {A : Type 0} (n : ℕ) (o : Option (A × Bytes))
    → ((a : A) (rest : Bytes) → o ≡ some (a, rest) → length rest < suc n)
    → Bounded n (or_invalid o)
unfolding or_invalid
or_invalid-Bounded n none h = invalid-ne-out_of_fuel
or_invalid-Bounded n (some (a, rest)) h = omega (arith, h a rest refl)

module _ (m : Msgpack) (d : Documented m) where
  parse_key-Bounded : (rest : Bytes) → Bounded (length rest) (parse_key m rest)
  unfolding parse_key peek_code
  parse_key-Bounded [] = invalid-ne-out_of_fuel
  parse_key-Bounded (c ∷ cs) = elim (Bool-cases (is_string_code c)) [
    | inl e ↦ rw e (
        or_invalid-Bounded (length (c ∷ cs)) (m.decode_string (c ∷ cs))
          λ s rest e. omega (arith, d.string_reads (c ∷ cs) s rest e))
    | inr e ↦ rw e (λ h. cc)
  ]

  module _ (p : Parser m) (fuel : ℕ)
      (good : (xs : Bytes) → length xs < fuel → Bounded (length xs) (p xs)) where
    parse_fields-Bounded :
        (n : ℕ) (rest : Bytes)
        → length rest < fuel
        → Bounded (length rest) (parse_fields m p n rest)
    unfolding parse_fields
    parse_fields-Bounded zero rest h = omega arith
    parse_fields-Bounded (suc n) rest h =
        Bounded-bind (length rest) (length rest) (parse_key m rest) _ (parse_key-Bounded rest)
          λ key rest₁ h₁.
            Bounded-bind (length rest) (length rest) (p rest₁) _
              (Bounded-weaken (length rest₁) (length rest) (p rest₁) (good rest₁ (omega arith)) h₁)
              λ value rest₂ h₂.
                Bounded-bind (length rest) (length rest) (parse_fields m p n rest₂) _
                  (Bounded-weaken (length rest₂) (length rest) _
                    (parse_fields-Bounded n rest₂ (omega arith)) h₂)
                  λ others rest₃ h₃. h₃

    parse_items-Bounded :
        (n : ℕ) (rest : Bytes) → length rest < fuel → Bounded (length rest) (parse_items m p n rest)
    unfolding parse_items
    parse_items-Bounded zero rest h = omega arith
    parse_items-Bounded (suc n) rest h =
        Bounded-bind (length rest) (length rest) (p rest) _ (good rest h) λ value rest₁ h₁.
          Bounded-bind (length rest) (length rest) (parse_items m p n rest₁) _
            (Bounded-weaken (length rest₁) (length rest) _
              (parse_items-Bounded n rest₁ (omega arith)) h₁)
            λ others rest₂ h₂. h₂

    parse_map-Bounded :
        (c : ℕ) (cs : Bytes) → length cs < fuel → Bounded (suc (length cs)) (parse_map m p (c ∷ cs))
    unfolding parse_map
    parse_map-Bounded c cs h =
        Bounded-bind (length cs) (suc (length cs)) (or_invalid (m.decode_map_len (c ∷ cs))) _
          (or_invalid-Bounded (length cs) (m.decode_map_len (c ∷ cs))
            λ n rest e. d.map_len_reads (c ∷ cs) rest n e)
          λ n rest₁ h₁.
            Bounded-bind (length cs) (suc (length cs)) (parse_fields m p n rest₁) _
              (Bounded-weaken (length rest₁) (length cs) _
                (parse_fields-Bounded n rest₁ (omega arith)) h₁)
              λ fs rest₂ h₂. omega arith

    parse_array-Bounded :
        (c : ℕ) (cs : Bytes)
        → length cs < fuel
        → Bounded (suc (length cs)) (parse_array m p (c ∷ cs))
    unfolding parse_array
    parse_array-Bounded c cs h =
        Bounded-bind (length cs) (suc (length cs)) (or_invalid (m.decode_array_len (c ∷ cs))) _
          (or_invalid-Bounded (length cs) (m.decode_array_len (c ∷ cs))
            λ n rest e. d.array_len_reads (c ∷ cs) rest n e)
          λ n rest₁ h₁.
            Bounded-bind (length cs) (suc (length cs)) (parse_items m p n rest₁) _
              (Bounded-weaken (length rest₁) (length cs) _
                (parse_items-Bounded n rest₁ (omega arith)) h₁)
              λ xs rest₂ h₂. omega arith

  skip-Bounded :
      (o : Option Bytes) (c total : ℕ) (xs : Bytes)
      → ((rest : Bytes) → o ≡ some rest → length rest < length xs)
      → Bounded (length xs) (
          or_invalid o >>= λ rest. ok (
            leaf (record {
              start = total - length xs;
              end = total - length rest;
              code = c;
              raw = none;
            }),
            rest,
          ))
  unfolding or_invalid
  skip-Bounded none c total xs h = invalid-ne-out_of_fuel
  skip-Bounded (some rest) c total xs h = omega (arith, h rest refl)

  parse_leaf-Bounded :
      (total c : ℕ) (rest : Bytes) → Bounded (length rest) (parse_leaf m total c rest)
  unfolding parse_leaf
  parse_leaf-Bounded total c rest = skip-Bounded (m.skip rest) c total rest (d.skip_reads rest)

  parse_node-Bounded :
      (total fuel : ℕ) (rest : Bytes)
      → length rest < fuel
      → Bounded (length rest) (parse_node m total fuel rest)
  unfolding parse_node peek_code
  parse_node-Bounded total zero rest h = absurd (omega arith)
  parse_node-Bounded total (suc fuel) [] h = invalid-ne-out_of_fuel
  parse_node-Bounded total (suc fuel) (c ∷ cs) h =
      let good = parse_node-Bounded total fuel in
      elim (Bool-cases (is_map_code c)) [
        | inl e ↦ rw e (parse_map-Bounded (parse_node m total fuel) fuel good c cs (omega arith))
        | inr e ↦ rw e (elim (Bool-cases (is_array_code c)) [
          | inl a ↦
              rw a (parse_array-Bounded (parse_node m total fuel) fuel good c cs (omega arith))
          | inr a ↦ rw a (parse_leaf-Bounded total c (c ∷ cs))
        ])
      ]

  whole-ne-out_of_fuel :
      (n : ℕ) (r : Result (Skeleton × Bytes)) → Bounded n r → (r >>= whole) ≢ err out_of_fuel
  unfolding whole
  whole-ne-out_of_fuel n (ok (s, [])) h e = cc
  whole-ne-out_of_fuel n (ok (s, b ∷ bs)) h e = cc
  whole-ne-out_of_fuel n (err f) h e = h (cc)

  -- With a package whose decoders read a byte at least, the rounds that `parse` allows are enough
  -- on every input.
  pub parse_total : (blob : Bytes) → parse m blob ≢ err out_of_fuel
  unfolding parse
  parse_total [] e = cc
  parse_total (c ∷ cs) e =
      whole-ne-out_of_fuel (length (c ∷ cs)) _
        (parse_node-Bounded (length (c ∷ cs)) (suc (length (c ∷ cs))) (c ∷ cs) (omega arith)) e
