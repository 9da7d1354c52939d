-- ===== src/Base/Split.antt =====
-- strings.Split and strings.IndexByte for one byte.
use Prim.Native.Nat.{ℕ}
use mathlib.Core.Path.{◌≡◌, refl}
use mathlib.Core.Bool.{true, false}
use mathlib.Core.Option.{Option, none, some}
use mathlib.Core.List.{List, [], ◌∷◌, ◌++◌}
use hydraide.Base.Tests.{◌==◌, if◌then◌else◌}
use hydraide.Base.Lists.{All}
use hydraide.Base.Bytes.{Bytes}

-- The first part and the others.
unfoldable pub split : ℕ → Bytes → Bytes × List Bytes
split sep [] = ([], [])
split sep (c ∷ cs) =
    let rest = split sep cs in if c == sep then ([], rest.0 ∷ rest.1) else (c ∷ rest.0, rest.1)

-- The bytes before the first `sep`, and those behind it.
unfoldable pub cut : ℕ → Bytes → Option (Bytes × Bytes)
cut sep [] = none
cut sep (c ∷ cs) =
    let rest = cut sep cs in
    if c == sep
    then some ([], cs)
    else elim rest [ none ↦ none | some parts ↦ some (c ∷ parts.0, parts.1) ]

abbrev pub Without : ℕ → Bytes → Type 0
Without sep xs = All (λ c. (c == sep) ≡ false) xs

pub split_before :
    (sep : ℕ) (xs ys : Bytes)
    → (sep == sep) ≡ true
    → Without sep xs
    → split sep (xs ++ (sep ∷ ys)) ≡ (xs, (split sep ys).0 ∷ (split sep ys).1)
unfolding split
split_before sep [] ys same h = rw same refl
split_before sep (x ∷ xs) ys same (h, hs) = rw (h, split_before sep xs ys same hs) refl

pub split_last : (sep : ℕ) (xs : Bytes) → Without sep xs → split sep xs ≡ (xs, [])
unfolding split
split_last sep [] h = refl
split_last sep (x ∷ xs) (h, hs) = rw (h, split_last sep xs hs) refl

pub cut_before :
    (sep : ℕ) (xs ys : Bytes)
    → (sep == sep) ≡ true
    → Without sep xs
    → cut sep (xs ++ (sep ∷ ys)) ≡ some (xs, ys)
unfolding cut
cut_before sep [] ys same h = rw same refl
cut_before sep (x ∷ xs) ys same (h, hs) = rw (h, cut_before sep xs ys same hs) refl

pub cut_none : (sep : ℕ) (xs : Bytes) → Without sep xs → cut sep xs ≡ none
unfolding cut
cut_none sep [] h = refl
cut_none sep (x ∷ xs) (h, hs) = rw (h, cut_none sep xs hs) refl
