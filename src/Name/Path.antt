-- ===== src/Name/Path.antt =====
-- Names and their paths.
use hydraide.Base.{
  ℕ, ◌+◌, ◌<◌, ◌≡◌, refl, sym, ap, ◌∙◌, List, [], ◌∷◌, ◌++◌, ◌==◌, length, arith, append_assoc,
  Bool-cases, inl, inr, if◌then◌else◌,
}
use hydraide.Base.Bytes.{Bytes}
use hydraide.Base.Split.{split, split_before, split_last, Without}
use hydraide.Base.Outcome.{ok, err}
use hydraide.Name.{
  Name, new_name, sanctuary, realm, swamp, get, load, load_parts, index_out_of_range,
}

abbrev pub NoSlash : Bytes → Type 0
NoSlash xs = Without b'/' xs

-- A name that is built of three parts without a slash, whatever it started from, is the one that
-- `Load` makes of its path.
pub load-get :
    (x y z : Bytes) (n : Name)
    → NoSlash x
    → NoSlash y
    → NoSlash z
    → load (get (swamp z (realm y (sanctuary x n)))) ≡ ok (swamp z (realm y (sanctuary x n)))
unfolding load get swamp realm sanctuary load_parts
load-get x y z n hx hy hz =
    let shape : (x ++ (b'/' ∷ y)) ++ (b'/' ∷ z) ≡ x ++ (b'/' ∷ (y ++ (b'/' ∷ z))) =
      append_assoc x (b'/' ∷ y) (b'/' ∷ z) in
    let parts : split b'/' ((x ++ (b'/' ∷ y)) ++ (b'/' ∷ z)) ≡ (x, y ∷ (z ∷ [])) =
      ap (split b'/') shape
      ∙ split_before b'/' x (y ++ (b'/' ∷ z)) refl hx
      ∙ ap (λ (r : Bytes × List Bytes). (x, r.0 ∷ r.1)) (split_before b'/' y z refl hy)
      ∙ ap (λ (r : Bytes × List Bytes). (x, y ∷ (r.0 ∷ r.1))) (split_last b'/' z hz) in
    ap load_parts parts ∙ (λ i.
      ok (record new_name { path = sym shape i; sanctuary_id = x; realm_name = y; swamp_name = z }))

abbrev pub slashes : Bytes → ℕ
slashes [] = 0
slashes (c ∷ cs) = if c == b'/' then 1 + slashes cs else slashes cs

length-split : (path : Bytes) → length (split b'/' path).1 ≡ slashes path
unfolding split
length-split [] = refl
length-split (c ∷ cs) = elim (Bool-cases (c == b'/')) [
  | inl slash ↦ rw slash (omega (arith, length-split cs))
  | inr other ↦ rw other (length-split cs)
]

too_few :
    (s : Bytes) (others : List Bytes)
    → length others < 2
    → load_parts (s, others) ≡ err index_out_of_range
unfolding load_parts
too_few s [] h = refl
too_few s (x ∷ []) h = refl
too_few s (x ∷ (y ∷ others)) h = let bad : ⊥ = omega arith in absurd bad

enough :
    (s : Bytes) (others : List Bytes)
    → 1 < length others
    → (n : Name) × (load_parts (s, others) ≡ ok n)
unfolding load_parts
enough s [] h = let bad : ⊥ = omega arith in absurd bad
enough s (x ∷ []) h = let bad : ⊥ = omega arith in absurd bad
enough s (x ∷ (y ∷ others)) h = (_, refl)

-- `Load` of a path fails, by a panic, just when the path has fewer than two slashes.
pub load_fails :
    (path : Bytes)
    → (slashes path < 2 → load path ≡ err index_out_of_range)
      × (1 < slashes path → (n : Name) × (load path ≡ ok n))
unfolding load
load_fails path = (
  λ h. too_few (split b'/' path).0 (split b'/' path).1 (omega (arith, length-split path)),
  λ h. enough (split b'/' path).0 (split b'/' path).1 (omega (arith, length-split path)),
)
