-- ===== src/Bucket/Among.antt =====
-- Lists of treasures, as bucket/bucket.go collects them from a slot.
use hydraide.Base.{
  suc, ◌≡◌, refl, sym, ◌⊎◌, List, [], ◌∷◌, ◌++◌, Option, none, some, inl, inr, Bool-cases, ap,
  length,
}
use mathlib.Core.Path.{subst}
use hydraide.Base.Bytes.{Bytes}
use hydraide.Base.Assoc.{
  bytes_eq, bytes_eq_iff, bytes_eq→eq, lookup, Distinct, Absent, lookup-Absent,
}
use hydraide.Bucket.Slots.{Treasure, Slot, treasures}

-- A treasure is in a list.
abbrev pub Among : Treasure → List Treasure → Type 0
Among t [] = ⊥
Among t (u ∷ us) = (t ≡ u) ⊎ Among t us

pub Among-left : (t : Treasure) (us vs : List Treasure) → Among t us → Among t (us ++ vs)
Among-left t [] vs h = absurd h
Among-left t (u ∷ us) vs (inl e) = inl e
Among-left t (u ∷ us) vs (inr h) = inr (Among-left t us vs h)

pub Among-right : (t : Treasure) (us vs : List Treasure) → Among t vs → Among t (us ++ vs)
Among-right t [] vs h = h
Among-right t (u ∷ us) vs h = inr (Among-right t us vs h)

pub Among-either :
    (t : Treasure) (us vs : List Treasure) → Among t (us ++ vs) → Among t us ⊎ Among t vs
Among-either t [] vs h = inr h
Among-either t (u ∷ us) vs (inl e) = inl (inl e)
Among-either t (u ∷ us) vs (inr h) = elim (Among-either t us vs h) [
  | inl g ↦ inl (inr g)
  | inr g ↦ inr g
]

-- The treasures of a slot are those that a search of it finds.
pub slot_has :
    (slot : Slot) (t : Treasure) (k : Bytes) → lookup k slot ≡ some t → Among t (treasures slot)
unfolding lookup
slot_has [] t k h = cc
slot_has ((j, u) ∷ slot) t k h = elim (Bool-cases (bytes_eq j k)) [
  | inl e ↦
      let same : ◌≡◌ {A = Option Treasure} (some u) (some t) = rw e at h in
      let eq : t ≡ u = cc in inl eq
  | inr e ↦ inr (slot_has slot t k (rw e at h))
]

lookup-later :
    (j k : Bytes) (u t : Treasure) (slot : Slot)
    → Absent j slot
    → lookup k slot ≡ some t
    → lookup k ((j, u) ∷ slot) ≡ some t
unfolding lookup
lookup-later j k u t slot a h = elim (Bool-cases (bytes_eq j k)) [
  | inl e ↦
      let gone : lookup j slot ≡ none = lookup-Absent j slot a in
      let eq : j ≡ k = bytes_eq→eq j k e in
      let gone' : lookup k slot ≡ none = subst (λ i. lookup i slot ≡ none) eq gone in cc
  | inr e ↦ rw e h
]

pub has_key :
    (slot : Slot) (t : Treasure)
    → Distinct slot
    → Among t (treasures slot)
    → (k : Bytes) × (lookup k slot ≡ some t)
unfolding lookup
has_key [] t d h = absurd h
has_key ((j, u) ∷ slot) t (a, d) (inl e) =
    (j, rw ((bytes_eq_iff j j).1 refl) (ap (λ x. some x) (sym e)))
has_key ((j, u) ∷ slot) t (a, d) (inr h) =
    let (k, found) = has_key slot t d h in (k, lookup-later j k u t slot a found)

pub nothing-some : (k : Bytes) (t : Treasure) → lookup {V = Treasure} k [] ≡ some t → ⊥
unfolding lookup
nothing-some k t h = cc

pub length-treasures : (slot : Slot) → length slot ≡ length (treasures slot)
length-treasures [] = refl
length-treasures ((k, t) ∷ slot) = ap (λ n. suc n) (length-treasures slot)
