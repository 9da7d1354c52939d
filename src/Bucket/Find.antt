-- ===== src/Bucket/Find.antt =====
-- What a search of the slots of bucket/bucket.go finds after they have been changed.
use hydraide.Base.{
  Option-cases, ◌≡◌, refl, sym, ap, ◌∙◌, ◌⊎◌, Bool, true, false, ◌&&◌, [], ◌∷◌, Option, none, some,
  if◌then◌else◌, is_nil, inl, inr, Bool-cases, arith,
}
use mathlib.Core.Path.{subst}
use hydraide.Base.Bytes.{Bytes}
use hydraide.Base.Assoc.{bytes_eq, lookup, insert, remove, Distinct, lookup-insert, lookup-remove}
use hydraide.Bucket.Canon.{Key, key_eq, key_eq-sym, key_eq_trans}
use hydraide.Bucket.Slots.{
  Treasure, Slot, Slots, find_slot, put_slot, drop_slot, or_empty, remove_from_slot_locked,
  remove_found, shrunk,
}

-- Keys that are the same are the same as the same keys.
pub key_eq-left : (u v w : Key) → key_eq u v ≡ true → key_eq u w ≡ key_eq v w
key_eq-left u v w h = elim (Bool-cases (key_eq u w)) [
  | inl e ↦ e ∙ sym (key_eq_trans v u w (key_eq-sym u v h) e)
  | inr e ↦ elim (Bool-cases (key_eq v w)) [
    | inl f ↦ key_eq_trans u v w h f ∙ sym f
    | inr f ↦ e ∙ sym f
  ]
]

pub find-same :
    (u v : Key) (slots : Slots) → key_eq u v ≡ true → find_slot u slots ≡ find_slot v slots
unfolding find_slot
find-same u v [] h = refl
find-same u v ((w, slot) ∷ rest) h = ground (
  arith,
  find-same u v rest,
  key_eq-sym u v,
  key_eq-sym v u,
  key_eq_trans w u v,
  key_eq_trans w v u,
)

key_eq-apart : (u v w : Key) → key_eq u v ≡ false → key_eq u w ≡ true → key_eq v w ≡ false
key_eq-apart u v w h e = elim (Bool-cases (key_eq v w)) [
  | inl f ↦ let same = key_eq_trans u w v e (key_eq-sym v w f) in cc
  | inr f ↦ f
]

pub find-put :
    (v w : Key) (slot : Slot) (slots : Slots)
    → find_slot w (put_slot v slot slots) ≡ (if key_eq v w then some slot else find_slot w slots)
unfolding find_slot put_slot
find-put v w slot [] = refl
find-put v w slot ((u, old) ∷ rest) =
    ground (arith, find-put v w slot rest, key_eq-left u v w, key_eq-apart u v w)

-- Each key stands once, and each treasure once in its slot.
unfoldable pub SlotsDistinct : Slots → Type 0
SlotsDistinct [] = Unit {0}
SlotsDistinct ((w, slot) ∷ rest) = (find_slot w rest ≡ none) × Distinct slot × SlotsDistinct rest

pub find-drop :
    (v w : Key) (slots : Slots)
    → SlotsDistinct slots
    → find_slot w (drop_slot v slots) ≡ (if key_eq v w then none else find_slot w slots)
unfolding find_slot drop_slot SlotsDistinct
find-drop v w [] d = ground arith
find-drop v w ((u, old) ∷ rest) (fresh, ds, d) =
    ground (arith, find-drop v w rest d, key_eq-left u v w, key_eq-apart u v w, find-same u w rest)

pub find-Distinct :
    (v : Key) (slots : Slots) (slot : Slot)
    → SlotsDistinct slots
    → find_slot v slots ≡ some slot
    → Distinct slot
unfolding find_slot SlotsDistinct
find-Distinct v [] slot d e = cc
find-Distinct v ((u, old) ∷ rest) slot (fresh, ds, d) e = elim (Bool-cases (key_eq u v)) [
  | inl here ↦
      let same : ◌≡◌ {A = Option Slot} (some old) (some slot) = rw here at e in
      let eq : old ≡ slot = cc in subst (λ s. Distinct s) eq ds
  | inr later ↦ find-Distinct v rest slot d (rw later at e)
]

pub put-Distinct :
    (v : Key) (slot : Slot) (slots : Slots)
    → Distinct slot
    → SlotsDistinct slots
    → SlotsDistinct (put_slot v slot slots)
unfolding put_slot SlotsDistinct find_slot
put-Distinct v slot [] ds d = (refl, ds, tt)
put-Distinct v slot ((u, old) ∷ rest) ds (fresh, dold, d) = elim (Bool-cases (key_eq u v)) [
  | inl here ↦ rw here (fresh, ds, d)
  | inr later ↦
      let apart : key_eq v u ≡ false = ground (arith, key_eq-sym v u) in
      rw later (find-put v u slot rest ∙ rw apart fresh, dold, put-Distinct v slot rest ds d)
]

pub drop-Distinct :
    (v : Key) (slots : Slots) → SlotsDistinct slots → SlotsDistinct (drop_slot v slots)
unfolding drop_slot SlotsDistinct
drop-Distinct v [] d = tt
drop-Distinct v ((u, old) ∷ rest) (fresh, dold, d) = elim (Bool-cases (key_eq u v)) [
  | inl here ↦ rw here d
  | inr later ↦
      rw later (find-drop v u rest d ∙ ground (arith, fresh), dold, drop-Distinct v rest d)
]

-- The treasure of a key in the slot of a value.
abbrev pub in_slot : Key → Bytes → Slots → Option Treasure
in_slot w k slots = lookup k (or_empty (find_slot w slots))

pub in_slot-put :
    (v w : Key) (key k : Bytes) (t : Treasure) (slots : Slots)
    → in_slot w k (put_slot v (insert key t (or_empty (find_slot v slots))) slots)
      ≡ (if key_eq v w && bytes_eq key k then some t else in_slot w k slots)
in_slot-put v w key k t slots =
    rw (find-put v w (insert key t (or_empty (find_slot v slots))) slots)
      (elim (Bool-cases (key_eq v w)) [
        | inl e ↦ rw e (
            lookup-insert key k t (or_empty (find_slot v slots))
            ∙ ap (λ s. if bytes_eq key k then some t else lookup k (or_empty s))
                (find-same v w slots e))
        | inr e ↦ rw e refl
      ])

nil-cases : (s : Slot) → (s ≡ []) ⊎ (is_nil s ≡ false)
nil-cases [] = inl refl
nil-cases (x ∷ xs) = inr refl

-- One search of the slots as they are after a removal.
removed :
    (v w : Key) (key k : Bytes) (slot : Slot) (slots : Slots)
    → SlotsDistinct slots
    → find_slot v slots ≡ some slot
    → in_slot w k (shrunk v (remove key slot) slots)
      ≡ (if key_eq v w then lookup k (remove key slot) else in_slot w k slots)
unfolding shrunk
removed v w key k slot slots d e = elim (nil-cases (remove key slot)) [
  | inl none_left ↦
      rw none_left (ap (λ s. lookup k (or_empty s)) (find-drop v w slots d) ∙ ground arith)
  | inr some_left ↦
      rw some_left
        (ap (λ s. lookup k (or_empty s)) (find-put v w (remove key slot) slots) ∙ ground arith)
]

lookup_nothing :
    (b : Bool) (k : Bytes)
    → lookup {V = Treasure} k [] ≡ (if b then none else lookup {V = Treasure} k [])
unfolding lookup
lookup_nothing b k = ground arith

pub in_slot-remove :
    (v w : Key) (key k : Bytes) (slots : Slots)
    → SlotsDistinct slots
    → in_slot w k (remove_from_slot_locked v key slots)
      ≡ (if key_eq v w && bytes_eq key k then none else in_slot w k slots)
unfolding remove_from_slot_locked remove_found
in_slot-remove v w key k slots d = elim (Option-cases (find_slot v slots)) [
  | inl absent ↦ rw absent (elim (Bool-cases (key_eq v w)) [
    | inl e ↦
        let gone : find_slot w slots ≡ none = sym (find-same v w slots e) ∙ absent in
        rw (e, gone) (lookup_nothing (bytes_eq key k) k)
    | inr e ↦ rw e refl
  ])
  | inr (slot, found) ↦ rw found (
      removed v w key k slot slots d found ∙ elim (Bool-cases (key_eq v w)) [
        | inl e ↦
            let there : find_slot w slots ≡ some slot = sym (find-same v w slots e) ∙ found in
            rw (e, there) (lookup-remove key k slot (find-Distinct v slots slot d found))
        | inr e ↦ rw e refl
      ])
]
