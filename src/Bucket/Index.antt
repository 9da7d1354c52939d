-- ===== src/Bucket/Index.antt =====
-- The maps of bucket/bucket.go as an index of the treasures by their values.
use hydraide.Base.{
  Option-cases, ◌≡◌, refl, sym, ◌∙◌, true, false, List, Option, none, some, if◌then◌else◌, inl, inr,
  is_nil, Bool-cases,
}
use mathlib.Core.Path.{subst}
use hydraide.Base.Bytes.{Bytes}
use hydraide.Base.Assoc.{
  bytes_eq, bytes_eq→eq, lookup, insert, remove, Distinct, insert-Distinct, remove-Distinct,
}
use hydraide.Bucket.Canon.{Key, key_eq}
use hydraide.Bucket.Slots.{
  Treasure, Slots, Maps, find_slot, put_slot, or_empty, remove_from_slot_locked, remove_found,
  shrunk,
}
use hydraide.Bucket.Find.{SlotsDistinct, find-Distinct, put-Distinct, drop-Distinct, in_slot}

-- The treasures of a swamp, by key.
abbrev pub Treasures : Type 0
Treasures = List (Bytes × Treasure)

module _ (value : Treasure → Key) where
  -- A treasure, if its value is the same as the key.
  abbrev pub if_same : Key → Option Treasure → Option Treasure
  if_same w none = none
  if_same w (some t) = if key_eq (value t) w then some t else none

  -- The value that is kept for a treasure is the same as the keys that its own is.
  abbrev pub Agree : Option Key → Option Treasure → Type 0
  Agree none none = Unit {0}
  Agree (some v) (some t) = (w : Key) → key_eq v w ≡ key_eq (value t) w
  Agree _ _ = ⊥

  -- The maps index the treasures: each is in the slot of its value, and in no other.
  pub record Indexes (m : Maps) (treasures : Treasures) : Type 0 where
    pub by_key : (k : Bytes) → Agree (lookup k m.by_key) (lookup k treasures)
    pub by_value : (w : Key) (k : Bytes) → in_slot w k m.by_value ≡ if_same w (lookup k treasures)
    pub keys_once : Distinct m.by_key
    pub slots_once : SlotsDistinct m.by_value

  pub remove-SlotsDistinct :
      (v : Key) (key : Bytes) (slots : Slots)
      → SlotsDistinct slots
      → SlotsDistinct (remove_from_slot_locked v key slots)
  unfolding remove_from_slot_locked remove_found shrunk
  remove-SlotsDistinct v key slots d = elim (Option-cases (find_slot v slots)) [
    | inl absent ↦ rw absent d
    | inr (slot, found) ↦ rw found (elim (Bool-cases (is_nil (remove key slot))) [
      | inl e ↦ rw e (drop-Distinct v slots d)
      | inr e ↦ rw e (
          put-Distinct v (remove key slot) slots
            (remove-Distinct key slot (find-Distinct v slots slot d found)) d)
    ])
  ]

  pub empty-Distinct :
      (v : Key) (slots : Slots) → SlotsDistinct slots → Distinct (or_empty (find_slot v slots))
  empty-Distinct v slots d = elim (Option-cases (find_slot v slots)) [
    | inl absent ↦ rw absent tt
    | inr (slot, found) ↦ rw found (find-Distinct v slots slot d found)
  ]

  pub put-SlotsDistinct :
      (v : Key) (key : Bytes) (t : Treasure) (slots : Slots)
      → SlotsDistinct slots
      → SlotsDistinct (put_slot v (insert key t (or_empty (find_slot v slots))) slots)
  put-SlotsDistinct v key t slots d =
      put-Distinct v (insert key t (or_empty (find_slot v slots))) slots
        (insert-Distinct key t (or_empty (find_slot v slots)) (empty-Distinct v slots d)) d

  if_same-none :
      (w : Key) (o : Option Key) (p : Option Treasure)
      → Agree o p
      → (elim o [ none ↦ false | some old ↦ key_eq old w ]) ≡ false
      → if_same w p ≡ none
  if_same-none w none none a e = refl
  if_same-none w none (some t) a e = absurd a
  if_same-none w (some old) none a e = refl
  if_same-none w (some old) (some t) a e = rw (sym (a w) ∙ e) refl

  module _ (m : Maps) (ts : Treasures) (ix : Indexes m ts) where
    -- A treasure stands in no slot but that of the value that is kept for it.
    pub not_elsewhere :
        (w : Key) (key k : Bytes) (o : Option Key)
        → bytes_eq key k ≡ true
        → lookup key m.by_key ≡ o
        → (elim o [ none ↦ false | some old ↦ key_eq old w ]) ≡ false
        → in_slot w k m.by_value ≡ none
    not_elsewhere w key k o same e apart =
        let kept : lookup k m.by_key ≡ o =
          subst (λ j. lookup j m.by_key ≡ o) (bytes_eq→eq key k same) e in
        ix.by_value w k
        ∙ if_same-none w o (lookup k ts) (subst (λ x. Agree x (lookup k ts)) kept (ix.by_key k))
            apart

    -- Maps after a change of one key's treasure index the treasures with it.
    pub changed :
        (m' : Maps) (ts' : Treasures) (key : Bytes) (new : Option Treasure)
        → ((k : Bytes) → lookup k ts' ≡ (if bytes_eq key k then new else lookup k ts))
        → ((k : Bytes) → bytes_eq key k ≡ true → Agree (lookup k m'.by_key) new)
        → ((k : Bytes) → bytes_eq key k ≡ false → lookup k m'.by_key ≡ lookup k m.by_key)
        → ((w : Key) (k : Bytes)
            → in_slot w k m'.by_value
              ≡ (if bytes_eq key k then if_same w new else in_slot w k m.by_value))
        → Distinct m'.by_key
        → SlotsDistinct m'.by_value
        → Indexes m' ts'
    changed m' ts' key new found agree other slots dk ds = record {
      by_key = λ k. elim (Bool-cases (bytes_eq key k)) [
        | inl e ↦ rw (found k, e) (agree k e)
        | inr e ↦ rw (found k, e, other k e) (ix.by_key k)
      ];
      by_value = λ w k. slots w k ∙ elim (Bool-cases (bytes_eq key k)) [
        | inl e ↦ rw (found k, e) refl
        | inr e ↦ rw (found k, e) (ix.by_value w k)
      ];
      keys_once = dk;
      slots_once = ds;
    }
