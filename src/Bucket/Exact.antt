-- ===== src/Bucket/Exact.antt =====
-- The lookups of bucket/bucket.go give the treasures of a value, and no others.
use hydraide.Base.{
  ℕ, ◌+◌, ◌≡◌, refl, sym, ◌∙◌, true, false, [], ◌∷◌, Option, none, some, inl, inr, Bool-cases, ap,
  arith, length, length-append,
}
use mathlib.Core.Path.{subst}
use hydraide.Base.Bytes.{Bytes}
use hydraide.Base.Assoc.{bytes_eq_iff, lookup}
use hydraide.Bucket.Canon.{
  Key, null_key, bool_key, int_key, uint_key, float_key, string_key, key_eq, float_eq, same_float,
  to_float64_lossless, Conversions, equal, equal-same, equal-key_eq,
}
use hydraide.Bucket.Slots.{
  Treasure, Slot, Slots, Maps, find_slot, or_empty, treasures, collect_others,
  collect_matching_locked, count_others, count_matching_locked,
}
use hydraide.Bucket.Find.{SlotsDistinct, in_slot, find-same, key_eq-left}
use hydraide.Bucket.Index.{Treasures, if_same, Indexes, empty-Distinct}
use hydraide.Bucket.Among.{
  Among, Among-left, Among-right, Among-either, slot_has, has_key, nothing-some, length-treasures,
}

module _ (f : Conversions) where
  float-left : (a : ℕ) (o : Option ℕ) → same_float f (some a) o ≡ true → float_eq a a ≡ true
  unfolding same_float float_eq
  float-left a none h = cc
  float-left a (some b) h = ground arith

  -- A key that is equal to any is the same as itself.
  key_eq-equal : (v w : Key) → equal f v w ≡ true → key_eq v v ≡ true
  unfolding equal key_eq
  key_eq-equal null_key w h = refl
  key_eq-equal (bool_key true) w h = refl
  key_eq-equal (bool_key false) w h = refl
  key_eq-equal (int_key a) w h = ground arith
  key_eq-equal (uint_key a) w h = ground arith
  key_eq-equal (string_key a) w h = (bytes_eq_iff a a).1 refl
  key_eq-equal (float_key a) (float_key b) h = float-left a (some b) h
  key_eq-equal (float_key a) (int_key b) h = float-left a (to_float64_lossless f (int_key b)) h
  key_eq-equal (float_key a) (uint_key b) h = float-left a (to_float64_lossless f (uint_key b)) h
  key_eq-equal (float_key a) _ h = cc

  -- The slots that come later hold other keys.
  later :
      (u : Key) (slot : Slot) (want : Key) (t : Treasure) (rest : Slots)
      → find_slot u rest ≡ none
      → (v : Key) × (k : Bytes) × (equal f v want ≡ true) × (in_slot v k rest ≡ some t)
      → (v : Key) × (k : Bytes) × (equal f v want ≡ true)
        × (in_slot v k ((u, slot) ∷ rest) ≡ some t)
  unfolding find_slot
  later u slot want t rest fresh (v, k, e, found) = elim (Bool-cases (key_eq u v)) [
    | inl same ↦
        let gone : find_slot v rest ≡ none = sym (find-same u v rest same) ∙ fresh in
        absurd (nothing-some k t (rw gone at found))
    | inr apart ↦ (v, k, e, rw apart found)
  ]

  -- A treasure that the second loop collects is in a slot of an equal key.
  others-found :
      (want : Key) (t : Treasure) (slots : Slots)
      → SlotsDistinct slots
      → Among t (collect_others f want slots)
      → (v : Key) × (k : Bytes) × (equal f v want ≡ true) × (in_slot v k slots ≡ some t)
  unfolding collect_others SlotsDistinct
  others-found want t [] d h = absurd h
  others-found want t ((v, slot) ∷ rest) (fresh, ds, d) h = elim (Bool-cases (key_eq v want)) [
    | inl same ↦ later v slot want t rest fresh (others-found want t rest d (rw same at h))
    | inr apart ↦ elim (Bool-cases (equal f v want)) [
      | inr e ↦
          later v slot want t rest fresh (others-found want t rest d (rw e at (rw apart at h)))
      | inl e ↦
          elim (Among-either t (treasures slot) (collect_others f want rest)
            (rw e at (rw apart at h))) [
              | inr g ↦ later v slot want t rest fresh (others-found want t rest d g)
              | inl g ↦
                  let (k, found) = has_key slot t ds g in
                  (v, k, e, unfold find_slot in rw (key_eq-equal v want e) found)
            ]
    ]
  ]

  -- A slot that is found is among those that the second loop looks at.
  found-others :
      (want v : Key) (k : Bytes) (t : Treasure) (slots : Slots)
      → equal f v want ≡ true
      → key_eq v want ≡ false
      → in_slot v k slots ≡ some t
      → Among t (collect_others f want slots)
  unfolding collect_others find_slot
  found-others want v k t [] e apart h = absurd (nothing-some k t h)
  found-others want v k t ((u, slot) ∷ rest) e apart h = elim (Bool-cases (key_eq u v)) [
    | inl same ↦
        let equal_u : equal f u want ≡ true = equal-same f u v want same ∙ e in
        let apart_u : key_eq u want ≡ false = key_eq-left u v want same ∙ apart in
        rw (apart_u, equal_u)
          (Among-left t (treasures slot) (collect_others f want rest)
            (slot_has slot t k (rw same at h)))
    | inr other ↦
        let tail = found-others want v k t rest e apart (rw other at h) in
        elim (Bool-cases (key_eq u want)) [
          | inl same ↦ rw same tail
          | inr differs ↦ elim (Bool-cases (equal f u want)) [
            | inl g ↦
                rw (differs, g) (Among-right t (treasures slot) (collect_others f want rest) tail)
            | inr g ↦ rw (differs, g) tail
          ]
        ]
  ]

  count_others-length :
      (want : Key) (slots : Slots)
      → count_others f want slots ≡ length (collect_others f want slots)
  unfolding collect_others count_others
  count_others-length want [] = refl
  count_others-length want ((v, slot) ∷ rest) = elim (Bool-cases (key_eq v want)) [
    | inl same ↦ rw same (count_others-length want rest)
    | inr apart ↦ elim (Bool-cases (equal f v want)) [
      | inr e ↦ rw (apart, e) (count_others-length want rest)
      | inl e ↦
          rw (apart, e)
            (ap (λ n. length slot + n) (count_others-length want rest)
              ∙ ap (λ n. n + length (collect_others f want rest)) (length-treasures slot)
              ∙ sym (length-append (treasures slot) (collect_others f want rest)))
    ]
  ]

  -- The count of a value is the number of treasures that a lookup collects.
  pub count-length :
      (want : Key) (slots : Slots)
      → count_matching_locked f want slots ≡ length (collect_matching_locked f want slots)
  unfolding collect_matching_locked count_matching_locked
  count-length want slots =
      let first = or_empty (find_slot want slots) in
      ap (λ n. length first + n) (count_others-length want slots)
      ∙ ap (λ n. n + length (collect_others f want slots)) (length-treasures first)
      ∙ sym (length-append (treasures first) (collect_others f want slots))

  module _ (value : Treasure → Key) where
    same-some :
        (v : Key) (o : Option Treasure) (t : Treasure)
        → if_same value v o ≡ some t
        → (o ≡ some t) × (key_eq (value t) v ≡ true)
    same-some v none t h = cc
    same-some v (some u) t h = elim (Bool-cases (key_eq (value u) v)) [
      | inl e ↦
          let same : ◌≡◌ {A = Option Treasure} (some u) (some t) = rw e at h in
          let eq : u ≡ t = cc in (same, subst (λ x. key_eq (value x) v ≡ true) eq e)
      | inr e ↦ let gone : ◌≡◌ {A = Option Treasure} none (some t) = rw e at h in cc
    ]

    module _ (m : Maps) (ts : Treasures) (ix : Indexes value m ts) (want : Key) where
      -- What is found in a slot of an equal key is a treasure of an equal value.
      in_slot_sound :
          (v : Key) (k : Bytes) (t : Treasure)
          → equal f v want ≡ true
          → in_slot v k m.by_value ≡ some t
          → (k' : Bytes) × (lookup k' ts ≡ some t) × (equal f (value t) want ≡ true)
      in_slot_sound v k t e found =
          let (there, same) = same-some v (lookup k ts) t (sym (ix.by_value v k) ∙ found) in
          (k, there, equal-same f (value t) v want same ∙ e)

      pub collect_sound :
          (t : Treasure)
          → Among t (collect_matching_locked f want m.by_value)
          → (k : Bytes) × (lookup k ts ≡ some t) × (equal f (value t) want ≡ true)
      unfolding collect_matching_locked
      collect_sound t h =
          elim (Among-either t (treasures (or_empty (find_slot want m.by_value)))
            (collect_others f want m.by_value) h) [
              | inr g ↦
                  let (v, k, e, found) = others-found want t m.by_value ix.slots_once g in
                  in_slot_sound v k t e found
              | inl g ↦
                  let (k, found) =
                    has_key (or_empty (find_slot want m.by_value)) t
                      (empty-Distinct value want m.by_value ix.slots_once) g in
                  let (there, same) =
                    same-some want (lookup k ts) t (sym (ix.by_value want k) ∙ found) in
                  (k, there, equal-key_eq f (value t) want same)
            ]

      pub collect_complete :
          (k : Bytes) (t : Treasure)
          → lookup k ts ≡ some t
          → equal f (value t) want ≡ true
          → Among t (collect_matching_locked f want m.by_value)
      unfolding collect_matching_locked
      collect_complete k t there e =
          let v = value t in
          let found : in_slot v k m.by_value ≡ some t =
            ix.by_value v k ∙ rw (there, key_eq-equal v want e) refl in
          elim (Bool-cases (key_eq v want)) [
            | inl same ↦
                Among-left t (treasures (or_empty (find_slot want m.by_value)))
                  (collect_others f want m.by_value)
                  (slot_has (or_empty (find_slot want m.by_value)) t k (
                    subst (λ o. lookup k (or_empty o) ≡ some t) (find-same v want m.by_value same)
                      found))
            | inr apart ↦
                Among-right t (treasures (or_empty (find_slot want m.by_value)))
                  (collect_others f want m.by_value)
                  (found-others want v k t m.by_value e apart found)
          ]
