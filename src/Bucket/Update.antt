-- ===== src/Bucket/Update.antt =====
-- What the operations of bucket/bucket.go do to the index.
use hydraide.Base.{
  Option-cases, ◌≡◌, refl, sym, ◌∙◌, true, false, none, some, if◌then◌else◌, inl, inr, Bool-cases,
}
use mathlib.Core.Path.{subst}
use hydraide.Base.Bytes.{Bytes}
use hydraide.Base.Assoc.{
  bytes_eq, bytes_eq→eq, lookup, insert, remove, Distinct, lookup-insert, lookup-remove,
  insert-Distinct, remove-Distinct,
}
use hydraide.Bucket.Canon.{Key, key_eq}
use hydraide.Bucket.Slots.{
  Treasure, Slots, Maps, find_slot, put_slot, or_empty, insert_locked, move,
  insert_or_update_locked, remove_from_slot_locked, delete_found, delete_locked,
}
use hydraide.Bucket.Find.{key_eq-left, in_slot, in_slot-put, in_slot-remove}
use hydraide.Bucket.Index.{
  Treasures, if_same, Agree, Indexes, remove-SlotsDistinct, put-SlotsDistinct, not_elsewhere,
  changed,
}

module _ (value : Treasure → Key) where
  module _ (m : Maps) (ts : Treasures) (ix : Indexes value m ts) where
    -- A deletion leaves nothing of the key in any slot.
    delete-in_slot :
        (w : Key) (key k : Bytes) (old : Key)
        → lookup key m.by_key ≡ some old
        → in_slot w k (remove_from_slot_locked old key m.by_value)
          ≡ (if bytes_eq key k then none else in_slot w k m.by_value)
    delete-in_slot w key k old found =
        in_slot-remove old w key k m.by_value ix.slots_once ∙ elim (Bool-cases (bytes_eq key k)) [
          | inr e ↦ elim (Bool-cases (key_eq old w)) [
            | inl g ↦ rw (e, g) refl
            | inr g ↦ rw (e, g) refl
          ]
          | inl e ↦ elim (Bool-cases (key_eq old w)) [
            | inl g ↦ rw (e, g) refl
            | inr g ↦ rw (e, g) (not_elsewhere value m ts ix w key k (some old) e found g)
          ]
        ]

    pub delete-Indexes :
        (key : Bytes) → Distinct ts → Indexes value (delete_locked key m) (remove key ts)
    unfolding delete_locked delete_found
    delete-Indexes key d = elim (Option-cases (lookup key m.by_key)) [
      | inl absent ↦ rw absent (
          changed value m ts ix m (remove key ts) key none (λ k. lookup-remove key k ts d)
            (λ k e.
              subst (λ j. Agree value (lookup j m.by_key) none) (bytes_eq→eq key k e)
                (rw absent tt))
            (λ k e. refl)
            (λ w k. elim (Bool-cases (bytes_eq key k)) [
              | inl e ↦ rw e (not_elsewhere value m ts ix w key k none e absent refl)
              | inr e ↦ rw e refl
            ])
            ix.keys_once ix.slots_once)
      | inr (old, found) ↦ rw found (
          changed value m ts ix
            (record {
              by_value = remove_from_slot_locked old key m.by_value;
              by_key = remove key m.by_key;
            })
            (remove key ts) key none (λ k. lookup-remove key k ts d)
            (λ k e. rw (lookup-remove key k m.by_key ix.keys_once, e) tt)
            (λ k e. rw (lookup-remove key k m.by_key ix.keys_once, e) refl)
            (λ w k. delete-in_slot w key k old found) (remove-Distinct key m.by_key ix.keys_once)
            (remove-SlotsDistinct value old key m.by_value ix.slots_once))
    ]

    -- A treasure that is put into a slot is the one of its key in that slot only.
    stored :
        (v w : Key) (key k : Bytes) (t : Treasure) (slots : Slots)
        → key_eq v w ≡ key_eq (value t) w
        → (bytes_eq key k ≡ true → key_eq v w ≡ false → in_slot w k slots ≡ none)
        → (bytes_eq key k ≡ false → in_slot w k slots ≡ in_slot w k m.by_value)
        → in_slot w k (put_slot v (insert key t (or_empty (find_slot v slots))) slots)
          ≡ (if bytes_eq key k then if_same value w (some t) else in_slot w k m.by_value)
    stored v w key k t slots same nowhere others =
        in_slot-put v w key k t slots ∙ elim (Bool-cases (bytes_eq key k)) [
          | inl e ↦ elim (Bool-cases (key_eq v w)) [
            | inl g ↦ rw (e, g, sym same ∙ g) refl
            | inr g ↦ rw (e, g, sym same ∙ g) (nowhere e g)
          ]
          | inr e ↦ elim (Bool-cases (key_eq v w)) [
            | inl g ↦ rw (e, g) (others e)
            | inr g ↦ rw (e, g) (others e)
          ]
        ]

    -- The value that is kept for a key that is inserted.
    inserted-Agree :
        (key k : Bytes) (t : Treasure)
        → bytes_eq key k ≡ true
        → Agree value (lookup k (insert key (value t) m.by_key)) (some t)
    inserted-Agree key k t e = rw (lookup-insert key k (value t) m.by_key, e) (λ w. refl)

    pub insert-Indexes :
        (key : Bytes) (t : Treasure)
        → Indexes value (insert_or_update_locked key (value t) t m) (insert key t ts)
    unfolding insert_or_update_locked move insert_locked
    insert-Indexes key t = elim (Option-cases (lookup key m.by_key)) [
      | inl absent ↦ rw absent (
          changed value m ts ix (insert_locked key (value t) t m) (insert key t ts) key (some t)
            (λ k. lookup-insert key k t ts) (λ k e. inserted-Agree key k t e)
            (λ k e. rw (lookup-insert key k (value t) m.by_key, e) refl)
            (λ w k.
              stored (value t) w key k t m.by_value refl
                (λ e g. not_elsewhere value m ts ix w key k none e absent refl) (λ e. refl))
            (insert-Distinct key (value t) m.by_key ix.keys_once)
            (put-SlotsDistinct value (value t) key t m.by_value ix.slots_once))
      | inr (old, found) ↦ elim (Bool-cases (key_eq old (value t))) [
        | inl same ↦
            rw (found, same)
              (changed value m ts ix
                (record m {
                  by_value =
                      put_slot old (insert key t (or_empty (find_slot old m.by_value))) m.by_value;
                })
                (insert key t ts) key (some t) (λ k. lookup-insert key k t ts)
                (λ k e.
                  subst (λ j. Agree value (lookup j m.by_key) (some t)) (bytes_eq→eq key k e)
                    (rw found (λ w. key_eq-left old (value t) w same)))
                (λ k e. refl)
                (λ w k.
                  stored old w key k t m.by_value (key_eq-left old (value t) w same)
                    (λ e g. not_elsewhere value m ts ix w key k (some old) e found g) (λ e. refl))
                ix.keys_once (put-SlotsDistinct value old key t m.by_value ix.slots_once))
        | inr apart ↦
            rw (found, apart)
              (changed value m ts ix
                (insert_locked key (value t) t
                  (record m { by_value = remove_from_slot_locked old key m.by_value }))
                (insert key t ts) key (some t) (λ k. lookup-insert key k t ts)
                (λ k e. inserted-Agree key k t e)
                (λ k e. rw (lookup-insert key k (value t) m.by_key, e) refl)
                (λ w k.
                  stored (value t) w key k t (remove_from_slot_locked old key m.by_value) refl
                    (λ e g. delete-in_slot w key k old found ∙ rw e refl)
                    (λ e. delete-in_slot w key k old found ∙ rw e refl))
                (insert-Distinct key (value t) m.by_key ix.keys_once)
                (put-SlotsDistinct value (value t) key t
                  (remove_from_slot_locked old key m.by_value)
                  (remove-SlotsDistinct value old key m.by_value ix.slots_once)))
      ]
    ]
