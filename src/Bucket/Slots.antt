-- ===== src/Bucket/Slots.antt =====
-- The two maps of bucket/bucket.go and the helpers that change them under the bucket's mutex.
use hydraide.Base.{ℕ, ◌+◌, List, [], ◌∷◌, ◌++◌, Option, none, some, if◌then◌else◌, is_nil, length}
use hydraide.Base.Bytes.{Bytes}
use hydraide.Base.Assoc.{lookup, insert, remove}
use hydraide.Bucket.Canon.{Key, key_eq, Conversions, equal}

-- A treasure, with the content that it has when the bucket is given it.
pub record Treasure : Type 0 where
  pub key : Bytes
  pub content : Option Bytes

abbrev pub Slot : Type 0
Slot = List (Bytes × Treasure)

abbrev pub Slots : Type 0
Slots = List (Key × Slot)

unfoldable pub find_slot : Key → Slots → Option Slot
find_slot v [] = none
find_slot v ((w, slot) ∷ rest) = if key_eq w v then some slot else find_slot v rest

-- `m[v] = slot`
unfoldable pub put_slot : Key → Slot → Slots → Slots
put_slot v slot [] = (v, slot) ∷ []
put_slot v slot ((w, old) ∷ rest) =
    if key_eq w v then (w, slot) ∷ rest else (w, old) ∷ put_slot v slot rest

-- `delete(m, v)`
unfoldable pub drop_slot : Key → Slots → Slots
drop_slot v [] = []
drop_slot v ((w, old) ∷ rest) = if key_eq w v then rest else (w, old) ∷ drop_slot v rest

pub record Maps : Type 0 where
  pub by_value : Slots
  pub by_key : List (Bytes × Key)

abbrev pub or_empty : Option Slot → Slot
or_empty none = []
or_empty (some slot) = slot

unfoldable pub insert_locked : Bytes → Key → Treasure → Maps → Maps
insert_locked key v t m = record {
  by_value = put_slot v (insert key t (or_empty (find_slot v m.by_value))) m.by_value;
  by_key = insert key v m.by_key;
}

-- A slot that becomes empty is deleted.
unfoldable pub shrunk : Key → Slot → Slots → Slots
shrunk v slot slots = if is_nil slot then drop_slot v slots else put_slot v slot slots

unfoldable pub remove_found : Key → Bytes → Option Slot → Slots → Slots
remove_found v key none slots = slots
remove_found v key (some slot) slots = shrunk v (remove key slot) slots

unfoldable pub remove_from_slot_locked : Key → Bytes → Slots → Slots
unfolding remove_found shrunk
remove_from_slot_locked v key slots = remove_found v key (find_slot v slots) slots

-- The treasure is put into its slot again where its value is the same.
unfoldable pub move : Option Key → Bytes → Key → Treasure → Maps → Maps
move none key v t m = insert_locked key v t m
move (some old) key v t m =
    if key_eq old v
    then record m {
      by_value = put_slot old (insert key t (or_empty (find_slot old m.by_value))) m.by_value;
    }
    else insert_locked key v t (record m { by_value = remove_from_slot_locked old key m.by_value })

unfoldable pub insert_or_update_locked : Bytes → Key → Treasure → Maps → Maps
unfolding move
insert_or_update_locked key v t m = move (lookup key m.by_key) key v t m

unfoldable pub delete_found : Option Key → Bytes → Maps → Maps
delete_found none key m = m
delete_found (some old) key m = record {
  by_value = remove_from_slot_locked old key m.by_value;
  by_key = remove key m.by_key;
}

unfoldable pub delete_locked : Bytes → Maps → Maps
unfolding delete_found
delete_locked key m = delete_found (lookup key m.by_key) key m

abbrev pub treasures : Slot → List Treasure
treasures [] = []
treasures ((k, t) ∷ slot) = t ∷ treasures slot

module _ (f : Conversions) where
  -- The slots of the other keys that are equal to the value.
  unfoldable pub collect_others : Key → Slots → List Treasure
  collect_others want [] = []
  collect_others want ((v, slot) ∷ rest) =
      let found = collect_others want rest in
      if key_eq v want then found else if equal f v want then treasures slot ++ found else found

  unfoldable pub collect_matching_locked : Key → Slots → List Treasure
  collect_matching_locked want slots =
      treasures (or_empty (find_slot want slots)) ++ collect_others want slots

  unfoldable pub count_others : Key → Slots → ℕ
  count_others want [] = 0
  count_others want ((v, slot) ∷ rest) =
      let n = count_others want rest in
      if key_eq v want then n else if equal f v want then length slot + n else n

  unfoldable pub count_matching_locked : Key → Slots → ℕ
  count_matching_locked want slots =
      length (or_empty (find_slot want slots)) + count_others want slots
