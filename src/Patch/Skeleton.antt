-- ===== src/Patch/Skeleton.antt =====
-- The skeleton of msgpackpatch/skeleton.go, a tree, and the changes of a node's children that the
-- operations make.
use hydraide.Base.{ℕ, zero, suc, [], ◌∷◌, Option, none, some, if◌then◌else◌, slice}
use hydraide.Base.Bytes.{Bytes}
use hydraide.Base.Assoc.{bytes_eq}

-- `raw` is RawBytes, which stand before the range of the original blob.
pub record Leaf : Type 0 where
  pub start : ℕ
  pub end : ℕ
  pub code : ℕ
  pub raw : Option Bytes

mutual
  pub data Skeleton : Type 0 where
    leaf : Leaf → Skeleton
    map_node : Fields → Skeleton
    array_node : Items → Skeleton

  pub data Fields : Type 0 where
    no_fields : Fields
    field : Bytes → Skeleton → Fields → Fields

  pub data Items : Type 0 where
    no_items : Items
    item : Skeleton → Items → Items

pub data Kind : Type 0 where
  kind_leaf kind_map kind_array : Kind

unfoldable pub field_count : Fields → ℕ
field_count no_fields = 0
field_count (field k v fs) = suc (field_count fs)

unfoldable pub item_count : Items → ℕ
item_count no_items = 0
item_count (item v xs) = suc (item_count xs)

-- The first field of the name, with its index.
unfoldable pub find_field : Bytes → Fields → Option (ℕ × Skeleton)
find_field name no_fields = none
find_field name (field k v fs) =
    let rest = find_field name fs in
    if bytes_eq k name
    then some (0, v)
    else elim rest [ none ↦ none | some found ↦ some (suc found.0, found.1) ]

unfoldable pub nth_item : ℕ → Items → Option Skeleton
nth_item n no_items = none
nth_item zero (item v xs) = some v
nth_item (suc n) (item v xs) = nth_item n xs

unfoldable pub append_field : Fields → Bytes → Skeleton → Fields
append_field no_fields key value = field key value no_fields
append_field (field k v fs) key value = field k v (append_field fs key value)

unfoldable pub append_item : Items → Skeleton → Items
append_item no_items value = item value no_items
append_item (item v xs) value = item v (append_item xs value)

unfoldable pub set_field : ℕ → Skeleton → Fields → Fields
set_field n value no_fields = no_fields
set_field zero value (field k v fs) = field k value fs
set_field (suc n) value (field k v fs) = field k v (set_field n value fs)

unfoldable pub set_item : ℕ → Skeleton → Items → Items
set_item n value no_items = no_items
set_item zero value (item v xs) = item value xs
set_item (suc n) value (item v xs) = item v (set_item n value xs)

unfoldable pub delete_field : ℕ → Fields → Fields
delete_field n no_fields = no_fields
delete_field zero (field k v fs) = fs
delete_field (suc n) (field k v fs) = field k v (delete_field n fs)

unfoldable pub delete_item : ℕ → Items → Items
delete_item n no_items = no_items
delete_item zero (item v xs) = xs
delete_item (suc n) (item v xs) = item v (delete_item n xs)

-- A node's child at an index, put there, or added.
unfoldable pub set_child : ℕ → Skeleton → Skeleton → Skeleton
set_child n value (leaf l) = leaf l
set_child n value (map_node fs) = map_node (set_field n value fs)
set_child n value (array_node xs) = array_node (set_item n value xs)

unfoldable pub delete_child : ℕ → Skeleton → Skeleton
delete_child n (leaf l) = leaf l
delete_child n (map_node fs) = map_node (delete_field n fs)
delete_child n (array_node xs) = array_node (delete_item n xs)

unfoldable pub add_field : Bytes → Skeleton → Skeleton → Skeleton
add_field key value (leaf l) = leaf l
add_field key value (map_node fs) = map_node (append_field fs key value)
add_field key value (array_node xs) = array_node xs

abbrev pub first_byte : Bytes → ℕ
first_byte [] = 0
first_byte (b ∷ bs) = b

-- `newLeaf`; its callers have tested that the bytes are not empty.
unfoldable pub new_leaf : Bytes → Skeleton
new_leaf raw = leaf (record { start = 0; end = 0; code = first_byte raw; raw = some raw })

bytes_of : Option Bytes → Bytes → Bytes
bytes_of none range = range
bytes_of (some raw) range = raw

unfoldable pub leaf_bytes : Leaf → Bytes → Bytes
unfolding bytes_of
leaf_bytes l orig = bytes_of l.raw (slice orig l.start l.end)
