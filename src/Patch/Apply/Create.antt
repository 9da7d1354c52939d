-- ===== src/Patch/Apply/Create.antt =====
-- The maps that msgpackpatch's operations create for the segments that are missing.
use hydraide.Base.{Bool, true, false, List, [], ◌∷◌, Option, none, some, if◌then◌else◌}
use hydraide.Base.Bytes.{Bytes}
use hydraide.Base.Outcome.{ok, err, ◌>>=◌}
use hydraide.Patch.Errors.{Result, path_invalid, type_mismatch}
use hydraide.Patch.Path.{Segment, seg_field, seg_index, seg_append}
use hydraide.Patch.Skeleton.{
  Skeleton, leaf, map_node, array_node, Fields, no_fields, Items, no_items, item, find_field,
  append_field, append_item, set_field, new_leaf,
}

-- The loop over the segments from MissingAt on, and the field that it ends with.
unfoldable pub add_chain : List Segment → Skeleton → Fields → Result Fields
add_chain [] value fs = err path_invalid
add_chain (seg_field name ∷ []) value fs = ok (append_field fs name value)
add_chain (seg_field name ∷ (s ∷ segs)) value fs = do
  inner ← add_chain (s ∷ segs) value no_fields
  ok (append_field fs name (map_node inner))
add_chain (seg_index i ∷ segs) value fs = err path_invalid
add_chain (seg_append ∷ segs) value fs = err path_invalid

-- A final segment that is no field stops SET, INC and MERGE where there is no target.
unfoldable pub ends_in_field : List Segment → Bool
ends_in_field [] = false
ends_in_field (seg_field name ∷ []) = true
ends_in_field (seg_index i ∷ []) = false
ends_in_field (seg_append ∷ []) = false
ends_in_field (s ∷ (t ∷ segs)) = ends_in_field (t ∷ segs)

add_missing : List Segment → Skeleton → Skeleton → Result Skeleton
add_missing segs value (map_node fs) = add_chain segs value fs >>= λ fs'. ok (map_node fs')
add_missing segs value (leaf l) = err type_mismatch
add_missing segs value (array_node xs) = err type_mismatch

-- There are none where the final segment is "[]".
create_at : Option (List Segment) → Skeleton → Skeleton → Result Skeleton
create_at none value parent = err path_invalid
create_at (some segs) value parent = add_missing segs value parent

unfoldable pub create : List Segment → Option (List Segment) → Skeleton → Skeleton → Result Skeleton
unfolding create_at add_missing
create path missing value parent =
    if ends_in_field path then create_at missing value parent else err path_invalid

-- `insertIntoArray`
unfoldable pub insert_into_items : Items → Bytes → Bool → Items
insert_into_items xs raw prepend =
    if prepend then item (new_leaf raw) xs else append_item xs (new_leaf raw)

unfoldable pub insert_existing : Skeleton → Bytes → Bool → Result Skeleton
insert_existing (array_node xs) raw prepend = ok (array_node (insert_into_items xs raw prepend))
insert_existing (leaf l) raw prepend = err type_mismatch
insert_existing (map_node fs) raw prepend = err type_mismatch

-- The chain of APPEND and PREPEND, whose last field is given an array.
unfoldable pub add_array : List Segment → Bytes → Bool → Fields → Result Fields
unfolding insert_existing
add_array [] raw prepend fs = err path_invalid
add_array (seg_field name ∷ []) raw prepend fs = elim (find_field name fs) [
  | none ↦ ok (append_field fs name (array_node (item (new_leaf raw) no_items)))
  | some found ↦ insert_existing found.1 raw prepend >>= λ arr. ok (set_field found.0 arr fs)
]
add_array (seg_field name ∷ (s ∷ segs)) raw prepend fs = do
  inner ← add_array (s ∷ segs) raw prepend no_fields
  ok (append_field fs name (map_node inner))
add_array (seg_index i ∷ segs) raw prepend fs = err path_invalid
add_array (seg_append ∷ segs) raw prepend fs = err path_invalid

unfoldable pub ends_in_append : List Segment → Bool
ends_in_append [] = false
ends_in_append (seg_append ∷ []) = true
ends_in_append (seg_field name ∷ []) = false
ends_in_append (seg_index i ∷ []) = false
ends_in_append (s ∷ (t ∷ segs)) = ends_in_append (t ∷ segs)

unfoldable pub ends_in_index : List Segment → Bool
ends_in_index [] = false
ends_in_index (seg_index i ∷ []) = true
ends_in_index (seg_field name ∷ []) = false
ends_in_index (seg_append ∷ []) = false
ends_in_index (s ∷ (t ∷ segs)) = ends_in_index (t ∷ segs)

abbrev pub but_last : List Segment → List Segment
but_last [] = []
but_last (s ∷ []) = []
but_last (s ∷ (t ∷ segs)) = s ∷ but_last (t ∷ segs)

array_missing : List Segment → Bytes → Bool → Skeleton → Result Skeleton
array_missing segs raw prepend (map_node fs) =
    add_array segs raw prepend fs >>= λ fs'. ok (map_node fs')
array_missing segs raw prepend (leaf l) = err type_mismatch
array_missing segs raw prepend (array_node xs) = err type_mismatch

no_array : Option (List Segment) → Bytes → Bool → Skeleton → Result Skeleton
no_array none raw prepend parent = err type_mismatch
no_array (some segs) raw prepend parent = array_missing (but_last segs) raw prepend parent

append_at : Option (List Segment) → Bytes → Bool → Skeleton → Result Skeleton
append_at missing raw prepend (array_node xs) = ok (array_node (insert_into_items xs raw prepend))
append_at missing raw prepend (leaf l) = no_array missing raw prepend (leaf l)
append_at missing raw prepend (map_node fs) = no_array missing raw prepend (map_node fs)

unfoldable pub insert_into_array :
    List Segment → Option (List Segment) → Bytes → Bool → Skeleton → Result Skeleton
unfolding append_at no_array array_missing
insert_into_array path missing raw prepend parent =
    if ends_in_append path then append_at missing raw prepend parent else err path_invalid
