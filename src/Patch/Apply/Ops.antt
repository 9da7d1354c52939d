-- ===== src/Patch/Apply/Ops.antt =====
-- The operations of msgpackpatch, each as what it makes of the cursor's parent.
use hydraide.Base.{ℕ, ◌+◌, ◌^◌, ◌%◌, Bool, false, List, Option, none, some, if◌then◌else◌}
use hydraide.Base.Bytes.{Bytes}
use hydraide.Base.Assoc.{bytes_eq}
use hydraide.Base.Outcome.{ok, err, ◌>>=◌}
use hydraide.Patch.Errors.{Result, path_invalid, type_mismatch}
use hydraide.Patch.Msgpack.{Msgpack}
use hydraide.Patch.Numeric.{
  Number, int_number, uint_number, float_number, read_numeric_leaf, encode_int_with_code,
  encode_uint_with_code, encode_float_with_code,
}
use hydraide.Patch.Path.{Segment}
use hydraide.Patch.Resolve.{Cursor}
use hydraide.Patch.Skeleton.{
  Skeleton, leaf, map_node, array_node, no_fields, Items, no_items, item, new_leaf, leaf_bytes,
  set_child, delete_child,
}
use hydraide.Patch.Apply.Create.{create, insert_into_array}
use hydraide.Patch.Apply.Merge.{merge_fields_into}

-- A target is changed to another node, or dropped.
abbrev pub change :
    Option (ℕ × Skeleton)
    → Skeleton
    → (Skeleton → Result Skeleton)
    → Result Skeleton
    → Result Skeleton
change none parent f missing = missing
change (some (idx, target)) parent f missing = f target >>= λ node. ok (set_child idx node parent)

-- applySet
unfoldable pub set_at : Bytes → List Segment → Cursor → Result Skeleton
set_at value path cur =
    change cur.target cur.parent (λ target. ok (new_leaf value))
      (create path cur.missing (new_leaf value) cur.parent)

-- applyDelete. A path that ends with "[]" has no target.
unfoldable pub delete_target : Option (ℕ × Skeleton) → Skeleton → Skeleton
delete_target none parent = parent
delete_target (some (idx, target)) parent = delete_child idx parent

unfoldable pub delete_at : Cursor → Result Skeleton
unfolding delete_target
delete_at cur = ok (delete_target cur.target cur.parent)

-- applyAppend
unfoldable pub append_at : Bytes → Bool → List Segment → Cursor → Result Skeleton
append_at value prepend path cur = insert_into_array path cur.missing value prepend cur.parent

-- applyRemoveAt, whose final segment has been tested.
remove_target : Option (ℕ × Skeleton) → Skeleton → Result Skeleton
remove_target none parent = err path_invalid
remove_target (some (idx, target)) parent = ok (delete_child idx parent)

unfoldable pub remove_at : Cursor → Result Skeleton
unfolding remove_target
remove_at cur = remove_target cur.target cur.parent

-- applyRemoveVal: the first leaf with the bytes.
leaf_is : Skeleton → Bytes → Bytes → Bool
leaf_is (leaf l) orig value = bytes_eq (leaf_bytes l orig) value
leaf_is (map_node fs) orig value = false
leaf_is (array_node xs) orig value = false

unfoldable pub remove_item : Bytes → Bytes → Items → Items
unfolding leaf_is
remove_item orig value no_items = no_items
remove_item orig value (item v xs) =
    if leaf_is v orig value then xs else item v (remove_item orig value xs)

unfoldable pub remove_from : Bytes → Bytes → Skeleton → Result Skeleton
remove_from orig value (array_node xs) = ok (array_node (remove_item orig value xs))
remove_from orig value (leaf l) = err type_mismatch
remove_from orig value (map_node fs) = err type_mismatch

unfoldable pub remove_val : Bytes → Bytes → Cursor → Result Skeleton
unfolding remove_from
remove_val orig value cur = change cur.target cur.parent (remove_from orig value) (ok cur.parent)

-- applyMerge
unfoldable pub merge_into : List (Bytes × Bytes) → Skeleton → Result Skeleton
merge_into patch (map_node fs) = ok (map_node (merge_fields_into fs patch))
merge_into patch (leaf l) = err type_mismatch
merge_into patch (array_node xs) = err type_mismatch

unfoldable pub merge_at : List (Bytes × Bytes) → List Segment → Cursor → Result Skeleton
unfolding merge_into
merge_at patch path cur =
    change cur.target cur.parent (merge_into patch)
      (create path cur.missing (map_node (merge_fields_into no_fields patch)) cur.parent)

module _ (m : Msgpack) where
  -- computeIncBytes, after the test that the classes are the same.
  unfoldable pub compute_inc_bytes : ℕ → Number → Number → Result Bytes
  compute_inc_bytes code (int_number t) (int_number d) =
      ok (encode_int_with_code m code ((t + d) % 2 ^ 64))
  compute_inc_bytes code (uint_number t) (uint_number d) =
      ok (encode_uint_with_code m code ((t + d) % 2 ^ 64))
  compute_inc_bytes code (float_number t) (float_number d) =
      ok (encode_float_with_code m code (m.float_add t d))
  compute_inc_bytes code t d = err type_mismatch

  unfoldable pub inc_target : Bytes → Number → Skeleton → Result Skeleton
  inc_target orig delta (leaf l) = do
    number ← read_numeric_leaf m (leaf_bytes l orig)
    raw ← compute_inc_bytes l.code number delta
    ok (new_leaf raw)
  inc_target orig delta (map_node fs) = err type_mismatch
  inc_target orig delta (array_node xs) = err type_mismatch

  -- applyInc, with the delta and its bytes.
  unfoldable pub inc_at : Bytes → Bytes → Number → List Segment → Cursor → Result Skeleton
  unfolding inc_target
  inc_at orig value delta path cur =
      change cur.target cur.parent (inc_target orig delta)
        (create path cur.missing (new_leaf value) cur.parent)
