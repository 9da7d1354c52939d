-- ===== src/Patch/Tests.antt =====
-- The theorems on msgpackpatch at a small tree.
pub mod Codec
mod Reading
use hydraide.Base.{
  ℕ, ◌+◌, ◌%◌, ◌^◌, ◌≡◌, ◌≢◌, ◌↔◌, refl, true, false, [], ◌∷◌, ◌++◌, List, some, none, ltb,
  if◌then◌else◌, arith, length, slice, is_nil,
}
use Prim.Native.Nat.{Ordering}
use hydraide.Base.Bytes.{Bytes}
use hydraide.Base.Assoc.{bytes_eq}
use hydraide.Base.Outcome.{ok, err}
use hydraide.Base.Split.{split, cut}
use hydraide.Patch.Codes.{is_map_code, is_array_code, is_string_code, is_float_code, code_int8}
use hydraide.Patch.Errors.{Error, out_of_fuel}
use hydraide.Patch.Msgpack.{sign_extend}
use hydraide.Patch.Numeric.{
  Number, int_number, classify_numeric_code, read_numeric_leaf, encode_int_with_code,
}
use hydraide.Patch.Numeric.Sums.{Holds, int_code, int_width}
use hydraide.Patch.Parse.{parse, serialize, or_invalid}
use hydraide.Patch.Parse.Total.{parse_total}
use hydraide.Patch.Parse.RoundTrip.{Fits, OneValue}
use hydraide.Patch.Path.{
  ℤ, negsuc, pos, Segment, seg_field, seg_index, seg_append, parse_path, atoi, parse_inner,
  digits_value,
}
use hydraide.Patch.Path.Grammar.{
  Part, IsPart, path_text, path_segments, bracket_segments, parse_path-text,
}
use hydraide.Patch.Resolve.{resolve, resolve_index, in_range}
use hydraide.Patch.Resolve.Put.{node_at}
use hydraide.Patch.Fields.{others}
use hydraide.Patch.Skeleton.{
  Skeleton, leaf, map_node, array_node, Fields, no_fields, field, Items, no_items, item, find_field,
  nth_item, item_count, append_field, append_item, set_field, set_item, delete_field, set_child,
  delete_child, new_leaf, leaf_bytes,
}
use hydraide.Patch.Apply.Create.{
  add_chain, create, ends_in_field, ends_in_append, insert_into_array, insert_into_items, but_last,
}
use hydraide.Patch.Apply.Merge.{merge_fields_into}
use hydraide.Patch.Apply.Merged.{value_at, overridden, value_at-merge}
use hydraide.Patch.Apply.Ops.{set_at, delete_at, append_at, inc_at, compute_inc_bytes}
use hydraide.Patch.Apply.Run.{op_set, op_delete, op_inc, op_append, apply_kind, apply}
use hydraide.Patch.Apply.Reads.{set-node_at, inc-node_at, Incremented}
use hydraide.Patch.Apply.Frame.{apply_kind-others}
use hydraide.Patch.Apply.Delete.{KeysDistinct, delete-node_at}
use hydraide.Patch.Apply.Append.{append-node_at}
use hydraide.Patch.Apply.Inc.{inc_int}
use hydraide.Patch.Apply.Clone.{apply_none}
use hydraide.Patch.Condition.{
  Condition, cond_exists, evaluate_condition, apply_with_condition, compare_leaf_bytes,
}
use hydraide.Patch.Condition.Gate.{condition_gates}
use hydraide.Patch.Tests.Codec.{codec, codec-Documented, codec-DocumentedNumbers}

abbrev name_a : Bytes
name_a = b'a' ∷ []

abbrev name_t : Bytes
name_t = b't' ∷ []

abbrev name_n : Bytes
name_n = b'n' ∷ []

abbrev byte_127 : Bytes
byte_127 = 0xd0 ∷ 127 ∷ []

abbrev byte_1 : Bytes
byte_1 = 0xd0 ∷ 1 ∷ []

-- {"a": int8(127), "t": [7]}
abbrev tree_with : Bytes → Items → Fields → Skeleton
tree_with a t more = map_node (field name_a (new_leaf a) (field name_t (array_node t) more))

abbrev sevens : Items
sevens = item (new_leaf (7 ∷ [])) no_items

abbrev tree : Skeleton
tree = tree_with byte_127 sevens no_fields

-- SET "n.a" creates a map.
abbrev new_path : List Segment
new_path = seg_field name_n ∷ seg_field name_a ∷ []

abbrev tree_set : Skeleton
tree_set =
    tree_with byte_127 sevens
      (field name_n (map_node (field name_a (new_leaf (9 ∷ [])) no_fields)) no_fields)

tree_set_done : apply_kind codec [] op_set (9 ∷ []) new_path tree ≡ ok tree_set
unfolding apply_kind set_at resolve find_field bytes_eq create add_chain ends_in_field append_field
    new_leaf
tree_set_done = refl

set-node_at_example : node_at new_path tree_set ≡ some (new_leaf (9 ∷ []))
set-node_at_example = set-node_at codec [] (9 ∷ []) new_path tree tree_set tree_set_done

apply_kind-others_example :
    (fs' : Fields) × (tree_set ≡ map_node fs')
    × (others name_n fs'
        ≡ others name_n
            (field name_a (new_leaf byte_127) (field name_t (array_node sevens) no_fields)))
apply_kind-others_example =
    apply_kind-others codec [] op_set (9 ∷ []) name_n (seg_field name_a ∷ [])
      (field name_a (new_leaf byte_127) (field name_t (array_node sevens) no_fields)) tree_set
      tree_set_done

-- INC of 127 by 1 is -128.
abbrev tree_inc : Skeleton
tree_inc = tree_with (0xd0 ∷ 128 ∷ []) sevens no_fields

tree_inc_done : apply_kind codec [] op_inc byte_1 (seg_field name_a ∷ []) tree ≡ ok tree_inc
unfolding apply_kind inc_at resolve find_field bytes_eq read_numeric_leaf classify_numeric_code
    is_float_code compute_inc_bytes encode_int_with_code leaf_bytes set_child set_field new_leaf
    codec or_invalid
tree_inc_done = refl

inc-node_at_example :
    (delta : Number) × (node : Skeleton) × (read_numeric_leaf codec byte_1 ≡ ok delta)
    × (node_at (seg_field name_a ∷ []) tree_inc ≡ some node)
    × Incremented codec [] byte_1 delta (node_at (seg_field name_a ∷ []) tree) node
inc-node_at_example =
    inc-node_at codec [] byte_1 (seg_field name_a ∷ []) tree tree_inc tree_inc_done

inc_int_example :
    (raw : Bytes) × (compute_inc_bytes codec code_int8 (int_number 127) (int_number 1) ≡ ok raw)
    × Holds codec raw
        (int_code code_int8)
        (int_number (sign_extend (int_width code_int8) ((127 + 1) % 2 ^ int_width code_int8)))
inc_int_example = inc_int codec codec-DocumentedNumbers code_int8 127 1

abbrev tree_deleted : Skeleton
tree_deleted = map_node (field name_t (array_node sevens) no_fields)

tree_deleted_done : apply_kind codec [] op_delete [] (seg_field name_a ∷ []) tree ≡ ok tree_deleted
unfolding apply_kind delete_at resolve find_field bytes_eq delete_child delete_field
tree_deleted_done = refl

tree-KeysDistinct : KeysDistinct tree
unfolding KeysDistinct find_field bytes_eq new_leaf
tree-KeysDistinct = (refl, tt, (refl, (tt, tt), tt))

a-ends : ends_in_field (seg_field name_a ∷ []) ≡ true
unfolding ends_in_field
a-ends = refl

delete-node_at_example : node_at (seg_field name_a ∷ []) tree_deleted ≡ none
delete-node_at_example =
    delete-node_at codec [] [] (seg_field name_a ∷ []) tree tree_deleted tree_deleted_done a-ends
      tree-KeysDistinct

abbrev tree_appended : Skeleton
tree_appended =
    tree_with byte_127 (item (new_leaf (7 ∷ [])) (item (new_leaf (8 ∷ [])) no_items)) no_fields

tree_appended_done :
    apply_kind codec [] op_append (8 ∷ []) (seg_field name_t ∷ seg_append ∷ []) tree
    ≡ ok tree_appended
unfolding apply_kind append_at resolve find_field bytes_eq insert_into_array ends_in_append
    insert_into_items append_item set_child set_field new_leaf
tree_appended_done = refl

append-node_at_example :
    node_at
      (but_last (seg_field name_t ∷ seg_append ∷ []) ++ (seg_index (negsuc 0) ∷ []))
      tree_appended
    ≡ some (new_leaf (8 ∷ []))
append-node_at_example =
    append-node_at codec [] (8 ∷ []) (seg_field name_t ∷ seg_append ∷ []) tree tree_appended
      tree_appended_done

value_at-merge_example :
    value_at name_a (
      merge_fields_into
        (field name_a (new_leaf (1 ∷ [])) no_fields)
        ((name_t, 2 ∷ []) ∷ (name_a, 3 ∷ []) ∷ []))
    ≡ overridden name_a
        (value_at name_a (field name_a (new_leaf (1 ∷ [])) no_fields))
        ((name_t, 2 ∷ []) ∷ (name_a, 3 ∷ []) ∷ [])
value_at-merge_example =
    value_at-merge name_a (field name_a (new_leaf (1 ∷ [])) no_fields)
      ((name_t, 2 ∷ []) ∷ (name_a, 3 ∷ []) ∷ [])
