-- ===== src/Patch/Resolve.antt =====
-- `Resolve` of msgpackpatch/path.go.
pub mod Steps
pub mod Put
use hydraide.Base.{ℕ, suc, ◌-◌, List, [], ◌∷◌, Option, none, some, if◌then◌else◌, leb, ltb, is_nil}
use hydraide.Base.Outcome.{ok, err, ◌>>=◌}
use hydraide.Patch.Errors.{Result, path_invalid, type_mismatch}
use hydraide.Patch.Path.{ℤ, pos, negsuc, Segment, seg_field, seg_index, seg_append}
use hydraide.Patch.Skeleton.{
  Skeleton, leaf, map_node, array_node, Items, find_field, nth_item, item_count, set_child,
}

-- `put` is what the pointer to the parent is for: the root with another node in the parent's place.
-- `target` has the index with the node; `missing` is MissingAt, as the segments from there on.
pub record Cursor : Type 0 where
  pub parent : Skeleton
  pub target : Option (ℕ × Skeleton)
  pub missing : Option (List Segment)
  pub put : Skeleton → Skeleton

unfoldable pub in_range : ℕ → ℕ → Result ℕ
in_range i length = if ltb i length then ok i else err path_invalid

-- A negative index counts from the end.
unfoldable pub resolve_index : ℤ → ℕ → Result ℕ
unfolding in_range
resolve_index (pos n) length = in_range n length
resolve_index (negsuc n) length =
    if leb (suc n) length then in_range (length - suc n) length else err path_invalid

abbrev pub found_at : Skeleton → ℕ → Skeleton → Cursor
found_at parent idx target = record {
  parent = parent;
  target = some (idx, target);
  missing = none;
  put = λ node. node;
}

-- The child is the parent, or the walk goes on below it.
abbrev pub under : Skeleton → ℕ → Cursor → Cursor
under current idx cur = record cur { put = λ node. set_child idx (cur.put node) current }

item_at : ℕ → Items → Result Skeleton
item_at idx xs = elim (nth_item idx xs) [ none ↦ err path_invalid | some target ↦ ok target ]

-- The walk ends at the final segment, or at the first field that is missing.
unfoldable pub resolve : List Segment → Skeleton → Result Cursor
unfolding item_at
resolve [] current = err path_invalid
resolve (seg_field name ∷ rest) (map_node fs) = elim (find_field name fs) [
  | none ↦ ok (record {
    parent = map_node fs;
    target = none;
    missing = some (seg_field name ∷ rest);
    put = λ node. node;
  })
  | some found ↦
      if is_nil rest
      then ok (found_at (map_node fs) found.0 found.1)
      else resolve rest found.1 >>= λ cur. ok (under (map_node fs) found.0 cur)
]
resolve (seg_field name ∷ rest) (leaf l) = err type_mismatch
resolve (seg_field name ∷ rest) (array_node xs) = err type_mismatch
resolve (seg_index i ∷ rest) (array_node xs) = resolve_index i (item_count xs) >>= λ idx.
    item_at idx xs >>= λ target.
    if is_nil rest
    then ok (found_at (array_node xs) idx target)
    else resolve rest target >>= λ cur. ok (under (array_node xs) idx cur)
resolve (seg_index i ∷ rest) (leaf l) = err type_mismatch
resolve (seg_index i ∷ rest) (map_node fs) = err type_mismatch
resolve (seg_append ∷ (s ∷ rest)) current = err path_invalid
resolve (seg_append ∷ []) (array_node xs) =
    ok (record { parent = array_node xs; target = none; missing = none; put = λ node. node })
resolve (seg_append ∷ []) (leaf l) = err type_mismatch
resolve (seg_append ∷ []) (map_node fs) = err type_mismatch
