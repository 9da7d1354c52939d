-- ===== src/Patch/Apply/Reads.antt =====
-- SET, MERGE and INC of msgpackpatch by what stands at their path before and after.
use hydraide.Base.{◌≡◌, refl, ap, ◌⊎◌, ◌∙◌, List, [], ◌∷◌, Option, none, some, inl, inr}
use hydraide.Base.Bytes.{Bytes}
use hydraide.Base.Outcome.{ok, >>=-eq-ok}
use hydraide.Patch.Errors.{Result}
use hydraide.Patch.Msgpack.{Msgpack}
use hydraide.Patch.Numeric.{
  Number, not_numeric, int_number, uint_number, float_number, read_numeric_leaf,
}
use hydraide.Patch.Path.{Segment}
use hydraide.Patch.Resolve.Put.{node_at}
use hydraide.Patch.Skeleton.{
  Skeleton, Leaf, leaf, map_node, array_node, Fields, no_fields, new_leaf, leaf_bytes,
}
use hydraide.Patch.Apply.Merge.{extract_top_level_fields, merge_fields_into}
use hydraide.Patch.Apply.Ops.{set_at, merge_at, inc_at, compute_inc_bytes, merge_into, inc_target}
use hydraide.Patch.Apply.Run.{op_set, op_merge, op_inc, numeric, with_value, apply_kind}
use hydraide.Patch.Apply.Update.{updated, update_lem}

pub with_value-ok :
    (value : Bytes) (r : Result Skeleton) (s : Skeleton) → with_value value r ≡ ok s → r ≡ ok s
with_value-ok [] r s e = cc
with_value-ok (c ∷ cs) r s e = e

-- A SET that succeeds leaves its value at its path, which may have been missing.
pub set-node_at :
    (m : Msgpack) (orig value : Bytes) (path : List Segment) (skel skel' : Skeleton)
    → apply_kind m orig op_set value path skel ≡ ok skel'
    → node_at path skel' ≡ some (new_leaf value)
unfolding apply_kind set_at
set-node_at m orig value path skel skel' e =
    let (node, made, reads) =
      update_lem path (λ t. ok (new_leaf value)) (new_leaf value) skel skel'
        (with_value-ok value _ skel' e) in
    rw reads (set_node (node_at path skel) made)
  where
    set_node :
        {node : Skeleton} (old : Option Skeleton)
        → updated (λ t. ok (new_leaf value)) (new_leaf value) old ≡ ok node
        → some node ≡ some (new_leaf value)
    set_node none made = cc
    set_node (some t) made = cc

numeric-same : (n d : Number) → numeric n ≡ ok d → n ≡ d
unfolding numeric
numeric-same not_numeric d e = cc
numeric-same (int_number n) d e = cc
numeric-same (uint_number n) d e = cc
numeric-same (float_number n) d e = cc

-- The fields of a map, and of what is missing.
abbrev pub MapOf : Option Skeleton → Fields → Type 0
MapOf old fs = ((old ≡ none) × (fs ≡ no_fields)) ⊎ (old ≡ some (map_node fs))

merged :
    (patch : List (Bytes × Bytes)) (node : Skeleton) (old : Option Skeleton)
    → updated (merge_into patch) (map_node (merge_fields_into no_fields patch)) old ≡ ok node
    → (fs : Fields) × MapOf old fs × (node ≡ map_node (merge_fields_into fs patch))
unfolding merge_into
merged patch node none made = (no_fields, inl (refl, refl), cc)
merged patch node (some (leaf l)) made = cc
merged patch node (some (map_node fs)) made = (fs, inr refl, cc)
merged patch node (some (array_node xs)) made = cc

-- A MERGE that succeeds found a map at its path, or nothing, and leaves there the merge of those
-- fields with the fields of its value.
pub merge-node_at :
    (m : Msgpack) (orig value : Bytes) (path : List Segment) (skel skel' : Skeleton)
    → apply_kind m orig op_merge value path skel ≡ ok skel'
    → (patch : List (Bytes × Bytes)) × (fs : Fields) × (extract_top_level_fields m value ≡ ok patch)
      × MapOf (node_at path skel) fs
      × (node_at path skel' ≡ some (map_node (merge_fields_into fs patch)))
unfolding apply_kind merge_at
merge-node_at m orig value path skel skel' e =
    let (patch, extracted, q) =
      >>=-eq-ok (extract_top_level_fields m value) _ (with_value-ok value _ skel' e) in
    let (node, made, reads) =
      update_lem path (merge_into patch) (map_node (merge_fields_into no_fields patch)) skel skel'
        q in
    let (fs, was, same) = merged patch node (node_at path skel) made in
    (patch, fs, extracted, was, rw (← same) reads)

-- A numeric leaf, the number in it, and the bytes of the sum.
pub record Sum (m : Msgpack) (orig : Bytes) (delta : Number) (old new : Skeleton) : Type 0 where
  pub l : Leaf
  pub number : Number
  pub raw : Bytes
  pub was : old ≡ leaf l
  pub old_number : read_numeric_leaf m (leaf_bytes l orig) ≡ ok number
  pub sum : compute_inc_bytes m l.code number delta ≡ ok raw
  pub becomes : new ≡ new_leaf raw

-- Nothing became the value's leaf, or the sum was put in the place of a number.
abbrev pub Incremented : Msgpack → Bytes → Bytes → Number → Option Skeleton → Skeleton → Type 0
Incremented m orig value delta none new = new ≡ new_leaf value
Incremented m orig value delta (some old) new = Sum m orig delta old new

incremented :
    (m : Msgpack) (orig value : Bytes) (delta : Number) (node : Skeleton) (old : Option Skeleton)
    → updated (inc_target m orig delta) (new_leaf value) old ≡ ok node
    → Incremented m orig value delta old node
unfolding inc_target
incremented m orig value delta node none made = cc
incremented m orig value delta node (some (leaf l)) made =
    let (number, reads, q) = >>=-eq-ok (read_numeric_leaf m (leaf_bytes l orig)) _ made in
    let (raw, sum, r) = >>=-eq-ok (compute_inc_bytes m l.code number delta) _ q in
    record {
      l = l;
      number = number;
      raw = raw;
      was = refl;
      old_number = reads;
      sum = sum;
      becomes = cc;
    }
incremented m orig value delta node (some (map_node fs)) made = cc
incremented m orig value delta node (some (array_node xs)) made = cc

-- An INC that succeeds leaves at its path the leaf of its value, where there was nothing, and else
-- a leaf whose bytes are the sum with the number that was there.
pub inc-node_at :
    (m : Msgpack) (orig value : Bytes) (path : List Segment) (skel skel' : Skeleton)
    → apply_kind m orig op_inc value path skel ≡ ok skel'
    → (delta : Number) × (node : Skeleton) × (read_numeric_leaf m value ≡ ok delta)
      × (node_at path skel' ≡ some node)
      × Incremented m orig value delta (node_at path skel) node
unfolding apply_kind inc_at
inc-node_at m orig value path skel skel' e =
    let (number, decoded, q) =
      >>=-eq-ok (read_numeric_leaf m value) _ (with_value-ok value _ skel' e) in
    let (delta, kept, r) = >>=-eq-ok (numeric number) _ q in
    let (node, made, reads) =
      update_lem path (inc_target m orig delta) (new_leaf value) skel skel' r in
    (
      delta,
      node,
      decoded ∙ ap ok (numeric-same number delta kept),
      reads,
      incremented m orig value delta node (node_at path skel) made,
    )
