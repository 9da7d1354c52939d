-- ===== src/Patch/Apply/Run.antt =====
-- `applyOp` and `Apply` of msgpackpatch/apply.go.
use hydraide.Base.{true, false, List, [], ◌∷◌, if◌then◌else◌, is_nil}
use hydraide.Base.Bytes.{Bytes}
use hydraide.Base.Outcome.{ok, err, ◌>>=◌}
use hydraide.Patch.Errors.{Result, path_invalid, type_mismatch, invalid_op}
use hydraide.Patch.Msgpack.{Msgpack}
use hydraide.Patch.Numeric.{
  Number, not_numeric, int_number, uint_number, float_number, read_numeric_leaf,
}
use hydraide.Patch.Parse.{parse, serialize}
use hydraide.Patch.Path.{Segment, parse_path}
use hydraide.Patch.Resolve.{Cursor, resolve}
use hydraide.Patch.Skeleton.{Skeleton}
use hydraide.Patch.Apply.Create.{ends_in_index}
use hydraide.Patch.Apply.Merge.{extract_top_level_fields}
use hydraide.Patch.Apply.Ops.{set_at, delete_at, append_at, remove_at, remove_val, merge_at, inc_at}

pub data OpKind : Type 0 where
  op_set op_delete op_inc op_append op_prepend op_remove_at op_remove_val op_merge : OpKind
  op_unknown : OpKind

pub record Op : Type 0 where
  pub kind : OpKind
  pub path : Bytes
  pub value : Bytes

-- The path is resolved, and the change of the parent put into the skeleton.
abbrev pub edit : List Segment → (Cursor → Result Skeleton) → Skeleton → Result Skeleton
edit path change skel = resolve path skel >>= λ cur. change cur >>= λ parent. ok (cur.put parent)

-- A value is required.
abbrev pub with_value : Bytes → Result Skeleton → Result Skeleton
with_value value result = if is_nil value then err invalid_op else result

unfoldable pub numeric : Number → Result Number
numeric not_numeric = err type_mismatch
numeric (int_number n) = ok (int_number n)
numeric (uint_number n) = ok (uint_number n)
numeric (float_number n) = ok (float_number n)

module _ (m : Msgpack) (orig : Bytes) where
  unfoldable pub apply_kind : OpKind → Bytes → List Segment → Skeleton → Result Skeleton
  unfolding numeric
  apply_kind op_set value path skel = with_value value (edit path (set_at value path) skel)
  apply_kind op_delete value path skel = edit path delete_at skel
  apply_kind op_inc value path skel = with_value value (
      read_numeric_leaf m value >>= λ number.
      numeric number >>= λ delta. edit path (inc_at m orig value delta path) skel)
  apply_kind op_append value path skel =
      with_value value (edit path (append_at value false path) skel)
  apply_kind op_prepend value path skel =
      with_value value (edit path (append_at value true path) skel)
  apply_kind op_remove_at value path skel =
      if ends_in_index path then edit path remove_at skel else err path_invalid
  apply_kind op_remove_val value path skel =
      with_value value (edit path (remove_val orig value) skel)
  apply_kind op_merge value path skel =
      with_value value
        (extract_top_level_fields m value >>= λ patch. edit path (merge_at patch path) skel)
  apply_kind op_unknown value path skel = err invalid_op

  unfoldable pub apply_op : Op → List Segment → Skeleton → Result Skeleton
  apply_op op path skel = apply_kind op.kind op.value path skel

  unfoldable pub apply_ops : List Op → Skeleton → Result Skeleton
  apply_ops [] skel = ok skel
  apply_ops (op ∷ ops) skel = do
    path ← parse_path op.path
    skel' ← apply_op op path skel
    apply_ops ops skel'

-- The skeleton is dropped when an operation fails.
unfoldable pub apply : Msgpack → Bytes → List Op → Result Bytes
apply m blob ops = do
  skel ← parse m blob
  skel' ← apply_ops m blob ops skel
  ok (serialize m blob skel')
