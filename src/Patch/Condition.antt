-- ===== src/Patch/Condition.antt =====
-- msgpackpatch/condition.go.
pub mod Order
pub mod Meets
pub mod Gate
use hydraide.Base.{
  ℕ, ◌+◌, ◌^◌, ◌%◌, Bool, true, false, List, [], ◌∷◌, Option, none, some, if◌then◌else◌, is_nil,
  not,
}
use Prim.Native.Nat.{Ordering, compare}
use hydraide.Base.Bytes.{Bytes}
use hydraide.Base.Assoc.{bytes_eq}
use hydraide.Base.Outcome.{ok, err, ◌>>=◌}
use hydraide.Patch.Errors.{Result, invalid_msgpack, type_mismatch, condition_not_met, invalid_op}
use hydraide.Patch.Msgpack.{Msgpack, Dynamic, a_string, a_bytes, a_bool, other}
use hydraide.Patch.Numeric.{
  Number, not_numeric, int_number, uint_number, float_number, read_numeric_leaf,
}
use hydraide.Patch.Parse.{or_invalid, parse, serialize}
use hydraide.Patch.Path.{parse_path}
use hydraide.Patch.Resolve.{Cursor, resolve}
use hydraide.Patch.Skeleton.{Skeleton, Leaf, leaf, map_node, array_node, leaf_bytes}
use hydraide.Patch.Apply.Run.{Op, apply_ops}

pub data CondOp : Type 0 where
  cond_equal cond_not_equal cond_greater_than cond_greater_than_or_equal : CondOp
  cond_less_than cond_less_than_or_equal cond_exists cond_not_exists cond_unknown : CondOp

pub record Condition : Type 0 where
  pub path : Bytes
  pub op : CondOp
  pub threshold : Bytes

-- `bytes.Compare`
unfoldable pub compare_bytes : Bytes → Bytes → Ordering
compare_bytes [] [] = Ordering.eq
compare_bytes [] (b ∷ bs) = Ordering.lt
compare_bytes (a ∷ xs) [] = Ordering.gt
compare_bytes (a ∷ xs) (b ∷ bs) =
    let rest = compare_bytes xs bs in
    elim (compare a b) [
      | Ordering.lt ↦ Ordering.lt
      | Ordering.eq ↦ rest
      | Ordering.gt ↦ Ordering.gt
    ]

-- The order of int64, on the two's complement.
unfoldable pub cmp_int64 : ℕ → ℕ → Ordering
cmp_int64 a b = compare ((a + 2 ^ 63) % 2 ^ 64) ((b + 2 ^ 63) % 2 ^ 64)

unfoldable pub cmp_bool : Bool → Bool → Ordering
cmp_bool true true = Ordering.eq
cmp_bool false false = Ordering.eq
cmp_bool false true = Ordering.lt
cmp_bool true false = Ordering.gt

module _ (m : Msgpack) where
  unfoldable pub cmp_float64 : ℕ → ℕ → Ordering
  cmp_float64 a b =
      if m.float_ltb a b then Ordering.lt else if m.float_ltb b a then Ordering.gt else Ordering.eq

  -- The values of `Unmarshal`, and whether the bytes are the same.
  compare_dynamic : Dynamic → Dynamic → Bool → Result Ordering
  compare_dynamic (a_string x) (a_string y) same = ok (compare_bytes x y)
  compare_dynamic (a_bytes x) (a_bytes y) same = ok (compare_bytes x y)
  compare_dynamic (a_bool x) (a_bool y) same = ok (cmp_bool x y)
  compare_dynamic other y same = if same then ok Ordering.eq else err type_mismatch
  compare_dynamic x y same = err type_mismatch

  compare_unmarshalled : Bytes → Bytes → Result Ordering
  compare_unmarshalled a b = do
    x ← or_invalid (m.unmarshal a)
    y ← or_invalid (m.unmarshal b)
    compare_dynamic x y (bytes_eq a b)

  -- The values of another kind are compared where neither is a number.
  compare_numbers : Number → Number → Result Ordering → Result Ordering
  compare_numbers not_numeric not_numeric others = others
  compare_numbers (int_number a) (int_number b) others = ok (cmp_int64 a b)
  compare_numbers (uint_number a) (uint_number b) others = ok (compare a b)
  compare_numbers (float_number a) (float_number b) others = ok (cmp_float64 a b)
  compare_numbers x y others = err type_mismatch

  unfoldable pub compare_leaf_bytes : Bytes → Bytes → Result Ordering
  unfolding compare_dynamic compare_unmarshalled compare_numbers
  compare_leaf_bytes a b =
      if is_nil a then err invalid_msgpack else if is_nil b then err invalid_msgpack else (do
        x ← read_numeric_leaf m a
        y ← read_numeric_leaf m b
        compare_numbers x y (compare_unmarshalled a b))

-- The leaf that stands at the path.
leaf_target : Option (ℕ × Skeleton) → Option Leaf
leaf_target none = none
leaf_target (some (idx, leaf l)) = some l
leaf_target (some (idx, map_node fs)) = none
leaf_target (some (idx, array_node xs)) = none

unfoldable pub is_there : Option Leaf → Bool
is_there none = false
is_there (some l) = true

-- A mismatch on the way is no error to Exists and NotExists.
unfoldable pub leaf_exists : Result Cursor → Result Bool
unfolding leaf_target is_there
leaf_exists (ok cur) = ok (is_there (leaf_target cur.target))
leaf_exists (err type_mismatch) = ok false
leaf_exists (err e) = err e

-- `met`
unfoldable pub holds : CondOp → Ordering → Result Bool
holds cond_equal c = ok (elim c [ Ordering.eq ↦ true | _ ↦ false ])
holds cond_not_equal c = ok (elim c [ Ordering.eq ↦ false | _ ↦ true ])
holds cond_greater_than c = ok (elim c [ Ordering.gt ↦ true | _ ↦ false ])
holds cond_greater_than_or_equal c = ok (elim c [ Ordering.lt ↦ false | _ ↦ true ])
holds cond_less_than c = ok (elim c [ Ordering.lt ↦ true | _ ↦ false ])
holds cond_less_than_or_equal c = ok (elim c [ Ordering.gt ↦ false | _ ↦ true ])
holds op c = err invalid_op

abbrev pub must : Bool → Result (Unit {0})
must true = ok tt
must false = err condition_not_met

module _ (m : Msgpack) where
  unfoldable pub compare_with : Bytes → Condition → Option Leaf → Result (Unit {0})
  compare_with orig cond none = err condition_not_met
  compare_with orig cond (some l) = do
    c ← compare_leaf_bytes m (leaf_bytes l orig) cond.threshold
    met ← holds cond.op c
    must met

  -- The comparators need a leaf, and a walk that reaches it.
  unfoldable pub by_op : CondOp → Bool → Result (Unit {0}) → Result (Unit {0})
  by_op cond_exists exists compared = must exists
  by_op cond_not_exists exists compared = must (not exists)
  by_op op exists compared = compared

  unfoldable pub evaluate_condition : Bytes → Condition → Skeleton → Result (Unit {0})
  unfolding compare_with by_op leaf_target
  evaluate_condition orig cond skel = do
    path ← parse_path cond.path
    let found = resolve path skel
    exists ← leaf_exists found
    by_op cond.op exists (found >>= λ cur. compare_with orig cond (leaf_target cur.target))

  check_condition : Bytes → Option Condition → Skeleton → Result (Unit {0})
  check_condition orig none skel = ok tt
  check_condition orig (some cond) skel = evaluate_condition orig cond skel

  unfoldable pub apply_with_condition : Bytes → List Op → Option Condition → Result Bytes
  unfolding check_condition
  apply_with_condition blob ops cond = do
    skel ← parse m blob
    met ← check_condition blob cond skel
    skel' ← apply_ops m blob ops skel
    ok (serialize m blob skel')
