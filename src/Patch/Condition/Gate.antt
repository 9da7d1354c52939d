-- ===== src/Patch/Condition/Gate.antt =====
-- What a condition of msgpackpatch/condition.go lets through.
use hydraide.Base.{◌≡◌, refl, ap, ◌∙◌, ◌↔◌, Bool, true, false, List, Option, none, some, arith}
use Prim.Native.Nat.{Ordering}
use hydraide.Base.Bytes.{Bytes}
use hydraide.Base.Outcome.{ok, err, ◌>>=◌, >>=-eq-ok}
use hydraide.Patch.Errors.{Result, condition_not_met, type_mismatch}
use hydraide.Patch.Msgpack.{Msgpack}
use hydraide.Patch.Parse.{parse}
use hydraide.Patch.Path.{parse_path}
use hydraide.Patch.Resolve.{Cursor, resolve}
use hydraide.Patch.Skeleton.{Skeleton, Leaf, leaf_bytes}
use hydraide.Patch.Apply.Run.{Op, apply}
use hydraide.Patch.Condition.{
  CondOp, cond_equal, cond_not_equal, cond_greater_than, cond_greater_than_or_equal, cond_less_than,
  cond_less_than_or_equal, cond_exists, cond_not_exists, cond_unknown, Condition,
  compare_leaf_bytes, leaf_target, is_there, leaf_exists, holds, must, compare_with, by_op,
  evaluate_condition, check_condition, apply_with_condition,
}

abbrev pub opposite : CondOp → CondOp
opposite cond_equal = cond_not_equal
opposite cond_not_equal = cond_equal
opposite cond_greater_than = cond_less_than_or_equal
opposite cond_greater_than_or_equal = cond_less_than
opposite cond_less_than = cond_greater_than_or_equal
opposite cond_less_than_or_equal = cond_greater_than
opposite cond_exists = cond_not_exists
opposite cond_not_exists = cond_exists
opposite cond_unknown = cond_unknown

holds-opposite :
    (op : CondOp) (c : Ordering) → holds op c ≡ ok true → holds (opposite op) c ≡ ok false
unfolding holds
holds-opposite cond_equal c h = ground arith
holds-opposite cond_not_equal c h = ground arith
holds-opposite cond_greater_than c h = ground arith
holds-opposite cond_greater_than_or_equal c h = ground arith
holds-opposite cond_less_than c h = ground arith
holds-opposite cond_less_than_or_equal c h = ground arith
holds-opposite cond_exists c h = ground arith
holds-opposite cond_not_exists c h = ground arith
holds-opposite cond_unknown c h = ground arith

must-true : (b : Bool) → must b ≡ ok tt → b ≡ true
must-true true e = refl
must-true false e = cc

module _ (m : Msgpack) where
  compared-opposite :
      (orig threshold path : Bytes) (op : CondOp) (l : Option Leaf)
      → compare_with m orig (record { path = path; op = op; threshold = threshold }) l ≡ ok tt
      → compare_with m orig (record { path = path; op = opposite op; threshold = threshold }) l
        ≡ err condition_not_met
  unfolding compare_with
  compared-opposite orig threshold path op none e = refl
  compared-opposite orig threshold path op (some l) e =
      let (c, p, q) = >>=-eq-ok (compare_leaf_bytes m (leaf_bytes l orig) threshold) _ e in
      let (met, r, s) = >>=-eq-ok (holds op c) _ q in
      rw (p, holds-opposite op c (r ∙ ap ok (must-true met s))) refl

  -- An unknown operator is never met.
  compared-unknown :
      (orig threshold path : Bytes) (l : Option Leaf)
      → compare_with m orig (record { path = path; op = cond_unknown; threshold = threshold }) l
        ≡ ok tt
      → compare_with m orig (record { path = path; op = cond_unknown; threshold = threshold }) l
        ≡ err condition_not_met
  unfolding compare_with holds
  compared-unknown orig threshold path none e = refl
  compared-unknown orig threshold path (some l) e =
      let (c, p, q) = >>=-eq-ok (compare_leaf_bytes m (leaf_bytes l orig) threshold) _ e in cc

  -- A walk that meets a node of another kind.
  mismatch-opposite :
      (op : CondOp)
      → by_op m op false (err type_mismatch) ≡ ok tt
      → by_op m (opposite op) false (err type_mismatch) ≡ err condition_not_met
  unfolding by_op
  mismatch-opposite cond_equal e = cc
  mismatch-opposite cond_not_equal e = cc
  mismatch-opposite cond_greater_than e = cc
  mismatch-opposite cond_greater_than_or_equal e = cc
  mismatch-opposite cond_less_than e = cc
  mismatch-opposite cond_less_than_or_equal e = cc
  mismatch-opposite cond_exists e = cc
  mismatch-opposite cond_not_exists e = refl
  mismatch-opposite cond_unknown e = cc

  by-opposite :
      (orig : Bytes) (cond : Condition) (op : CondOp) (l : Option Leaf)
      → by_op m op (is_there l) (compare_with m orig (record cond { op = op }) l) ≡ ok tt
      → by_op m
          (opposite op)
          (is_there l)
          (compare_with m orig (record cond { op = opposite op }) l)
        ≡ err condition_not_met
  unfolding by_op is_there
  by-opposite orig cond cond_exists none e = cc
  by-opposite orig cond cond_exists (some l) e = refl
  by-opposite orig cond cond_not_exists none e = refl
  by-opposite orig cond cond_not_exists (some l) e = cc
  by-opposite orig cond cond_unknown l e = compared-unknown orig cond.threshold cond.path l e
  by-opposite orig cond cond_equal l e =
      compared-opposite orig cond.threshold cond.path cond_equal l e
  by-opposite orig cond cond_not_equal l e =
      compared-opposite orig cond.threshold cond.path cond_not_equal l e
  by-opposite orig cond cond_greater_than l e =
      compared-opposite orig cond.threshold cond.path cond_greater_than l e
  by-opposite orig cond cond_greater_than_or_equal l e =
      compared-opposite orig cond.threshold cond.path cond_greater_than_or_equal l e
  by-opposite orig cond cond_less_than l e =
      compared-opposite orig cond.threshold cond.path cond_less_than l e
  by-opposite orig cond cond_less_than_or_equal l e =
      compared-opposite orig cond.threshold cond.path cond_less_than_or_equal l e

  found-opposite :
      (orig : Bytes) (cond : Condition) (found : Result Cursor)
      → (leaf_exists found >>= λ exists.
          by_op m cond.op exists
            (found >>= λ cur. compare_with m orig cond (leaf_target cur.target)))
        ≡ ok tt
      → (leaf_exists found >>= λ exists. by_op m (opposite cond.op) exists (
          found >>= λ cur.
          compare_with m orig (record cond { op = opposite cond.op }) (leaf_target cur.target)))
        ≡ err condition_not_met
  unfolding leaf_exists
  found-opposite orig cond (ok cur) e = by-opposite orig cond cond.op (leaf_target cur.target) e
  found-opposite orig cond (err type_mismatch) e = mismatch-opposite cond.op e
  found-opposite orig cond (err f) e = cc

  -- A condition that is met is not met with the opposite operator.
  pub opposite_unmet :
      (orig : Bytes) (cond : Condition) (skel : Skeleton)
      → evaluate_condition m orig cond skel ≡ ok tt
      → evaluate_condition m orig (record cond { op = opposite cond.op }) skel
        ≡ err condition_not_met
  unfolding evaluate_condition
  opposite_unmet orig cond skel e =
      let (path, p, q) = >>=-eq-ok (parse_path cond.path) _ e in
      rw p (found-opposite orig cond (resolve path skel) q)

  -- With no condition ApplyWithCondition is Apply.
  pub no_condition :
      (blob : Bytes) (ops : List Op) → apply_with_condition m blob ops none ≡ apply m blob ops
  unfolding apply_with_condition check_condition apply
  no_condition blob ops = refl

  -- ApplyWithCondition succeeds with a result exactly when the condition is met in the blob as it
  -- was and Apply succeeds with that result.
  pub condition_gates :
      (blob out : Bytes) (ops : List Op) (cond : Condition)
      → (apply_with_condition m blob ops (some cond) ≡ ok out) ↔ (
          ((skel : Skeleton) × (parse m blob ≡ ok skel)
            × (evaluate_condition m blob cond skel ≡ ok tt))
          × (apply m blob ops ≡ ok out))
  unfolding apply_with_condition check_condition apply
  condition_gates blob out ops cond = (there, back)
    where
      there :
          apply_with_condition m blob ops (some cond) ≡ ok out
          → ((skel : Skeleton) × (parse m blob ≡ ok skel)
              × (evaluate_condition m blob cond skel ≡ ok tt))
            × (apply m blob ops ≡ ok out)
      there e =
          let (skel, p, q) = >>=-eq-ok (parse m blob) _ e in
          let (u, c, r) = >>=-eq-ok (evaluate_condition m blob cond skel) _ q in
          ((skel, p, c), rw p r)

      back :
          ((skel : Skeleton) × (parse m blob ≡ ok skel)
              × (evaluate_condition m blob cond skel ≡ ok tt))
            × (apply m blob ops ≡ ok out)
          → apply_with_condition m blob ops (some cond) ≡ ok out
      back ((skel, p, c), e) = rw (p, c) (rw p at e)
