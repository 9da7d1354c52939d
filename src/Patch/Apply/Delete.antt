-- ===== src/Patch/Apply/Delete.antt =====
-- DELETE of msgpackpatch/apply.go by what stands at its path before and after.
use hydraide.Base.{
  Option-cases, ℕ, zero, suc, ◌≡◌, refl, sym, ap, ◌∙◌, ◌⊎◌, true, List, [], ◌∷◌, Option, none, some,
  inl, inr, Bool-cases, arith,
}
use mathlib.Core.Path.{subst}
use hydraide.Base.Bytes.{Bytes}
use hydraide.Base.Assoc.{bytes_eq, bytes_eq_iff}
use hydraide.Base.Outcome.{ok, >>=-eq-ok}
use hydraide.Patch.Msgpack.{Msgpack}
use hydraide.Patch.Path.{Segment, seg_field, seg_index, seg_append}
use hydraide.Patch.Resolve.{Cursor, resolve}
use hydraide.Patch.Resolve.Steps.{Leads, Walk, resolve-Walk}
use hydraide.Patch.Resolve.Put.{
  node_at, target_of, remaining, last_of, node_at-put, node_at-target, put-parent, End, Walk-End,
}
use hydraide.Patch.Skeleton.{
  Skeleton, leaf, map_node, array_node, Fields, no_fields, field, Items, no_items, item, find_field,
  nth_item, delete_field, delete_child,
}
use hydraide.Patch.Apply.Create.{ends_in_field}
use hydraide.Patch.Apply.Ops.{delete_at, delete_target}
use hydraide.Patch.Apply.Run.{op_delete, apply_kind}

-- No map of the tree has a key twice.
unfoldable mutual
  pub KeysDistinct : Skeleton → Type 0
  KeysDistinct (leaf l) = Unit {0}
  KeysDistinct (map_node fs) = FieldsDistinct fs
  KeysDistinct (array_node xs) = ItemsDistinct xs

  pub FieldsDistinct : Fields → Type 0
  FieldsDistinct no_fields = Unit {0}
  FieldsDistinct (field k v fs) = (find_field k fs ≡ none) × KeysDistinct v × FieldsDistinct fs

  pub ItemsDistinct : Items → Type 0
  ItemsDistinct no_items = Unit {0}
  ItemsDistinct (item v xs) = KeysDistinct v × ItemsDistinct xs

find-cons :
    (name k : Bytes) (v : Skeleton) (fs : Fields) (i : ℕ) (t : Skeleton)
    → find_field name (field k v fs) ≡ some (i, t)
    → (v ≡ t) ⊎ ((j : ℕ) × (find_field name fs ≡ some (j, t)))
unfolding find_field
find-cons name k v fs i t e = elim (Bool-cases (bytes_eq k name)) [
  | inl here ↦
      let first : ◌≡◌ {A = Option (ℕ × Skeleton)} (some (0, v)) (some (i, t)) = rw here at e in
      inl (cc)
  | inr later ↦ elim (Option-cases (find_field name fs)) [
    | inl absent ↦
        let no_field : ◌≡◌ {A = Option (ℕ × Skeleton)} none (some (i, t)) =
          rw (later, absent) at e in
        cc
    | inr ((j, t'), found) ↦
        let moved : ◌≡◌ {A = Option (ℕ × Skeleton)} (some (suc j, t')) (some (i, t)) =
          rw (later, found) at e in
        let same : t' ≡ t = cc in inr (j, found ∙ ap (λ u. some (j, u)) same)
  ]
]

find-Distinct :
    (name : Bytes) (fs : Fields) (i : ℕ) (t : Skeleton)
    → FieldsDistinct fs
    → find_field name fs ≡ some (i, t)
    → KeysDistinct t
unfolding find_field KeysDistinct
find-Distinct name no_fields i t d e = cc
find-Distinct name (field k v fs) i t (fresh, dv, d) e = elim (find-cons name k v fs i t e) [
  | inl same ↦ subst KeysDistinct same dv
  | inr (j, found) ↦ find-Distinct name fs j t d found
]

nth-Distinct :
    (xs : Items) (i : ℕ) (t : Skeleton) → ItemsDistinct xs → nth_item i xs ≡ some t → KeysDistinct t
unfolding nth_item KeysDistinct
nth-Distinct no_items i t d e = cc
nth-Distinct (item v xs) zero t d e = let same : v ≡ t = cc in subst KeysDistinct same d.0
nth-Distinct (item v xs) (suc i) t d e = nth-Distinct xs i t d.1 e

Leads-Distinct :
    {seg : Segment} {parent child : Skeleton} {i : ℕ}
    → Leads seg parent i child
    → KeysDistinct parent
    → KeysDistinct child
unfolding KeysDistinct
Leads-Distinct (Leads.by_field name fs i t e) d = find-Distinct name fs i t d e
Leads-Distinct (Leads.by_index z xs i t e h) d = nth-Distinct xs i t d h

Walk-Distinct :
    {path : List Segment} {root : Skeleton} {cur : Cursor}
    → Walk path root cur
    → KeysDistinct root
    → KeysDistinct cur.parent
Walk-Distinct (Walk.at_missing name rest fs cur absent e) d = rw e d
Walk-Distinct (Walk.at_append xs cur e) d = rw e d
Walk-Distinct (Walk.at_child seg parent child i cur lead e) d = rw e d
Walk-Distinct (Walk.below seg s rest parent child i cur cur' lead e walk) d =
    rw e (Walk-Distinct walk (Leads-Distinct lead d))

find-delete :
    (name : Bytes) (fs : Fields) (i : ℕ) (t : Skeleton)
    → FieldsDistinct fs
    → find_field name fs ≡ some (i, t)
    → find_field name (delete_field i fs) ≡ none
unfolding find_field KeysDistinct delete_field
find-delete name no_fields i t d e = cc
find-delete name (field k v fs) zero t (fresh, dv, d) e = ground (arith, bytes_eq_iff k name)
find-delete name (field k v fs) (suc i) t (fresh, dv, d) e =
    ground (arith, bytes_eq_iff k name, find-delete name fs i t d)

node_at-missing :
    (name : Bytes) (rest : List Segment) (fs : Fields)
    → find_field name fs ≡ none
    → node_at (seg_field name ∷ rest) (map_node fs) ≡ none
unfolding node_at resolve
node_at-missing name rest fs e = rw (e, resolve) refl

node_at-append : (xs : Items) → node_at (seg_append ∷ []) (array_node xs) ≡ none
unfolding node_at resolve
node_at-append xs = refl

ends-last : (path : List Segment) → ends_in_field path ≡ ends_in_field (last_of path)
unfolding ends_in_field
ends-last [] = refl
ends-last (s ∷ []) = refl
ends-last (seg_field name ∷ (t ∷ rest)) = ends-last (t ∷ rest)
ends-last (seg_index z ∷ (t ∷ rest)) = ends-last (t ∷ rest)
ends-last (seg_append ∷ (t ∷ rest)) = ends-last (t ∷ rest)

deleted :
    {seg : Segment} {parent child : Skeleton} {i : ℕ}
    → Leads seg parent i child
    → ends_in_field (seg ∷ []) ≡ true
    → KeysDistinct parent
    → node_at (seg ∷ []) (delete_child i parent) ≡ none
unfolding ends_in_field KeysDistinct delete_child
deleted (Leads.by_field name fs i t e) good d =
    node_at-missing name [] (delete_field i fs) (find-delete name fs i t d e)
deleted (Leads.by_index z xs i t e h) good d = cc

-- Nothing stands at a field's path once it has been deleted, where no map has a key twice.
delete_reads :
    {path : List Segment} {cur : Cursor}
    → End path cur
    → ends_in_field path ≡ true
    → KeysDistinct cur.parent
    → node_at (remaining path cur) (delete_target cur.target cur.parent) ≡ none
unfolding delete_target
delete_reads (End.missing_end name rest fs absent rem p m t) good d =
    rw (rem, t, p) (node_at-missing name rest fs absent)
delete_reads (End.append_end xs rem p m t) good d = rw (rem, t, p) (node_at-append xs)
delete_reads {path} {cur} (End.child_end seg i child lead rem m t) good d =
    let only : last_of path ≡ seg ∷ [] = rw m at rem in
    let last_field : ends_in_field (seg ∷ []) ≡ true = rw (← only) (sym (ends-last path) ∙ good) in
    rw (rem, t) (deleted lead last_field d)

delete_none :
    (target : Option (ℕ × Skeleton)) (parent : Skeleton)
    → (elim target as (λ x. Option Skeleton) [ none ↦ none | some found ↦ some found.1 ]) ≡ none
    → delete_target target parent ≡ parent
unfolding delete_target
delete_none none parent e = refl
delete_none (some found) parent e = cc

module _ (m : Msgpack) (orig value : Bytes) (path : List Segment) (skel skel' : Skeleton)
    (done : apply_kind m orig op_delete value path skel ≡ ok skel') where
  -- A DELETE of a field that succeeds leaves nothing at its path, where no map of the tree has a
  -- key twice.
  pub delete-node_at : ends_in_field path ≡ true → KeysDistinct skel → node_at path skel' ≡ none
  unfolding apply_kind delete_at
  delete-node_at good d =
      let (cur, found, q) = >>=-eq-ok (resolve path skel) _ done in
      let walk = resolve-Walk path skel cur found in
      let same : cur.put (delete_target cur.target cur.parent) ≡ skel' = cc in
      rw (← same) (
        node_at-put (delete_target cur.target cur.parent) walk
        ∙ delete_reads (Walk-End walk) good (Walk-Distinct walk d))

  -- A DELETE of what is not there leaves the tree as it was.
  pub delete_missing : node_at path skel ≡ none → skel' ≡ skel
  unfolding apply_kind delete_at
  delete_missing nothing =
      let (cur, found, q) = >>=-eq-ok (resolve path skel) _ done in
      let walk = resolve-Walk path skel cur found in
      let same : cur.put (delete_target cur.target cur.parent) ≡ skel' = cc in
      let no_one : target_of (ok cur) ≡ none = sym (node_at-target path skel found) ∙ nothing in
      sym same ∙ ap cur.put (delete_none cur.target cur.parent no_one) ∙ put-parent walk
