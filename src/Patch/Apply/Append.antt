-- ===== src/Patch/Apply/Append.antt =====
-- APPEND and PREPEND of msgpackpatch/append.go by what stands in the array afterwards.
mod Down
use hydraide.Base.{
  append-nil, append_assoc, ℕ, zero, suc, ◌+◌, ◌-◌, ◌≡◌, ◌≢◌, refl, sym, ap, ◌∙◌, ◌⊎◌, Bool, true,
  false, List, [], ◌∷◌, ◌++◌, Option, none, some, if◌then◌else◌, leb, ltb, inl, inr, Bool-cases,
  arith,
}
use mathlib.Core.Path.{subst, subst₂}
use hydraide.Base.Bytes.{Bytes}
use hydraide.Base.Outcome.{Outcome, ok, err, ◌>>=◌, >>=-eq-ok}
use hydraide.Patch.Errors.{Error, Result, path_invalid, type_mismatch}
use hydraide.Patch.Fields.{find-append}
use hydraide.Patch.Msgpack.{Msgpack}
use hydraide.Patch.Path.{ℤ, pos, negsuc, Segment, seg_field, seg_index, seg_append}
use hydraide.Patch.Resolve.{Cursor, under, resolve, resolve_index, in_range}
use hydraide.Patch.Resolve.Steps.{no_target, Leads, Leads-set, Walk, resolve-Walk}
use hydraide.Patch.Resolve.Put.{
  node_at, remaining, pick-more, last_of, node_at-last, node_at-more, End, Walk-End,
}
use hydraide.Patch.Skeleton.{
  Skeleton, leaf, map_node, array_node, Fields, no_fields, Items, no_items, item, find_field,
  field_count, nth_item, item_count, append_item, append_field, new_leaf, set_child,
}
use hydraide.Patch.Apply.Create.{
  add_array, insert_into_array, insert_into_items, but_last, ends_in_append,
}
use hydraide.Patch.Apply.Ops.{append_at}
use hydraide.Patch.Apply.Reads.{with_value-ok}
use hydraide.Patch.Apply.Update.{field_end}
use hydraide.Patch.Apply.Run.{op_append, op_prepend, edit, apply_kind}
use hydraide.Patch.Apply.Append.Down.{Reaches, Walk-Reaches, place, placed}

new_array :
    (raw : Bytes) (prepend : Bool)
    → node_at (place prepend ∷ []) (array_node (item (new_leaf raw) no_items)) ≡ some (new_leaf raw)
unfolding insert_into_items append_item
new_array raw true = placed no_items raw true
new_array raw false = placed no_items raw false

add_array-field :
    (s : Segment) (segs : List Segment) (raw : Bytes) (prepend : Bool) (fs fs' : Fields)
    → add_array (s ∷ segs) raw prepend fs ≡ ok fs'
    → (name : Bytes) × (s ≡ seg_field name)
unfolding add_array
add_array-field (seg_field name) segs raw prepend fs fs' e = (name, refl)
add_array-field (seg_index i) segs raw prepend fs fs' e = cc
add_array-field seg_append segs raw prepend fs fs' e = cc

node_at-add_array :
    (name : Bytes) (rest : List Segment) (raw : Bytes) (prepend : Bool) (fs fs' : Fields)
    → find_field name fs ≡ none
    → add_array (seg_field name ∷ rest) raw prepend fs ≡ ok fs'
    → node_at (seg_field name ∷ (rest ++ (place prepend ∷ []))) (map_node fs') ≡ some (new_leaf raw)
unfolding add_array find_field
node_at-add_array name [] raw prepend fs fs' absent e =
    let arr = array_node (item (new_leaf raw) no_items) in
    let same : append_field fs name arr ≡ fs' = cc (rw (absent, add_array) at e) in
    rw (← same)
      (node_at-more (place prepend) [] (field_end name arr fs absent) ∙ new_array raw prepend)
node_at-add_array name (s ∷ segs) raw prepend fs fs' absent e =
    let (inner, p, q) = >>=-eq-ok (add_array (s ∷ segs) raw prepend no_fields) _ e in
    let same : append_field fs name (map_node inner) ≡ fs' = cc in
    let (name', seg) = add_array-field s segs raw prepend no_fields inner p in
    rw (← same) (
      node_at-more s (segs ++ (place prepend ∷ [])) (field_end name (map_node inner) fs absent)
      ∙ subst
          (λ t. node_at (t ∷ (segs ++ (place prepend ∷ []))) (map_node inner) ≡ some (new_leaf raw))
          (sym seg) (node_at-add_array name' segs raw prepend no_fields inner refl (rw seg at p)))

but_last-append :
    (xs : List Segment) (s : Segment) (tail : List Segment)
    → but_last (xs ++ (s ∷ tail)) ≡ xs ++ but_last (s ∷ tail)
but_last-append [] s tail = refl
but_last-append (x ∷ []) s tail = refl
but_last-append (x ∷ (y ∷ xs)) s tail = ap (◌∷◌ x) (but_last-append (y ∷ xs) s tail)

ends-last : (path : List Segment) → ends_in_append path ≡ ends_in_append (last_of path)
unfolding ends_in_append
ends-last [] = refl
ends-last (s ∷ []) = refl
ends-last (seg_field name ∷ (t ∷ rest)) = ends-last (t ∷ rest)
ends-last (seg_index z ∷ (t ∷ rest)) = ends-last (t ∷ rest)
ends-last (seg_append ∷ (t ∷ rest)) = ends-last (t ∷ rest)

module _ (path : List Segment) (value : Bytes) (prepend : Bool) where
  ends-if-ok :
      (missing : Option (List Segment)) (node parent : Skeleton)
      → insert_into_array path missing value prepend node ≡ ok parent
      → ends_in_append path ≡ true
  unfolding insert_into_array
  ends-if-ok missing node parent e = elim (Bool-cases (ends_in_append path)) [
    | inl good ↦ good
    | inr bad ↦ let h : err path_invalid ≡ ok parent = rw bad at e in cc
  ]

  -- The path down to the array, through the parent.
  upper :
      (cur : Cursor) (s : Segment) (tail : List Segment) (d : Reaches path cur)
      → remaining path cur ≡ s ∷ tail
      → but_last path ≡ d.down ++ but_last (s ∷ tail)
  upper cur s tail d rem =
      ap (λ segs. but_last segs) (d.whole_path ∙ ap (◌++◌ d.down) rem)
      ∙ but_last-append d.down s tail

  in_array :
      (cur : Cursor) (xs : Items) (parent : Skeleton) (d : Reaches path cur)
      → remaining path cur ≡ seg_append ∷ []
      → insert_into_array path none value prepend (array_node xs) ≡ ok parent
      → node_at (but_last path ++ (place prepend ∷ [])) (cur.put parent) ≡ some (new_leaf value)
  unfolding insert_into_array
  in_array cur xs parent d rem e =
      let good = ends-if-ok none (array_node xs) parent e in
      let same : array_node (insert_into_items xs value prepend) ≡ parent = cc (rw good at e) in
      let above : but_last path ≡ d.down = upper cur seg_append [] d rem ∙ append-nil d.down in
      rw (above, ← same)
        (d.reads (array_node (insert_into_items xs value prepend)) (place prepend) []
          ∙ placed xs value prepend)

  in_chain :
      (cur : Cursor) (name : Bytes) (rest : List Segment) (fs : Fields) (parent : Skeleton)
      (d : Reaches path cur)
      → find_field name fs ≡ none
      → remaining path cur ≡ seg_field name ∷ rest
      → insert_into_array path (some (seg_field name ∷ rest)) value prepend (map_node fs)
        ≡ ok parent
      → node_at (but_last path ++ (place prepend ∷ [])) (cur.put parent) ≡ some (new_leaf value)
  unfolding insert_into_array add_array
  in_chain cur name [] fs parent d absent rem e =
      let good = ends-if-ok (some (seg_field name ∷ [])) (map_node fs) parent e in
      let h : err path_invalid ≡ ok parent = rw good at e in cc
  in_chain cur name (t ∷ more) fs parent d absent rem e =
      let good = ends-if-ok (some (seg_field name ∷ (t ∷ more))) (map_node fs) parent e in
      let segs = but_last (t ∷ more) in
      let (fs', added, q) =
        >>=-eq-ok (add_array (seg_field name ∷ segs) value prepend fs) _ (rw good at e) in
      let same : map_node fs' ≡ parent = cc in
      rw
        (
          upper cur (seg_field name) (t ∷ more) d rem,
          append_assoc d.down (seg_field name ∷ segs) (place prepend ∷ []),
          ← same,
        )
        (d.reads (map_node fs') (seg_field name) (segs ++ (place prepend ∷ []))
          ∙ node_at-add_array name segs value prepend fs fs' absent added)

  -- There is no place for it below a target.
  no_place :
      {seg : Segment} {node child : Skeleton} {i : ℕ} (parent : Skeleton)
      → Leads seg node i child
      → last_of path ≡ seg ∷ []
      → insert_into_array path none value prepend node ≢ ok parent
  unfolding insert_into_array ends_in_append
  no_place parent (Leads.by_field name fs i t f) only e =
      let good = ends-if-ok none (map_node fs) parent e in
      let h : err type_mismatch ≡ ok parent = rw good at e in cc
  no_place parent (Leads.by_index z xs i t f g) only e =
      let good = ends-if-ok none (array_node xs) parent e in
      let never : false ≡ true =
        ap (λ segs. ends_in_append segs) (sym only) ∙ (sym (ends-last path) ∙ good) in
      cc

  chain_or_array :
      (cur : Cursor) (parent : Skeleton)
      → Reaches path cur
      → End path cur
      → insert_into_array path cur.missing value prepend cur.parent ≡ ok parent
      → node_at (but_last path ++ (place prepend ∷ [])) (cur.put parent) ≡ some (new_leaf value)
  chain_or_array cur parent d (End.missing_end name rest fs absent rem p m t) e =
      in_chain cur name rest fs parent d absent rem
        (subst₂ (λ a b. insert_into_array path a value prepend b ≡ ok parent) m p e)
  chain_or_array cur parent d (End.append_end xs rem p m t) e =
      in_array cur xs parent d rem
        (subst₂ (λ a b. insert_into_array path a value prepend b ≡ ok parent) m p e)
  chain_or_array cur parent d (End.child_end seg i child lead rem m t) e = absurd (
      no_place parent lead (rw m at rem)
        (subst (λ a. insert_into_array path a value prepend cur.parent ≡ ok parent) m e))

  inserted :
      (skel skel' : Skeleton)
      → edit path (append_at value prepend path) skel ≡ ok skel'
      → node_at (but_last path ++ (place prepend ∷ [])) skel' ≡ some (new_leaf value)
  unfolding append_at
  inserted skel skel' e =
      let (cur, found, q) = >>=-eq-ok (resolve path skel) _ e in
      let (parent, changed, r) =
        >>=-eq-ok (insert_into_array path cur.missing value prepend cur.parent) _ q in
      let walk = resolve-Walk path skel cur found in
      let same : cur.put parent ≡ skel' = cc in
      rw (← same) (chain_or_array cur parent (Walk-Reaches walk) (Walk-End walk) changed)

module _ (m : Msgpack) (orig value : Bytes) (path : List Segment) (skel skel' : Skeleton) where
  -- An APPEND that succeeds leaves its value as the last item of the array at its path without the
  -- "[]", which may have been missing.
  pub append-node_at :
      apply_kind m orig op_append value path skel ≡ ok skel'
      → node_at (but_last path ++ (seg_index (negsuc 0) ∷ [])) skel' ≡ some (new_leaf value)
  unfolding apply_kind
  append-node_at e = inserted path value false skel skel' (with_value-ok value _ skel' e)

  -- A PREPEND that succeeds leaves it as the first item.
  pub prepend-node_at :
      apply_kind m orig op_prepend value path skel ≡ ok skel'
      → node_at (but_last path ++ (seg_index (pos 0) ∷ [])) skel' ≡ some (new_leaf value)
  unfolding apply_kind
  prepend-node_at e = inserted path value true skel skel' (with_value-ok value _ skel' e)
