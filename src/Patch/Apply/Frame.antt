-- ===== src/Patch/Apply/Frame.antt =====
-- The fields of the other names, under each operation of msgpackpatch.
use hydraide.Base.{Option-cases, ◌≡◌, Bool, true, false, List, [], ◌∷◌, inl, inr, Bool-cases}
use hydraide.Base.Bytes.{Bytes}
use hydraide.Base.Outcome.{ok, err, >>=-eq-ok}
use hydraide.Patch.Errors.{path_invalid, type_mismatch}
use hydraide.Patch.Fields.{others, others-append, others-set}
use hydraide.Patch.Msgpack.{Msgpack}
use hydraide.Patch.Numeric.{read_numeric_leaf}
use hydraide.Patch.Path.{Segment, seg_field}
use hydraide.Patch.Resolve.Steps.{}
use hydraide.Patch.Skeleton.{
  Skeleton, map_node, array_node, Fields, no_fields, item, no_items, find_field, append_field,
  set_field, new_leaf,
}
use hydraide.Patch.Apply.Create.{
  add_array, insert_into_array, but_last, ends_in_append, ends_in_index, insert_existing,
}
use hydraide.Patch.Apply.Merge.{extract_top_level_fields, merge_fields_into}
use hydraide.Patch.Apply.Ops.{
  set_at, delete_at, append_at, remove_at, remove_val, merge_at, merge_into, inc_at, inc_target,
}
use hydraide.Patch.Apply.Run.{
  OpKind, op_set, op_delete, op_inc, op_append, op_prepend, op_remove_at, op_remove_val, op_merge,
  op_unknown, numeric, apply_kind,
}
use hydraide.Patch.Apply.Reads.{with_value-ok}
use hydraide.Patch.Apply.Keeps.{
  KeepsOthers, edit-Kept, update-KeepsOthers, delete-KeepsOthers, remove_at-KeepsOthers,
  remove_val-KeepsOthers,
}

slot-others :
    (name raw : Bytes) (prepend : Bool) (fs fs' : Fields)
    → add_array (seg_field name ∷ []) raw prepend fs ≡ ok fs'
    → others name fs' ≡ others name fs
unfolding add_array
slot-others name raw prepend fs fs' e = elim (Option-cases (find_field name fs)) [
  | inl absent ↦
      let same : append_field fs name (array_node (item (new_leaf raw) no_items)) ≡ fs' =
        cc (rw (absent, add_array) at e) in
      rw (← same) (others-append name _ fs)
  | inr ((i, t), found) ↦
      let (arr, made, same) =
        >>=-eq-ok (insert_existing t raw prepend) _ (rw (found, add_array) at e) in
      let kept : set_field i arr fs ≡ fs' = cc in rw (← kept) (others-set name arr fs i t found)
]

add_array-others :
    (name raw : Bytes) (rest : List Segment) (prepend : Bool) (fs fs' : Fields)
    → add_array (seg_field name ∷ rest) raw prepend fs ≡ ok fs'
    → others name fs' ≡ others name fs
unfolding add_array
add_array-others name raw [] prepend fs fs' e = slot-others name raw prepend fs fs' e
add_array-others name raw (s ∷ segs) prepend fs fs' e =
    let (inner, p, q) = >>=-eq-ok (add_array (s ∷ segs) raw prepend no_fields) _ e in
    let same : append_field fs name (map_node inner) ≡ fs' = cc in
    rw (← same) (others-append name (map_node inner) fs)

but_last-others :
    (name raw : Bytes) (rest : List Segment) (prepend : Bool) (fs fs' : Fields)
    → add_array (but_last (seg_field name ∷ rest)) raw prepend fs ≡ ok fs'
    → others name fs' ≡ others name fs
unfolding add_array
but_last-others name raw [] prepend fs fs' e = cc
but_last-others name raw (s ∷ segs) prepend fs fs' e =
    add_array-others name raw (but_last (s ∷ segs)) prepend fs fs' e

append-KeepsOthers :
    (value name : Bytes) (prepend : Bool) (rest : List Segment) (fs : Fields)
    → KeepsOthers name rest fs (append_at value prepend (seg_field name ∷ rest))
unfolding append_at insert_into_array
append-KeepsOthers value name prepend rest fs = record {
  when_missing = λ parent absent e. elim (Bool-cases (ends_in_append (seg_field name ∷ rest))) [
    | inl good ↦
        let (fs', added, same) =
          >>=-eq-ok (add_array (but_last (seg_field name ∷ rest)) value prepend fs) _
            (rw good at e) in
        (fs', cc, but_last-others name value rest prepend fs fs' added)
    | inr bad ↦ let h : err path_invalid ≡ ok parent = rw bad at e in cc
  ];
  when_found = λ i t parent found e. elim (Bool-cases (ends_in_append (seg_field name ∷ rest))) [
    | inl good ↦ let h : err type_mismatch ≡ ok parent = rw good at e in cc
    | inr bad ↦ let h : err path_invalid ≡ ok parent = rw bad at e in cc
  ];
}

-- An operation whose path begins with a field of a map leaves the other fields of the map as they
-- are, in their order.
pub apply_kind-others :
    (m : Msgpack) (orig : Bytes) (kind : OpKind) (value name : Bytes) (rest : List Segment)
    (fs : Fields) (s : Skeleton)
    → apply_kind m orig kind value (seg_field name ∷ rest) (map_node fs) ≡ ok s
    → (fs' : Fields) × (s ≡ map_node fs') × (others name fs' ≡ others name fs)
unfolding apply_kind set_at merge_at inc_at
apply_kind-others m orig op_set value name rest fs s e =
    edit-Kept name rest fs _ s
      (update-KeepsOthers name rest fs (λ t. ok (new_leaf value)) (new_leaf value))
      (with_value-ok value _ s e)
apply_kind-others m orig op_delete value name rest fs s e =
    edit-Kept name rest fs delete_at s (delete-KeepsOthers name rest fs) e
apply_kind-others m orig op_inc value name rest fs s e =
    let (number, decoded, q) =
      >>=-eq-ok (read_numeric_leaf m value) _ (with_value-ok value _ s e) in
    let (delta, kept, r) = >>=-eq-ok (numeric number) _ q in
    edit-Kept name rest fs _ s
      (update-KeepsOthers name rest fs (inc_target m orig delta) (new_leaf value)) r
apply_kind-others m orig op_append value name rest fs s e =
    edit-Kept name rest fs _ s (append-KeepsOthers value name false rest fs)
      (with_value-ok value _ s e)
apply_kind-others m orig op_prepend value name rest fs s e =
    edit-Kept name rest fs _ s (append-KeepsOthers value name true rest fs)
      (with_value-ok value _ s e)
apply_kind-others m orig op_remove_at value name rest fs s e =
    elim (Bool-cases (ends_in_index (seg_field name ∷ rest))) [
      | inl good ↦
          edit-Kept name rest fs remove_at s (remove_at-KeepsOthers name rest fs) (rw good at e)
      | inr bad ↦ let h : err path_invalid ≡ ok s = rw bad at e in cc
    ]
apply_kind-others m orig op_remove_val value name rest fs s e =
    edit-Kept name rest fs (remove_val orig value) s
      (remove_val-KeepsOthers orig value name rest fs) (with_value-ok value _ s e)
apply_kind-others m orig op_merge value name rest fs s e =
    let (patch, extracted, q) =
      >>=-eq-ok (extract_top_level_fields m value) _ (with_value-ok value _ s e) in
    edit-Kept name rest fs _ s
      (update-KeepsOthers name rest fs (merge_into patch)
        (map_node (merge_fields_into no_fields patch)))
      q
apply_kind-others m orig op_unknown value name rest fs s e = cc
