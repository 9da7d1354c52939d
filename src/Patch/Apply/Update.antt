-- ===== src/Patch/Apply/Update.antt =====
-- What stands at the path of a SET, INC or MERGE of msgpackpatch afterwards.
use hydraide.Base.{
  ℕ, ◌≡◌, refl, sym, ◌∙◌, ◌≢◌, List, [], ◌∷◌, Option, none, some, inl, inr, Bool-cases, arith,
}
use mathlib.Core.Path.{subst, subst₂}
use hydraide.Base.Bytes.{Bytes}
use hydraide.Base.Outcome.{ok, err, >>=-eq-ok}
use hydraide.Patch.Errors.{Result, path_invalid}
use hydraide.Patch.Fields.{find-append}
use hydraide.Patch.Path.{Segment, seg_field, seg_index, seg_append}
use hydraide.Patch.Resolve.{Cursor, resolve}
use hydraide.Patch.Resolve.Steps.{Leads, Leads-set, resolve-Walk}
use hydraide.Patch.Resolve.Put.{
  node_at, target_of, remaining, node_at-last, node_at-more, node_at-put, node_at-target, End,
  Walk-End,
}
use hydraide.Patch.Skeleton.{
  Skeleton, map_node, Fields, no_fields, find_field, field_count, append_field, set_child,
}
use hydraide.Patch.Apply.Create.{add_chain, create, ends_in_field}
use hydraide.Patch.Apply.Ops.{change}
use hydraide.Patch.Apply.Run.{edit}

pub field_end :
    (name : Bytes) (v : Skeleton) (fs : Fields)
    → find_field name fs ≡ none
    → Leads (seg_field name) (map_node (append_field fs name v)) (field_count fs) v
field_end name v fs e =
    Leads.by_field name (append_field fs name v) (field_count fs) v (find-append name v fs e)

add_chain-field :
    (s : Segment) (segs : List Segment) (v : Skeleton) (fs fs' : Fields)
    → add_chain (s ∷ segs) v fs ≡ ok fs'
    → (name : Bytes) × (s ≡ seg_field name)
unfolding add_chain
add_chain-field (seg_field name) segs v fs fs' e = (name, refl)
add_chain-field (seg_index i) segs v fs fs' e = cc
add_chain-field seg_append segs v fs fs' e = cc

-- The value stands at the end of the maps that are created.
node_at-add_chain :
    (name : Bytes) (rest : List Segment) (v : Skeleton) (fs fs' : Fields)
    → find_field name fs ≡ none
    → add_chain (seg_field name ∷ rest) v fs ≡ ok fs'
    → node_at (seg_field name ∷ rest) (map_node fs') ≡ some v
unfolding add_chain find_field
node_at-add_chain name [] v fs fs' absent e =
    let same : append_field fs name v ≡ fs' = cc in
    rw (← same) (node_at-last (field_end name v fs absent))
node_at-add_chain name (s ∷ segs) v fs fs' absent e =
    let (inner, p, q) = >>=-eq-ok (add_chain (s ∷ segs) v no_fields) _ e in
    let same : append_field fs name (map_node inner) ≡ fs' = cc in
    let (name', seg) = add_chain-field s segs v no_fields inner p in
    rw (← same) (
      node_at-more s segs (field_end name (map_node inner) fs absent)
      ∙ subst (λ t. node_at (t ∷ segs) (map_node inner) ≡ some v) (sym seg)
          (node_at-add_chain name' segs v no_fields inner refl (rw seg at p)))

-- The target as `f` makes it, or the value where there is none.
abbrev pub updated : (Skeleton → Result Skeleton) → Skeleton → Option Skeleton → Result Skeleton
updated f v none = ok v
updated f v (some t) = f t

-- The shape that SET, INC and MERGE share.
abbrev pub update :
    List Segment → (Skeleton → Result Skeleton) → Skeleton → Cursor → Result Skeleton
update path f v cur = change cur.target cur.parent f (create path cur.missing v cur.parent)

pub create-ok :
    (path segs : List Segment) (v : Skeleton) (fs : Fields) (parent : Skeleton)
    → create path (some segs) v (map_node fs) ≡ ok parent
    → (fs' : Fields) × (add_chain segs v fs ≡ ok fs') × (map_node fs' ≡ parent)
unfolding create
create-ok path segs v fs parent e = elim (Bool-cases (ends_in_field path)) [
  | inl good ↦ let (fs', p, q) = >>=-eq-ok (add_chain segs v fs) _ (rw good at e) in (fs', p, cc)
  | inr bad ↦ absurd (let h : err path_invalid ≡ ok parent = rw bad at e in cc)
]

pub create-none :
    (path : List Segment) (v parent parent' : Skeleton) → create path none v parent ≢ ok parent'
unfolding create
create-none path v parent parent' e = ground arith

create_reads :
    {path : List Segment} {cur : Cursor} (v parent : Skeleton)
    → End path cur
    → cur.target ≡ none
    → create path cur.missing v cur.parent ≡ ok parent
    → node_at (remaining path cur) parent ≡ some v
create_reads {path} {cur} v parent (End.missing_end name rest fs absent rem p m t) none_there e =
    let (fs', added, same) =
      create-ok path (seg_field name ∷ rest) v fs parent
        (subst₂ (λ a b. create path a v b ≡ ok parent) m p e) in
    rw (rem, ← same) (node_at-add_chain name rest v fs fs' absent added)
create_reads {path} {cur} v parent (End.append_end xs rem p m t) none_there e =
    absurd (create-none path v cur.parent parent (rw m at e))
create_reads v parent (End.child_end seg i child lead rem m t) none_there e = cc

-- The target, if any, is changed, and else the value is created.
update_at :
    {path : List Segment} {cur : Cursor} (f : Skeleton → Result Skeleton) (v parent : Skeleton)
    → End path cur
    → (target : Option (ℕ × Skeleton)) → cur.target ≡ target
    → change target cur.parent f (create path cur.missing v cur.parent) ≡ ok parent
    → (node : Skeleton) × (updated f v (target_of (ok cur)) ≡ ok node)
      × (node_at (remaining path cur) parent ≡ some node)
update_at {path} {cur} f v parent end none there e =
    (v, rw there refl, create_reads v parent end there e)
update_at f v parent (End.missing_end name rest fs absent rem p m t) (some (i, child)) there e = cc
update_at f v parent (End.append_end xs rem p m t) (some (i, child)) there e = cc
update_at {path} {cur} f v parent (End.child_end seg i child lead rem m t) (some (i', child')) there
      e =
    let (node, made, same) = >>=-eq-ok (f child') _ e in
    let at_i : i ≡ i' = cc in
    let at_child : child ≡ child' = cc in
    let kept : set_child i node cur.parent ≡ parent = cc in
    (node, rw there made, rw (rem, ← kept) (node_at-last (Leads-set node lead)))

pub update_lem :
    (path : List Segment) (f : Skeleton → Result Skeleton) (v skel skel' : Skeleton)
    → edit path (update path f v) skel ≡ ok skel'
    → (node : Skeleton) × (updated f v (node_at path skel) ≡ ok node)
      × (node_at path skel' ≡ some node)
update_lem path f v skel skel' e =
    let (cur, found, q) = >>=-eq-ok (resolve path skel) _ e in
    let (parent, changed, r) = >>=-eq-ok (update path f v cur) _ q in
    let walk = resolve-Walk path skel cur found in
    let same : cur.put parent ≡ skel' = cc in
    let (node, made, reads) = update_at f v parent (Walk-End walk) cur.target refl changed in
    (node, rw (node_at-target path skel found) made, rw (← same) (node_at-put parent walk ∙ reads))
