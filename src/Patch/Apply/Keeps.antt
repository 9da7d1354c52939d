-- ===== src/Patch/Apply/Keeps.antt =====
-- Changes of a cursor's parent that keep the fields of the other names.
use hydraide.Base.{ℕ, ◌≡◌, refl, sym, List, [], ◌∷◌, none, some}
use mathlib.Core.Path.{subst}
use hydraide.Base.Bytes.{Bytes}
use hydraide.Base.Outcome.{ok, ◌>>=◌, >>=-eq-ok}
use hydraide.Patch.Errors.{Result}
use hydraide.Patch.Fields.{others, others-append, others-set, others-delete}
use hydraide.Patch.Path.{Segment, seg_field}
use hydraide.Patch.Resolve.{Cursor, found_at, resolve}
use hydraide.Patch.Resolve.Steps.{no_target, Leads, Walk, resolve-Walk}
use hydraide.Patch.Skeleton.{
  Skeleton, map_node, Fields, no_fields, find_field, append_field, set_field, set_child,
  delete_child, delete_field,
}
use hydraide.Patch.Apply.Create.{add_chain, create}
use hydraide.Patch.Apply.Ops.{delete_at, remove_at, remove_val, remove_from}
use hydraide.Patch.Apply.Run.{edit}
use hydraide.Patch.Apply.Update.{create-ok, update}

-- A map with the same fields of the other names, in their order.
abbrev pub Kept : Bytes → Fields → Skeleton → Type 0
Kept name fs s = (fs' : Fields) × (s ≡ map_node fs') × (others name fs' ≡ others name fs)

-- A change that keeps them, at the cursors that the walk can end with in a root that is a map.
pub record KeepsOthers (name : Bytes) (rest : List Segment) (fs : Fields)
    (f : Cursor → Result Skeleton) : Type 0 where
  pub when_missing :
      (parent : Skeleton)
      → find_field name fs ≡ none
      → f (no_target (some (seg_field name ∷ rest)) (map_node fs)) ≡ ok parent
      → Kept name fs parent
  pub when_found :
      (i : ℕ) (t parent : Skeleton)
      → find_field name fs ≡ some (i, t)
      → f (found_at (map_node fs) i t) ≡ ok parent
      → Kept name fs parent

pub set-Kept :
    (name : Bytes) (fs : Fields) (i : ℕ) (t node : Skeleton)
    → find_field name fs ≡ some (i, t)
    → Kept name fs (set_child i node (map_node fs))
unfolding set_child
set-Kept name fs i t node e = (set_field i node fs, refl, others-set name node fs i t e)

lead-find :
    (name : Bytes) (fs : Fields) (i : ℕ) (t : Skeleton)
    → Leads (seg_field name) (map_node fs) i t
    → find_field name fs ≡ some (i, t)
lead-find name fs i t (Leads.by_field name' fs' i' t' e) = e

Walk-Kept :
    (name : Bytes) (rest : List Segment) (fs : Fields) (f : Cursor → Result Skeleton) {cur : Cursor}
    → KeepsOthers name rest fs f
    → Walk (seg_field name ∷ rest) (map_node fs) cur
    → (parent : Skeleton) → f cur ≡ ok parent
    → Kept name fs (cur.put parent)
Walk-Kept name rest fs f keeps (Walk.at_missing name' rest' fs' cur absent e) parent changed =
    rw e (keeps.when_missing parent absent (rw e at changed))
Walk-Kept name rest fs f keeps (Walk.at_child seg s child i cur lead e) parent changed =
    rw e (keeps.when_found i child parent (lead-find name fs i child lead) (rw e at changed))
Walk-Kept name rest fs f keeps (Walk.below seg s more s' child i cur cur' lead e walk) parent
      changed =
    rw e (set-Kept name fs i child (cur.put parent) (lead-find name fs i child lead))

pub edit-Kept :
    (name : Bytes) (rest : List Segment) (fs : Fields) (f : Cursor → Result Skeleton) (s : Skeleton)
    → KeepsOthers name rest fs f
    → edit (seg_field name ∷ rest) f (map_node fs) ≡ ok s
    → Kept name fs s
edit-Kept name rest fs f s keeps e =
    let (cur, found, q) = >>=-eq-ok (resolve (seg_field name ∷ rest) (map_node fs)) _ e in
    let (parent, changed, r) = >>=-eq-ok (f cur) _ q in
    let same : cur.put parent ≡ s = cc in
    subst (Kept name fs) same (
      Walk-Kept name rest fs f keeps (resolve-Walk (seg_field name ∷ rest) (map_node fs) cur found)
        parent changed)

pub add_chain-others :
    (name : Bytes) (rest : List Segment) (v : Skeleton) (fs fs' : Fields)
    → add_chain (seg_field name ∷ rest) v fs ≡ ok fs'
    → others name fs' ≡ others name fs
unfolding add_chain
add_chain-others name [] v fs fs' e =
    let same : append_field fs name v ≡ fs' = cc in rw (← same) (others-append name v fs)
add_chain-others name (s ∷ segs) v fs fs' e =
    let (inner, p, q) = >>=-eq-ok (add_chain (s ∷ segs) v no_fields) _ e in
    let same : append_field fs name (map_node inner) ≡ fs' = cc in
    rw (← same) (others-append name (map_node inner) fs)

pub create-Kept :
    (name : Bytes) (rest : List Segment) (v : Skeleton) (fs : Fields) (parent : Skeleton)
    → create (seg_field name ∷ rest) (some (seg_field name ∷ rest)) v (map_node fs) ≡ ok parent
    → Kept name fs parent
create-Kept name rest v fs parent e =
    let (fs', added, same) =
      create-ok (seg_field name ∷ rest) (seg_field name ∷ rest) v fs parent e in
    (fs', sym same, add_chain-others name rest v fs fs' added)

pub change-Kept :
    (name : Bytes) (fs : Fields) (i : ℕ) (t : Skeleton) (r : Result Skeleton) (parent : Skeleton)
    → find_field name fs ≡ some (i, t)
    → (r >>= λ node. ok (set_child i node (map_node fs))) ≡ ok parent
    → Kept name fs parent
change-Kept name fs i t r parent e h =
    let (node, made, same) = >>=-eq-ok r _ h in
    let kept : set_child i node (map_node fs) ≡ parent = cc in
    subst (Kept name fs) kept (set-Kept name fs i t node e)

-- SET, INC and MERGE
pub update-KeepsOthers :
    (name : Bytes) (rest : List Segment) (fs : Fields) (f : Skeleton → Result Skeleton)
    (v : Skeleton)
    → KeepsOthers name rest fs (update (seg_field name ∷ rest) f v)
update-KeepsOthers name rest fs f v = record {
  when_missing = λ parent absent e. create-Kept name rest v fs parent e;
  when_found = λ i t parent found e. change-Kept name fs i t (f t) parent found e;
}

delete-Kept :
    (name : Bytes) (fs : Fields) (i : ℕ) (t : Skeleton)
    → find_field name fs ≡ some (i, t)
    → Kept name fs (delete_child i (map_node fs))
unfolding delete_child
delete-Kept name fs i t e = (delete_field i fs, refl, others-delete name fs i t e)

pub delete-KeepsOthers :
    (name : Bytes) (rest : List Segment) (fs : Fields) → KeepsOthers name rest fs delete_at
unfolding delete_at
delete-KeepsOthers name rest fs = record {
  when_missing = λ parent absent e. (fs, cc, refl);
  when_found = λ i t parent found e. subst (Kept name fs) (cc) (delete-Kept name fs i t found);
}

pub remove_at-KeepsOthers :
    (name : Bytes) (rest : List Segment) (fs : Fields) → KeepsOthers name rest fs remove_at
unfolding remove_at
remove_at-KeepsOthers name rest fs = record {
  when_missing = λ parent absent e. cc;
  when_found = λ i t parent found e. subst (Kept name fs) (cc) (delete-Kept name fs i t found);
}

pub remove_val-KeepsOthers :
    (orig value name : Bytes) (rest : List Segment) (fs : Fields)
    → KeepsOthers name rest fs (remove_val orig value)
unfolding remove_val
remove_val-KeepsOthers orig value name rest fs = record {
  when_missing = λ parent absent e. (fs, cc, refl);
  when_found =
      λ i t parent found e. change-Kept name fs i t (remove_from orig value t) parent found e;
}
