-- ===== src/Patch/Apply/Append/Down.antt =====
-- Walks of msgpackpatch/path.go on from a cursor's parent, and to the end of an array.
use hydraide.Base.{
  ℕ, suc, ◌≡◌, refl, sym, ap, ◌∙◌, Bool, true, false, List, [], ◌∷◌, ◌++◌, some, if◌then◌else◌,
  arith,
}
use hydraide.Base.Bytes.{Bytes}
use hydraide.Base.Outcome.{ok}
use hydraide.Patch.Path.{pos, negsuc, Segment, seg_index}
use hydraide.Patch.Resolve.{Cursor, resolve_index, in_range}
use hydraide.Patch.Resolve.Steps.{Leads, Leads-set, Walk}
use hydraide.Patch.Resolve.Put.{node_at, remaining, pick-more, node_at-last, node_at-more}
use hydraide.Patch.Skeleton.{
  Skeleton, array_node, Items, no_items, item, nth_item, item_count, append_item, new_leaf,
  set_child,
}
use hydraide.Patch.Apply.Create.{insert_into_items}

-- The segments down to the cursor's parent. Any walk on from there is the same after a change below it.
pub record Reaches (path : List Segment) (cur : Cursor) : Type 0 where
  pub down : List Segment
  pub whole_path : path ≡ down ++ remaining path cur
  pub reads :
      (node : Skeleton) (s : Segment) (tail : List Segment)
      → node_at (down ++ (s ∷ tail)) (cur.put node) ≡ node_at (s ∷ tail) node

node_at-under :
    {seg : Segment} {parent child : Skeleton} {i : ℕ} (segs : List Segment) (s : Segment)
    (tail : List Segment) (node : Skeleton)
    → Leads seg parent i child
    → node_at (seg ∷ (segs ++ (s ∷ tail))) (set_child i node parent)
      ≡ node_at (segs ++ (s ∷ tail)) node
node_at-under [] s tail node lead = node_at-more s tail (Leads-set node lead)
node_at-under (t ∷ segs) s tail node lead =
    node_at-more t (segs ++ (s ∷ tail)) (Leads-set node lead)

pub Walk-Reaches :
    {path : List Segment} {root : Skeleton} {cur : Cursor} → Walk path root cur → Reaches path cur
Walk-Reaches (Walk.at_missing name rest fs cur absent e) =
    rw e (record { down = []; whole_path = refl; reads = λ node s tail. refl })
Walk-Reaches (Walk.at_append xs cur e) =
    rw e (record { down = []; whole_path = refl; reads = λ node s tail. refl })
Walk-Reaches (Walk.at_child seg parent child i cur lead e) =
    rw e (record { down = []; whole_path = refl; reads = λ node s tail. refl })
Walk-Reaches (Walk.below seg s rest parent child i cur cur' lead e walk) =
    let inner = Walk-Reaches walk in
    rw e (record {
      down = seg ∷ inner.down;
      whole_path =
          ap (◌∷◌ seg)
            (inner.whole_path ∙ ap (◌++◌ inner.down) (sym (pick-more cur.missing seg s rest)));
      reads = λ node t tail.
          node_at-under inner.down t tail (cur.put node) lead ∙ inner.reads node t tail;
    })

-- Where the value is afterwards: last, or first.
abbrev pub place : Bool → Segment
place prepend = seg_index (if prepend then pos 0 else negsuc 0)

pub nth-append : (xs : Items) (v : Skeleton) → nth_item (item_count xs) (append_item xs v) ≡ some v
unfolding nth_item item_count append_item
nth-append no_items v = refl
nth-append (item w xs) v = nth-append xs v

pub count-append : (xs : Items) (v : Skeleton) → item_count (append_item xs v) ≡ suc (item_count xs)
unfolding item_count append_item
count-append no_items v = refl
count-append (item w xs) v = ap suc (count-append xs v)

last_index : (n : ℕ) → resolve_index (negsuc 0) (suc n) ≡ ok n
unfolding resolve_index in_range
last_index n = ground arith

first_index : (n : ℕ) → resolve_index (pos 0) (suc n) ≡ ok 0
unfolding resolve_index in_range
first_index n = ground arith

pub placed :
    (xs : Items) (raw : Bytes) (prepend : Bool)
    → node_at (place prepend ∷ []) (array_node (insert_into_items xs raw prepend))
      ≡ some (new_leaf raw)
unfolding insert_into_items item_count nth_item
placed xs raw true = node_at-last (
    Leads.by_index (pos 0) (item (new_leaf raw) xs) 0 (new_leaf raw) (first_index (item_count xs))
      refl)
placed xs raw false = node_at-last (
    Leads.by_index (negsuc 0) (append_item xs (new_leaf raw)) (item_count xs) (new_leaf raw)
      (rw (count-append xs (new_leaf raw)) (last_index (item_count xs)))
      (nth-append xs (new_leaf raw)))
