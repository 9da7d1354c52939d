-- ===== src/Patch/Resolve/Put.antt =====
-- What stands at a path after the cursor's parent of msgpackpatch/path.go has been changed.
use hydraide.Base.{ℕ, ◌≡◌, refl, sym, ap, ◌∙◌, List, [], ◌∷◌, Option, none, some}
use hydraide.Base.Bytes.{Bytes}
use hydraide.Base.Outcome.{ok, err, ◌>>=◌}
use hydraide.Patch.Errors.{Result}
use hydraide.Patch.Path.{Segment, seg_field, seg_append}
use hydraide.Patch.Resolve.{Cursor, under, resolve}
use hydraide.Patch.Resolve.Steps.{Leads, Leads-last, Leads-more, Leads-set, Leads-same, Walk}
use hydraide.Patch.Skeleton.{Skeleton, map_node, array_node, Fields, Items, find_field, set_child}

abbrev pub target_of : Result Cursor → Option Skeleton
target_of (err e) = none
target_of (ok cur) = elim cur.target [ none ↦ none | some (i, t) ↦ some t ]

-- The node that a path leads to.
unfoldable pub node_at : List Segment → Skeleton → Option Skeleton
node_at path s = target_of (resolve path s)

abbrev pub last_of : List Segment → List Segment
last_of [] = []
last_of (s ∷ []) = s ∷ []
last_of (s ∷ (t ∷ rest)) = last_of (t ∷ rest)

abbrev pick : Option (List Segment) → List Segment → List Segment
pick none path = last_of path
pick (some segs) path = segs

-- The part of the path that leads on from the cursor's parent.
abbrev pub remaining : List Segment → Cursor → List Segment
remaining path cur = pick cur.missing path

target-under :
    (r : Result Cursor) (parent : Skeleton) (i : ℕ)
    → target_of (r >>= λ cur. ok (under parent i cur)) ≡ target_of r
target-under (ok cur) parent i = refl
target-under (err e) parent i = refl

pub pick-more :
    (missing : Option (List Segment)) (seg s : Segment) (rest : List Segment)
    → pick missing (seg ∷ (s ∷ rest)) ≡ pick missing (s ∷ rest)
pick-more none seg s rest = refl
pick-more (some segs) seg s rest = refl

pub node_at-last :
    {seg : Segment} {parent child : Skeleton} {i : ℕ}
    → Leads seg parent i child
    → node_at (seg ∷ []) parent ≡ some child
unfolding node_at
node_at-last lead = ap target_of (Leads-last lead)

pub node_at-more :
    {seg : Segment} {parent child : Skeleton} {i : ℕ} (s : Segment) (rest : List Segment)
    → Leads seg parent i child
    → node_at (seg ∷ (s ∷ rest)) parent ≡ node_at (s ∷ rest) child
unfolding node_at
node_at-more {seg} {parent} {child} {i} s rest lead =
    ap target_of (Leads-more s rest lead) ∙ target-under (resolve (s ∷ rest) child) parent i

pub node_at-put :
    {path : List Segment} {root : Skeleton} {cur : Cursor} (node : Skeleton)
    → Walk path root cur
    → node_at path (cur.put node) ≡ node_at (remaining path cur) node
node_at-put node (Walk.at_missing name rest fs cur absent e) = rw e refl
node_at-put node (Walk.at_append xs cur e) = rw e refl
node_at-put node (Walk.at_child seg parent child i cur lead e) = rw e refl
node_at-put node (Walk.below seg s rest parent child i cur cur' lead e walk) = rw e (
    node_at-more s rest (Leads-set (cur.put node) lead)
    ∙ node_at-put node walk
    ∙ ap (λ segs. node_at segs node) (sym (pick-more cur.missing seg s rest)))

-- Where a walk ends.
pub data End (path : List Segment) (cur : Cursor) : Type 0 where
  missing_end :
      (name : Bytes) (rest : List Segment) (fs : Fields)
      → find_field name fs ≡ none
      → remaining path cur ≡ seg_field name ∷ rest
      → cur.parent ≡ map_node fs
      → cur.missing ≡ some (seg_field name ∷ rest)
      → cur.target ≡ none
      → End path cur
  append_end :
      (xs : Items)
      → remaining path cur ≡ seg_append ∷ []
      → cur.parent ≡ array_node xs
      → cur.missing ≡ none
      → cur.target ≡ none
      → End path cur
  child_end :
      (seg : Segment) (i : ℕ) (child : Skeleton)
      → Leads seg cur.parent i child
      → remaining path cur ≡ seg ∷ []
      → cur.missing ≡ none
      → cur.target ≡ some (i, child)
      → End path cur

pub Walk-End :
    {path : List Segment} {root : Skeleton} {cur : Cursor} → Walk path root cur → End path cur
Walk-End (Walk.at_missing name rest fs cur absent e) =
    rw e (End.missing_end name rest fs absent refl refl refl refl)
Walk-End (Walk.at_append xs cur e) = rw e (End.append_end xs refl refl refl refl)
Walk-End (Walk.at_child seg parent child i cur lead e) =
    rw e (End.child_end seg i child lead refl refl refl)
Walk-End (Walk.below seg s rest parent child i cur cur' lead e walk) = rw e (deeper (Walk-End walk))
  where
    deeper : End (s ∷ rest) cur → End (seg ∷ (s ∷ rest)) (under parent i cur)
    deeper (End.missing_end name more fs absent rem p m t) =
        End.missing_end name more fs absent (pick-more cur.missing seg s rest ∙ rem) p m t
    deeper (End.append_end xs rem p m t) =
        End.append_end xs (pick-more cur.missing seg s rest ∙ rem) p m t
    deeper (End.child_end seg' j child' lead' rem m t) =
        End.child_end seg' j child' lead' (pick-more cur.missing seg s rest ∙ rem) m t

-- With the parent as it is, the root is as it was.
pub put-parent :
    {path : List Segment} {root : Skeleton} {cur : Cursor}
    → Walk path root cur
    → cur.put cur.parent ≡ root
put-parent (Walk.at_missing name rest fs cur absent e) = rw e refl
put-parent (Walk.at_append xs cur e) = rw e refl
put-parent (Walk.at_child seg parent child i cur lead e) = rw e refl
put-parent (Walk.below seg s rest parent child i cur cur' lead e walk) =
    rw e (ap (λ node. set_child i node parent) (put-parent walk) ∙ Leads-same lead)

-- What stood at the path is the cursor's target.
pub node_at-target :
    (path : List Segment) (root : Skeleton) {cur : Cursor}
    → resolve path root ≡ ok cur
    → node_at path root ≡ target_of (ok cur)
unfolding node_at
node_at-target path root e = ap target_of e
