-- ===== src/Patch/Resolve/Steps.antt =====
-- The walks of `Resolve` of msgpackpatch/path.go that succeed, one segment at a time.
use hydraide.Base.{
  Option-cases, ℕ, ◌≡◌, refl, ap, List, [], ◌∷◌, Option, none, some, inl, inr, sym, ◌∙◌, arith,
}
use hydraide.Base.Bytes.{Bytes}
use hydraide.Base.Outcome.{Outcome, ok, ◌>>=◌, >>=-eq-ok}
use hydraide.Patch.Path.{ℤ, Segment, seg_field, seg_index, seg_append}
use hydraide.Patch.Fields.{find-set, set-find, set-nth, nth-set, count-set}
use hydraide.Patch.Resolve.{Cursor, found_at, under, resolve, resolve_index, item_at}
use hydraide.Patch.Skeleton.{
  Skeleton, leaf, map_node, array_node, Fields, Items, find_field, nth_item, item_count, set_item,
  set_field, set_child,
}

-- There is no target, and the parent is where the walk began.
abbrev pub no_target : Option (List Segment) → Skeleton → Cursor
no_target missing parent = record {
  parent = parent;
  target = none;
  missing = missing;
  put = λ node. node;
}

-- The child that a segment leads to.
pub data Leads : Segment → Skeleton → ℕ → Skeleton → Type 0 where
  by_field :
      (name : Bytes) (fs : Fields) (i : ℕ) (t : Skeleton)
      → find_field name fs ≡ some (i, t)
      → Leads (seg_field name) (map_node fs) i t
  by_index :
      (z : ℤ) (xs : Items) (i : ℕ) (t : Skeleton)
      → resolve_index z (item_count xs) ≡ ok i
      → nth_item i xs ≡ some t
      → Leads (seg_index z) (array_node xs) i t

pub Leads-last :
    {seg : Segment} {parent child : Skeleton} {i : ℕ}
    → Leads seg parent i child
    → resolve (seg ∷ []) parent ≡ ok (found_at parent i child)
unfolding resolve item_at
Leads-last (Leads.by_field name fs i t e) = rw (e, resolve) refl
Leads-last (Leads.by_index z xs i t e h) = rw (e, resolve) (rw (h, item_at) refl)

pub Leads-more :
    {seg : Segment} {parent child : Skeleton} {i : ℕ} (s : Segment) (rest : List Segment)
    → Leads seg parent i child
    → resolve (seg ∷ (s ∷ rest)) parent
      ≡ (resolve (s ∷ rest) child >>= λ cur. ok (under parent i cur))
unfolding resolve item_at
Leads-more s rest (Leads.by_field name fs i t e) = rw (e, resolve) refl
Leads-more s rest (Leads.by_index z xs i t e h) = rw (e, resolve) (rw (h, item_at) refl)

-- Another node in the child's place stands under the same segment.
pub Leads-set :
    {seg : Segment} {parent child : Skeleton} {i : ℕ} (node : Skeleton)
    → Leads seg parent i child
    → Leads seg (set_child i node parent) i node
unfolding set_child
Leads-set node (Leads.by_field name fs i t e) =
    Leads.by_field name (set_field i node fs) i node (find-set name node fs i t e)
Leads-set node (Leads.by_index z xs i t e h) =
    Leads.by_index z (set_item i node xs) i node (rw (count-set node xs i) e)
      (nth-set node xs i t h)

pub Leads-same :
    {seg : Segment} {parent child : Skeleton} {i : ℕ}
    → Leads seg parent i child
    → set_child i child parent ≡ parent
unfolding set_child
Leads-same (Leads.by_field name fs i t e) = ap map_node (set-find name fs i t e)
Leads-same (Leads.by_index z xs i t e h) = ap array_node (set-nth xs i t h)

pub data Walk : List Segment → Skeleton → Cursor → Type 0 where
  at_missing :
      (name : Bytes) (rest : List Segment) (fs : Fields) (cur : Cursor)
      → find_field name fs ≡ none
      → cur ≡ no_target (some (seg_field name ∷ rest)) (map_node fs)
      → Walk (seg_field name ∷ rest) (map_node fs) cur
  at_append :
      (xs : Items) (cur : Cursor)
      → cur ≡ no_target none (array_node xs)
      → Walk (seg_append ∷ []) (array_node xs) cur
  at_child :
      (seg : Segment) (parent child : Skeleton) (i : ℕ) (cur : Cursor)
      → Leads seg parent i child
      → cur ≡ found_at parent i child
      → Walk (seg ∷ []) parent cur
  below :
      (seg s : Segment) (rest : List Segment) (parent child : Skeleton) (i : ℕ) (cur cur' : Cursor)
      → Leads seg parent i child
      → cur' ≡ under parent i cur
      → Walk (s ∷ rest) child cur
      → Walk (seg ∷ (s ∷ rest)) parent cur'

resolve-missing :
    (name : Bytes) (rest : List Segment) (fs : Fields)
    → find_field name fs ≡ none
    → resolve (seg_field name ∷ rest) (map_node fs)
      ≡ ok (no_target (some (seg_field name ∷ rest)) (map_node fs))
unfolding resolve
resolve-missing name rest fs e = rw (e, resolve) refl

ok_inj : {E A : Type 0} {a b : A} → ◌≡◌ {A = Outcome E A} (ok a) (ok b) → b ≡ a
ok_inj e = cc

item_at-ok : (i : ℕ) (xs : Items) (t : Skeleton) → item_at i xs ≡ ok t → nth_item i xs ≡ some t
unfolding item_at
item_at-ok i xs t e = ground arith

-- An index that is resolved leads to a child.
resolve-index :
    (z : ℤ) (rest : List Segment) (xs : Items) (cur : Cursor)
    → resolve (seg_index z ∷ rest) (array_node xs) ≡ ok cur
    → (i : ℕ) × (t : Skeleton) × Leads (seg_index z) (array_node xs) i t
unfolding resolve
resolve-index z rest xs cur e =
    let first = >>=-eq-ok (resolve_index z (item_count xs)) _ e in
    let second = >>=-eq-ok (item_at first.0 xs) _ first.2 in
    (
      first.0,
      second.0,
      Leads.by_index z xs first.0 second.0 first.1 (item_at-ok first.0 xs second.0 second.1),
    )

led :
    (seg : Segment) (rest : List Segment) {parent child : Skeleton} {i : ℕ} (cur : Cursor)
    → Leads seg parent i child
    → ((c : Cursor) → resolve rest child ≡ ok c → Walk rest child c)
    → resolve (seg ∷ rest) parent ≡ ok cur
    → Walk (seg ∷ rest) parent cur
led seg [] {parent} {child} {i} cur lead onward e =
    Walk.at_child seg parent child i cur lead (ok_inj (sym (Leads-last lead) ∙ e))
led seg (s ∷ rest) {parent} {child} {i} cur lead onward e =
    let inner = >>=-eq-ok (resolve (s ∷ rest) child) _ (sym (Leads-more s rest lead) ∙ e) in
    Walk.below seg s rest parent child i inner.0 cur lead (ok_inj inner.2) (onward inner.0 inner.1)

-- Each walk that succeeds is one of these.
pub resolve-Walk :
    (path : List Segment) (s : Skeleton) (cur : Cursor) → resolve path s ≡ ok cur → Walk path s cur
resolve-Walk [] s cur e = unfold resolve in cc e
resolve-Walk (seg_field name ∷ rest) (map_node fs) cur e =
    elim (Option-cases (find_field name fs)) [
      | inl absent ↦
          Walk.at_missing name rest fs cur absent
            (ok_inj (sym (resolve-missing name rest fs absent) ∙ e))
      | inr ((i, t), found) ↦
          led (seg_field name) rest cur (Leads.by_field name fs i t found)
            (λ c ec. resolve-Walk rest t c ec) e
    ]
resolve-Walk (seg_field name ∷ rest) (leaf l) cur e = unfold resolve in cc e
resolve-Walk (seg_field name ∷ rest) (array_node xs) cur e = unfold resolve in cc e
resolve-Walk (seg_index z ∷ rest) (array_node xs) cur e =
    let found = resolve-index z rest xs cur e in
    led (seg_index z) rest cur found.2 (λ c ec. resolve-Walk rest found.1 c ec) e
resolve-Walk (seg_index z ∷ rest) (leaf l) cur e = unfold resolve in cc e
resolve-Walk (seg_index z ∷ rest) (map_node fs) cur e = unfold resolve in cc e
resolve-Walk (seg_append ∷ (s ∷ rest)) root cur e = unfold resolve in cc e
resolve-Walk (seg_append ∷ []) (array_node xs) cur e =
    Walk.at_append xs cur (unfold resolve in ok_inj e)
resolve-Walk (seg_append ∷ []) (leaf l) cur e = unfold resolve in cc e
resolve-Walk (seg_append ∷ []) (map_node fs) cur e = unfold resolve in cc e
