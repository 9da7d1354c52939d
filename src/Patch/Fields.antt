-- ===== src/Patch/Fields.antt =====
-- The changes of a node's children in msgpackpatch, by what a search finds after them.
use hydraide.Base.{ℕ, zero, suc, ◌≡◌, refl, ap, none, some, if◌then◌else◌, arith}
use hydraide.Base.Bytes.{Bytes}
use hydraide.Base.Assoc.{bytes_eq, bytes_eq_refl}
use hydraide.Patch.Skeleton.{
  Skeleton, Fields, no_fields, field, Items, no_items, item, find_field, field_count, nth_item,
  item_count, append_field, set_field, set_item, delete_field,
}

-- The fields of the other names.
unfoldable pub others : Bytes → Fields → Fields
others name no_fields = no_fields
others name (field k v fs) = if bytes_eq k name then others name fs else field k v (others name fs)

-- The index of the new field is that of the end.
pub find-append :
    (name : Bytes) (v : Skeleton) (fs : Fields)
    → find_field name fs ≡ none
    → find_field name (append_field fs name v) ≡ some (field_count fs, v)
unfolding find_field append_field field_count
find-append name v no_fields e = rw bytes_eq_refl refl
find-append name v (field k w fs) e = ground (arith, find-append name v fs)

pub find-set :
    (name : Bytes) (v : Skeleton) (fs : Fields) (i : ℕ) (t : Skeleton)
    → find_field name fs ≡ some (i, t)
    → find_field name (set_field i v fs) ≡ some (i, v)
unfolding find_field set_field
find-set name v no_fields i t e = cc
find-set name v (field k w fs) zero t e = ground (arith)
find-set name v (field k w fs) (suc i) t e = ground (arith, find-set name v fs i t)

pub nth-set :
    (v : Skeleton) (xs : Items) (i : ℕ) (t : Skeleton)
    → nth_item i xs ≡ some t
    → nth_item i (set_item i v xs) ≡ some v
unfolding nth_item set_item
nth-set v no_items i t e = cc
nth-set v (item w xs) zero t e = refl
nth-set v (item w xs) (suc i) t e = nth-set v xs i t e

pub count-set : (v : Skeleton) (xs : Items) (i : ℕ) → item_count (set_item i v xs) ≡ item_count xs
unfolding item_count set_item
count-set v no_items i = refl
count-set v (item w xs) zero = refl
count-set v (item w xs) (suc i) = ap suc (count-set v xs i)

pub others-append :
    (name : Bytes) (v : Skeleton) (fs : Fields)
    → others name (append_field fs name v) ≡ others name fs
unfolding others append_field
others-append name v no_fields = rw bytes_eq_refl refl
others-append name v (field k w fs) = ground (arith, others-append name v fs)

pub others-set :
    (name : Bytes) (v : Skeleton) (fs : Fields) (i : ℕ) (t : Skeleton)
    → find_field name fs ≡ some (i, t)
    → others name (set_field i v fs) ≡ others name fs
unfolding others find_field set_field
others-set name v no_fields i t e = cc
others-set name v (field k w fs) zero t e = ground arith
others-set name v (field k w fs) (suc i) t e = ground (arith, others-set name v fs i t)

pub others-delete :
    (name : Bytes) (fs : Fields) (i : ℕ) (t : Skeleton)
    → find_field name fs ≡ some (i, t)
    → others name (delete_field i fs) ≡ others name fs
unfolding others find_field delete_field
others-delete name no_fields i t e = cc
others-delete name (field k w fs) zero t e = ground arith
others-delete name (field k w fs) (suc i) t e = ground (arith, others-delete name fs i t)

pub set-find :
    (name : Bytes) (fs : Fields) (i : ℕ) (t : Skeleton)
    → find_field name fs ≡ some (i, t)
    → set_field i t fs ≡ fs
unfolding find_field set_field
set-find name no_fields i t e = cc
set-find name (field k w fs) zero t e = ground arith
set-find name (field k w fs) (suc i) t e = ground (arith, set-find name fs i t)

pub set-nth : (xs : Items) (i : ℕ) (t : Skeleton) → nth_item i xs ≡ some t → set_item i t xs ≡ xs
unfolding nth_item set_item
set-nth no_items i t e = cc
set-nth (item w xs) zero t e = cc
set-nth (item w xs) (suc i) t e = ap (item w) (set-nth xs i t e)
