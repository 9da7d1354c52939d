-- ===== src/Patch/Apply/Merged.antt =====
-- The fields of a map after `mergeFieldsInto` of msgpackpatch/merge.go.
use hydraide.Base.{
  Option-cases, ℕ, zero, suc, ◌≡◌, refl, ap, ◌∙◌, List, [], ◌∷◌, Option, none, some, if◌then◌else◌,
  inl, inr, arith,
}
use hydraide.Base.Bytes.{Bytes}
use hydraide.Base.Assoc.{bytes_eq, bytes_eq_iff}
use hydraide.Patch.Skeleton.{
  Skeleton, Fields, no_fields, field, find_field, append_field, set_field, new_leaf,
}
use hydraide.Patch.Resolve.Steps.{}
use hydraide.Patch.Apply.Merge.{merge_fields_into}

-- The value of the first field of the name.
unfoldable pub value_at : Bytes → Fields → Option Skeleton
value_at name no_fields = none
value_at name (field k v fs) = if bytes_eq k name then some v else value_at name fs

-- The last value that the patch has for the name, or else the old one.
unfoldable pub overridden : Bytes → Option Skeleton → List (Bytes × Bytes) → Option Skeleton
overridden name old [] = old
overridden name old ((key, value) ∷ patch) =
    overridden name (if bytes_eq key name then some (new_leaf value) else old) patch

value_at-append :
    (name key : Bytes) (v : Skeleton) (fs : Fields)
    → find_field key fs ≡ none
    → value_at name (append_field fs key v)
      ≡ (if bytes_eq key name then some v else value_at name fs)
unfolding value_at append_field find_field
value_at-append name key v no_fields e = refl
value_at-append name key v (field k w fs) e = ground (
  arith,
  value_at-append name key v fs,
  bytes_eq_iff key name,
  bytes_eq_iff k name,
  bytes_eq_iff k key,
)

value_at-set :
    (name key : Bytes) (v : Skeleton) (fs : Fields) (i : ℕ) (t : Skeleton)
    → find_field key fs ≡ some (i, t)
    → value_at name (set_field i v fs) ≡ (if bytes_eq key name then some v else value_at name fs)
unfolding value_at set_field find_field
value_at-set name key v no_fields i t e = cc
value_at-set name key v (field k w fs) zero t e =
    ground (arith, bytes_eq_iff key name, bytes_eq_iff k name, bytes_eq_iff k key)
value_at-set name key v (field k w fs) (suc i) t e = ground (
  arith,
  value_at-set name key v fs i t,
  bytes_eq_iff key name,
  bytes_eq_iff k name,
  bytes_eq_iff k key,
)

-- After a merge each name has the last value that the patch gives it, or else its old value.
pub value_at-merge :
    (name : Bytes) (fs : Fields) (patch : List (Bytes × Bytes))
    → value_at name (merge_fields_into fs patch) ≡ overridden name (value_at name fs) patch
unfolding merge_fields_into overridden
value_at-merge name fs [] = refl
value_at-merge name fs ((key, value) ∷ patch) = elim (Option-cases (find_field key fs)) [
  | inl absent ↦ rw absent (
      value_at-merge name (append_field fs key (new_leaf value)) patch
      ∙ ap (λ old. overridden name old patch) (value_at-append name key (new_leaf value) fs absent))
  | inr ((i, t), found) ↦ rw found (
      value_at-merge name (set_field i (new_leaf value) fs) patch
      ∙ ap (λ old. overridden name old patch) (value_at-set name key (new_leaf value) fs i t found))
]
