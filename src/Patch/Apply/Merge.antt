-- ===== src/Patch/Apply/Merge.antt =====
-- msgpackpatch/merge.go: the fields of the value, and how they come into a map.
use hydraide.Base.{ℕ, zero, suc, ◌-◌, List, [], ◌∷◌, none, some, if◌then◌else◌, take, length}
use hydraide.Base.Bytes.{Bytes}
use hydraide.Base.Outcome.{ok, err, ◌>>=◌}
use hydraide.Patch.Codes.{is_map_code}
use hydraide.Patch.Errors.{Result, invalid_msgpack, type_mismatch}
use hydraide.Patch.Msgpack.{Msgpack}
use hydraide.Patch.Parse.{or_invalid, parse_key}
use hydraide.Patch.Skeleton.{Fields, find_field, append_field, set_field, new_leaf}

-- `mergeFieldsInto`
unfoldable pub merge_fields_into : Fields → List (Bytes × Bytes) → Fields
merge_fields_into fs [] = fs
merge_fields_into fs ((key, value) ∷ patch) =
    merge_fields_into
      (elim (find_field key fs) [
        | none ↦ append_field fs key (new_leaf value)
        | some found ↦ set_field found.0 (new_leaf value) fs
      ])
      patch

module _ (m : Msgpack) where
  -- The value of a field is what `Skip` passes over.
  unfoldable pub extract_fields : ℕ → Bytes → Result (List (Bytes × Bytes))
  extract_fields zero rest = ok []
  extract_fields (suc n) rest = do
    (key, rest₁) ← parse_key m rest
    rest₂ ← or_invalid (m.skip rest₁)
    others ← extract_fields n rest₂
    ok ((key, take (length rest₁ - length rest₂) rest₁) ∷ others)

  unfoldable pub extract_top_level_fields : Bytes → Result (List (Bytes × Bytes))
  extract_top_level_fields [] = err invalid_msgpack
  extract_top_level_fields (c ∷ cs) =
      if is_map_code c
      then (do (n, rest) ← or_invalid (m.decode_map_len (c ∷ cs)); extract_fields n rest)
      else err type_mismatch
