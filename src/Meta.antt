-- ===== src/Meta.antt =====
-- app/core/hydra/swamp/metadata/metadata.go: the metadata that a swamp keeps in a file of its own.
use hydraide.Base.{
  ℕ, Bool, true, false, not, ◌||◌, List, [], ◌∷◌, Option, none, some, if◌then◌else◌, is_nil,
}
use hydraide.Base.Bytes.{Bytes}
use hydraide.Base.Assoc.{bytes_eq, lookup, insert, remove}
pub mod Kept
pub mod Tests

-- A time is none while it is time.Time{}. BackupAt, which nothing sets, is left out.
pub record Meta : Type 0 where
  pub swamp_name : Bytes
  pub created_at : Option ℕ
  pub updated_at : Option ℕ
  pub key_value_pairs : List (Bytes × Bytes)

pub record Metadata : Type 0 where
  pub meta : Meta
  pub is_modified : Bool
  pub file_persist_disabled : Bool

abbrev pub no_meta : Meta
no_meta = record { swamp_name = []; created_at = none; updated_at = none; key_value_pairs = [] }

unfoldable pub new : Metadata
new = record { meta = no_meta; is_modified = false; file_persist_disabled = false }

abbrev pub or_nothing : Option Bytes → Bytes
or_nothing none = []
or_nothing (some v) = v

unfoldable pub get_key : Bytes → Metadata → Bytes
get_key key m = or_nothing (lookup key m.meta.key_value_pairs)

abbrev pub same_value : Bytes → Option Bytes → Bool
same_value value none = false
same_value value (some existing) = bytes_eq existing value

unfoldable pub set_key : Bytes → Bytes → Metadata → Metadata
set_key key value m = if same_value value (lookup key m.meta.key_value_pairs) then m else record m {
  meta = record m.meta { key_value_pairs = insert key value m.meta.key_value_pairs };
  is_modified = true;
}

unfoldable pub delete_found : Option Bytes → Bytes → Metadata → Metadata
delete_found none key m = m
delete_found (some value) key m = record m {
  meta = record m.meta { key_value_pairs = remove key m.meta.key_value_pairs };
  is_modified = true;
}

unfoldable pub delete_key : Bytes → Metadata → Metadata
unfolding delete_found
delete_key key m = delete_found (lookup key m.meta.key_value_pairs) key m

-- A name that is empty, and one that is another, are both replaced.
unfoldable pub set_swamp_name : Bytes → Metadata → Metadata
set_swamp_name name m =
    if is_nil m.meta.swamp_name || not (bytes_eq m.meta.swamp_name name)
    then record m { meta = record m.meta { swamp_name = name }; is_modified = true }
    else m

-- The time is an argument.
unfoldable pub set_updated_at : ℕ → Metadata → Metadata
set_updated_at now m = record m {
  meta = record m.meta { updated_at = some now };
  is_modified = true;
}

unfoldable pub disable_file_persistence : Metadata → Metadata
disable_file_persistence m = record m { file_persist_disabled = true }

-- With the file of the path, which is deleted.
unfoldable pub destroy : Metadata → Metadata × Option Bytes
destroy m = (record m { meta = no_meta }, none)

unfoldable pub created : ℕ → Option ℕ → Option ℕ
created now none = some now
created now (some t) = some t

-- What encoding/gob makes of metadata, and how it reads into metadata that are there.
module _ (encode : Meta → Bytes) (decode : Bytes → Meta → Option Meta) where
  unfoldable pub decoded : Option Meta → Meta
  decoded none = no_meta
  decoded (some meta) = meta

  unfoldable pub load : Option Bytes → Metadata → Metadata
  unfolding decoded
  load none m = m
  load (some bytes) m = record m { meta = decoded (decode bytes m.meta) }

  unfoldable pub load_from_file : ℕ → Option Bytes → Metadata → Metadata
  unfolding created
  load_from_file now file m =
      let loaded = load file m in
      record loaded {
        meta = record loaded.meta { created_at = created now loaded.meta.created_at };
      }

  -- The file of the path afterwards.
  unfoldable pub save_to_file : Metadata → Option Bytes → Option Bytes
  save_to_file m file =
      if m.file_persist_disabled then file else if m.is_modified then some (encode m.meta) else file
