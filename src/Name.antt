-- ===== src/Name.antt =====
-- app/name/name.go: the names of swamps, without GetFullHashPath. The hash of the xxhash package is a
-- parameter.
pub mod Path
pub mod Folder
pub mod Tests
use hydraide.Base.{
  ℕ, ◌+◌, ◌%◌, ◌^◌, Bool, true, false, List, [], ◌∷◌, ◌++◌, ◌==◌, ◌&&◌, ◌||◌, not, if◌then◌else◌,
}
use hydraide.Base.Bytes.{Bytes}
use hydraide.Base.Assoc.{bytes_eq}
use hydraide.Base.Split.{split}
use hydraide.Base.Outcome.{Outcome, ok, err}

pub data Panic : Type 0 where
  index_out_of_range divide_by_zero : Panic

-- `folder_number` is 0 until it has been computed.
pub record Name : Type 0 where
  pub path : Bytes
  pub sanctuary_id : Bytes
  pub realm_name : Bytes
  pub swamp_name : Bytes
  pub folder_number : ℕ

unfoldable pub new_name : Name
new_name = record {
  path = [];
  sanctuary_id = [];
  realm_name = [];
  swamp_name = [];
  folder_number = 0;
}

-- Each of the three makes a new object.
unfoldable pub sanctuary : Bytes → Name → Name
unfolding new_name
sanctuary sanctuary_id n = record new_name { sanctuary_id = sanctuary_id; path = sanctuary_id }

unfoldable pub realm : Bytes → Name → Name
unfolding new_name
realm realm_name n = record new_name {
  sanctuary_id = n.sanctuary_id;
  realm_name = realm_name;
  path = n.path ++ (b'/' ∷ realm_name);
}

unfoldable pub swamp : Bytes → Name → Name
unfolding new_name
swamp swamp_name n = record new_name {
  sanctuary_id = n.sanctuary_id;
  realm_name = n.realm_name;
  swamp_name = swamp_name;
  path = n.path ++ (b'/' ∷ swamp_name);
}

unfoldable pub get : Name → Bytes
get n = n.path

abbrev pub star : Bytes
star = b'*' ∷ []

unfoldable pub is_wildcard_pattern : Name → Bool
is_wildcard_pattern n =
    bytes_eq n.sanctuary_id star || bytes_eq n.realm_name star || bytes_eq n.swamp_name star

unfoldable pub compare_pattern : Name → Name → Bool
compare_pattern n pattern =
    if not (bytes_eq n.sanctuary_id pattern.sanctuary_id)
    then false
    else if not (bytes_eq pattern.realm_name star) && not (bytes_eq n.realm_name pattern.realm_name)
    then false
    else if not (bytes_eq pattern.swamp_name star) && not (bytes_eq n.swamp_name pattern.swamp_name)
    then false
    else true

-- The second and the third part must be there.
load_parts : Bytes × List Bytes → Outcome Panic Name
unfolding new_name
load_parts (sanctuary_id, realm_name ∷ (swamp_name ∷ others)) = ok (record new_name {
  path = sanctuary_id ++ (b'/' ∷ (realm_name ++ (b'/' ∷ swamp_name)));
  sanctuary_id = sanctuary_id;
  realm_name = realm_name;
  swamp_name = swamp_name;
})
load_parts (sanctuary_id, realm_name ∷ []) = err index_out_of_range
load_parts (sanctuary_id, []) = err index_out_of_range

unfoldable pub load : Bytes → Outcome Panic Name
unfolding load_parts
load path = load_parts (split b'/' path)

-- A number that was computed before is given again. A uint16 wraps around.
unfoldable pub get_folder_number : (Bytes → ℕ) → ℕ → Name → Outcome Panic (Name × ℕ)
get_folder_number hash all_folders n =
    if not (n.folder_number == 0)
    then ok (n, n.folder_number)
    else if all_folders == 0
    then err divide_by_zero
    else (let number =
          ((hash (n.sanctuary_id ++ (n.realm_name ++ n.swamp_name)) % all_folders) % 2 ^ 16 + 1)
          % 2 ^ 16 in
        ok (record n { folder_number = number }, number))
