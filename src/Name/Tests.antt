-- ===== src/Name/Tests.antt =====
-- A name and its path.
use hydraide.Base.{ℕ, ◌≡◌, ◌<◌, ◌≤◌, refl, [], ◌∷◌, length, arith}
use hydraide.Base.Bytes.{Bytes}
use hydraide.Base.Outcome.{ok}
use hydraide.Name.{Name, new_name, get_folder_number}
use hydraide.Name.Folder.{get_folder_number_lem}

abbrev users : Bytes
users = b'u' ∷ []

abbrev profiles : Bytes
profiles = b'p' ∷ b'r' ∷ []

abbrev alex : Bytes
alex = b'a' ∷ b'x' ∷ []

abbrev short_path : Bytes
short_path = b'u' ∷ b'/' ∷ b'p' ∷ []

unnumbered : new_name.folder_number ≡ 0
unfolding new_name
unnumbered = refl

get_folder_number_lem_example :
    (n' : Name) × (number : ℕ) × (get_folder_number length 1000 new_name ≡ ok (n', number))
    × (0 < number)
    × (number ≤ 1000)
    × (n'.path ≡ new_name.path)
    × ((other : Bytes → ℕ) (folders : ℕ) → get_folder_number other folders n' ≡ ok (n', number))
get_folder_number_lem_example =
    get_folder_number_lem length 1000 new_name unnumbered (omega arith) (omega arith)
